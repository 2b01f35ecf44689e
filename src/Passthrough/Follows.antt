-- ===== src/Passthrough/Follows.antt =====
-- What stands behind the header in bogofilter/src/passthrough.c, and the lines of the header up to it.
use bogofilter.Prelude.{
  Bool, Bool-cases, Bytes, List, Option, [], ap, arith, false, inl, inr, length, none, refl, some,
  subst, true, ℕ, ◌&&◌, ◌++◌, ◌<◌, ◌==◌, ◌||◌, ◌∙◌, ◌∷◌, ◌≡◌, ◌⊎◌,
}
use bogofilter.Passthrough.{
  Options, begins, ends_with, nl, is_folded, set_eol, ends_header, eol_or_nl,
}
use bogofilter.Passthrough.Lines.{without, first_eol}
use bogofilter.Passthrough.Skip.{next_field, next_stop, without-next_field}
use bogofilter.Passthrough.Line.{eol_for}

-- What follows the header: nothing, or the line that ends it, which is no field of the name, and the body.
pub data Follows (o : Options) : List Bytes → List Bytes → Type 0 where
  nothing : Follows o [] []
  delimited :
      (line : Bytes) (lines : List Bytes)
      → 0 < length line
      → begins o.spam_header_name line ≡ false
      → ends_header o (length line) line ≡ true
      → Follows o (line ∷ lines) lines

-- Whether a folded line behind these lines would belong to a field of the name.
unfoldable pub in_field : Bytes → Bool → List Bytes → Bool
in_field name inside [] = inside
in_field name inside (line ∷ lines) =
    in_field name (begins name line || (inside && is_folded line)) lines

abbrev pub StartsUnfolded : List Bytes → Type 0
StartsUnfolded [] = Unit
StartsUnfolded (line ∷ lines) = is_folded line ≡ false

-- What stands behind the lines is not taken for a part of a field of the name.
abbrev pub Apart : Bytes → Bool → List Bytes → List Bytes → Type 0
Apart name inside lines rest = StartsUnfolded rest ⊎ (in_field name inside lines ≡ false)

in_field_at :
    (name : Bytes) (b b' : Bool) (lines rest : List Bytes)
    → b ≡ b'
    → StartsUnfolded rest ⊎ (in_field name b lines ≡ false)
    → Apart name b' lines rest
in_field_at name b b' lines rest e h =
    subst (λ x. StartsUnfolded rest ⊎ (in_field name x lines ≡ false)) e h

pub Apart-keep :
    (name line : Bytes) (lines rest : List Bytes)
    → begins name line ≡ false
    → Apart name false (line ∷ lines) rest
    → Apart name false lines rest
unfolding in_field
Apart-keep name line lines rest e h = in_field_at name _ false lines rest (ground (arith, e)) h

pub Apart-drop :
    (name line : Bytes) (lines rest : List Bytes)
    → begins name line ≡ true
    → Apart name false (line ∷ lines) rest
    → Apart name true lines rest
unfolding in_field
Apart-drop name line lines rest e h = in_field_at name _ true lines rest (ground (arith, e)) h

Apart-pass :
    (name line : Bytes) (lines rest : List Bytes)
    → (begins name line || is_folded line) ≡ true
    → Apart name true (line ∷ lines) rest
    → Apart name true lines rest
unfolding in_field
Apart-pass name line lines rest e h = in_field_at name _ true lines rest (ground (arith, e)) h

Apart-stop :
    (name line : Bytes) (lines rest : List Bytes)
    → (begins name line || is_folded line) ≡ false
    → Apart name true (line ∷ lines) rest
    → Apart name false (line ∷ lines) rest
unfolding in_field
Apart-stop name line lines rest e h =
    in_field_at name _ (begins name line || (false && is_folded line)) lines rest
      (ground (arith, e)) h

pub Apart-next :
    (name : Bytes) (lines rest : List Bytes)
    → Apart name true lines rest
    → Apart name false (next_field name lines) rest
unfolding next_field in_field
Apart-next name [] rest h = inr refl
Apart-next name (line ∷ lines) rest h = elim (Bool-cases (begins name line || is_folded line)) [
  | inl e ↦ rw e (Apart-next name lines rest (Apart-pass name line lines rest e h))
  | inr e ↦ rw e (Apart-stop name line lines rest e h)
]

pub eol_for_nil : (e : Option Bytes) → eol_or_nl e ≡ eol_for e []
unfolding eol_for first_eol
eol_for_nil none = refl
eol_for_nil (some e) = refl

set_eol-some_self : (e line : Bytes) → set_eol (some e) line ≡ some e
unfolding set_eol
set_eol-some_self e line = refl

pub set_eol_keep : (eol : Option Bytes) (e line : Bytes) → eol ≡ some e → set_eol eol line ≡ some e
set_eol_keep eol e line h = ap (λ x. set_eol x line) h ∙ (set_eol-some_self e line)

pub positive : (n : ℕ) → 0 < n → (n == 0) ≡ false
positive n h = ground arith

-- The first line is not a field of the name.
abbrev pub NoName : Bytes → List Bytes → Type 0
NoName name [] = Unit
NoName name (line ∷ lines) = begins name line ≡ false

pub next_field-NoName : (name : Bytes) (lines : List Bytes) → NoName name (next_field name lines)
unfolding next_field
next_field-NoName name [] = tt
next_field-NoName name (line ∷ lines) = elim (Bool-cases (begins name line || is_folded line)) [
  | inl e ↦ rw e (next_field-NoName name lines)
  | inr e ↦ rw e (ground (arith, e))
]

unfolded :
    (line : Bytes) (lines : List Bytes) (name : Bytes)
    → Apart name true [] (line ∷ lines)
    → is_folded line ≡ false
unfolding in_field
unfolded line lines name (inl h) = h
unfolded line lines name (inr h) = absurd cc

pub next_field-append :
    {rest body : List Bytes} (o : Options) (lines : List Bytes)
    → Follows o rest body
    → Apart o.spam_header_name true lines rest
    → next_field o.spam_header_name (lines ++ rest) ≡ next_field o.spam_header_name lines ++ rest
unfolding next_field
next_field-append o [] nothing h = refl
next_field-append o [] (delimited line lines p a c) h =
    next_stop o.spam_header_name line lines a (unfolded line lines o.spam_header_name h)
next_field-append {rest} o (line ∷ lines) f h =
    elim (Bool-cases (begins o.spam_header_name line || is_folded line)) [
      | inl e ↦
          rw e (next_field-append o lines f (Apart-pass o.spam_header_name line lines rest e h))
      | inr e ↦ rw e refl
    ]

abbrev pub IsEnded : Bytes → Type 0
IsEnded line = ends_with nl line ≡ true

-- The line does not end the header.
abbrev pub IsWithin : Options → Bytes → Type 0
IsWithin o line = ends_header o (length line) line ≡ false

pub without_nil : (name : Bytes) → without name false [] ≡ []
unfolding without
without_nil name = refl

pub without_keep :
    (name line : Bytes) (lines : List Bytes)
    → begins name line ≡ false
    → without name false (line ∷ lines) ≡ line ∷ without name false lines
unfolding without
without_keep name line lines e = rw e refl

without_inside :
    (name line : Bytes) (lines : List Bytes)
    → begins name line ≡ true
    → without name false (line ∷ lines) ≡ without name true lines
unfolding without
without_inside name line lines e = rw e refl

pub without_drop :
    (name line : Bytes) (lines : List Bytes)
    → begins name line ≡ true
    → without name false (line ∷ lines) ≡ without name false (next_field name lines)
without_drop name line lines e = without_inside name line lines e ∙ without-next_field name lines

pub eol_for-some : (e : Bytes) (lines : List Bytes) → eol_for (some e) lines ≡ e
unfolding eol_for
eol_for-some e lines = refl
