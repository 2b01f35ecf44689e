-- ===== src/Passthrough/Skip.antt =====
-- The fields that bogofilter/src/passthrough.c passes over.
use bogofilter.Prelude.{
  All, Bool-cases, Bytes, List, [], ap, arith, false, if◌then◌else◌, inl, inr, leb, length,
  length-take, lt→ltb, refl, suc, sym, take, true, zero, ℕ, ◌&&◌, ◌<◌, ◌||◌, ◌∙◌, ◌∷◌, ◌≡◌, ◌≤◌,
}
use bogofilter.Passthrough.{begins, is_folded, skip_folded, skip_fields, read_mem}
use bogofilter.Passthrough.Lines.{without}
use bogofilter.WordLists.SameBytes.{same_bytes_sound}

-- No line is empty.
abbrev pub NonEmpty : Bytes → Type 0
NonEmpty line = 0 < length line

-- A line can stand behind a field.
pub record EndsField (name line : Bytes) : Type 0 where
  pub filled : 0 < length line
  pub no_name : begins name line ≡ false
  pub no_fold : is_folded line ≡ false

-- What follows the header: nothing, or a line that ends it and the body.
pub data Follows (name : Bytes) : List Bytes → List Bytes → Type 0 where
  nothing : Follows name [] []
  body :
      {line : Bytes} {lines : List Bytes} → EndsField name line → Follows name (line ∷ lines) lines

-- The lines from the next field of another name on.
unfoldable pub next_field : Bytes → List Bytes → List Bytes
unfolding begins
next_field name [] = []
next_field name (line ∷ lines) =
    if begins name line || is_folded line then next_field name lines else line ∷ lines

pub without-next_field :
    (name : Bytes) (lines : List Bytes)
    → without name true lines ≡ without name false (next_field name lines)
unfolding without next_field
without-next_field name [] = refl
without-next_field name (line ∷ lines) = ground (arith, without-next_field name lines)

pub length-next_field :
    (name : Bytes) (lines : List Bytes) → length (next_field name lines) ≤ length lines
unfolding next_field
length-next_field name [] = omega arith
length-next_field name (line ∷ lines) = ground (arith, length-next_field name lines)

pub All-next_field :
    (P : Bytes → Type 0) (name : Bytes) (lines : List Bytes)
    → All P lines
    → All P (next_field name lines)
unfolding next_field
All-next_field P name [] h = tt
All-next_field P name (line ∷ lines) h = elim (Bool-cases (begins name line || is_folded line)) [
  | inl e ↦ rw e (All-next_field P name lines h.1)
  | inr e ↦ rw e h
]

-- The loop from a field of the name on reaches the next line that stays.
pub record Reaches (name : Bytes) (blocks : List Bytes) (r : ℕ × Bytes × List Bytes) : Type 0 where
  pub place : Bytes
  pub reached : r ≡ read_mem place (next_field name blocks)

skip_done :
    (name : Bytes) (n rd : ℕ) (out : Bytes) (blocks : List Bytes)
    → (leb (length name) rd && begins name out) ≡ false
    → skip_fields name n (rd, out, blocks) ≡ (rd, out, blocks)
unfolding skip_fields
skip_done name zero rd out blocks e = refl
skip_done name (suc n) rd out blocks e = rw e

pub begins-length : (name out : Bytes) → begins name out ≡ true → length name ≤ length out
unfolding begins
begins-length name out h = omega (
  arith,
  ap length (same_bytes_sound (take (length name) out) name h),
  length-take (length name) out,
)

-- The size that is read is that of the line.
guard_lem :
    (name out : Bytes) → (leb (length name) (length out) && begins name out) ≡ begins name out
guard_lem name out = elim (Bool-cases (begins name out)) [
  | inl e ↦ ground (arith, e, begins-length name out e)
  | inr e ↦ ground (arith, e)
]

folded_step :
    (out line : Bytes) (blocks : List Bytes)
    → 0 < length line
    → is_folded line ≡ true
    → skip_folded out (line ∷ blocks) ≡ skip_folded line blocks
unfolding skip_folded
folded_step out line blocks h e = rw (e, lt→ltb _ _ h) refl

pub unfolded_step :
    (out line : Bytes) (blocks : List Bytes)
    → is_folded line ≡ false
    → skip_folded out (line ∷ blocks) ≡ (length line, line, blocks)
unfolding skip_folded
unfolded_step out line blocks e = ground (arith, e)

name_step :
    (name : Bytes) (n : ℕ) (line : Bytes) (blocks : List Bytes)
    → begins name line ≡ true
    → skip_fields name (suc n) (length line, line, blocks)
      ≡ skip_fields name n (skip_folded line blocks)
unfolding skip_fields
name_step name n line blocks e = rw (guard_lem name line ∙ e) refl

next_pass :
    (name line : Bytes) (blocks : List Bytes)
    → (begins name line || is_folded line) ≡ true
    → next_field name (line ∷ blocks) ≡ next_field name blocks
unfolding next_field
next_pass name line blocks e = rw e refl

pub next_stop :
    (name line : Bytes) (blocks : List Bytes)
    → begins name line ≡ false
    → is_folded line ≡ false
    → next_field name (line ∷ blocks) ≡ line ∷ blocks
unfolding next_field
next_stop name line blocks e k = rw (e, k) refl

pub stay :
    (name : Bytes) (n : ℕ) (line : Bytes) (blocks : List Bytes)
    → begins name line ≡ false
    → skip_fields name n (length line, line, blocks) ≡ (length line, line, blocks)
stay name n line blocks e = skip_done name n (length line) line blocks (guard_lem name line ∙ e)

pub skip_field :
    (name : Bytes) (n : ℕ) (out : Bytes) (blocks : List Bytes)
    → 0 < length name
    → All NonEmpty blocks
    → length blocks ≤ n
    → Reaches name blocks (skip_fields name n (skip_folded out blocks))
unfolding read_mem
skip_field name n out [] h a f = record {
  place = out;
  reached = unfold next_field skip_folded in skip_done name n 0 out [] (ground arith);
}
skip_field name zero out (line ∷ blocks) h a f = absurd (omega arith)
skip_field name (suc n) out (line ∷ blocks) h (a, as') f = elim (Bool-cases (is_folded line)) [
  | inl e ↦
      let r = skip_field name (suc n) line blocks h as' (omega arith) in
      record {
        place = r.place;
        reached =
            ap (skip_fields name (suc n)) (folded_step out line blocks a e)
            ∙ r.reached
            ∙ ap (read_mem r.place) (sym (next_pass name line blocks (ground (arith, e))));
      }
  | inr e ↦ elim (Bool-cases (begins name line)) [
    | inl k ↦
        let r = skip_field name n line blocks h as' (omega arith) in
        record {
          place = r.place;
          reached =
              ap (skip_fields name (suc n)) (unfolded_step out line blocks e)
              ∙ name_step name n line blocks k
              ∙ r.reached
              ∙ ap (read_mem r.place) (sym (next_pass name line blocks (ground (arith, k))));
        }
    | inr k ↦ record {
      place = out;
      reached =
          ap (skip_fields name (suc n)) (unfolded_step out line blocks e)
          ∙ stay name (suc n) line blocks k
          ∙ ap (read_mem out) (sym (next_stop name line blocks k e));
    }
  ]
]

-- The loop from any line on: a field of the name is passed over with all that belong to it, another
-- line stays.
pub skip_line :
    (name line : Bytes) (blocks : List Bytes)
    → 0 < length name
    → All NonEmpty blocks
    → begins name line ≡ true
    → Reaches name blocks (skip_fields name (suc (length blocks)) (length line, line, blocks))
skip_line name line blocks h a e =
    let r = skip_field name (length blocks) line blocks h a (omega arith) in
    record { place = r.place; reached = name_step name (length blocks) line blocks e ∙ r.reached }
