-- ===== src/Mime/Reaches.antt =====
-- The stacks of bogofilter/src/mime.c that its operations can build, in the orders in which the lexer calls
-- them.
use bogofilter.Prelude.{
  All, Bool, Bytes, List, Option, Option-cases, [], drop, false, get_or, if◌then◌else◌, inl, inr,
  length, none, refl, some, subst, sym, true, ℕ, ◌++◌, ◌==◌, ◌∙◌, ◌∷◌, ◌≡◌,
}
use bogofilter.Mime.{
  MimePart, mime_reset, mime_cleanup, mime_push, mime_init, mime_add_child, got_mime_boundary,
}
use bogofilter.Mime.Stack.{
  WellStacked, mime_push-WellStacked, suffix-WellStacked, got_mime_boundary-Closes,
}
use bogofilter.Mime.Header.{
  tolower, mime_content, mime_boundary_set, with_top, with_word, mime_disposition_field,
  mime_encoding_field, mime_type_field, getword, c_string,
}

-- A run of the operations, from an empty stack; a run ends where a null pointer is followed.
pub data Reaches : List MimePart → Type 0 where
  starts : Reaches []
  cleans : {s : List MimePart} → Reaches s → Reaches (mime_cleanup s)
  resets : {s : List MimePart} → Reaches s → Reaches (mime_reset s)
  adds : {s : List MimePart} → Reaches s → Reaches (mime_add_child s)
  reads_line : {s : List MimePart} → (buf : Bytes) → Reaches s → Reaches (got_mime_boundary buf s).1
  reads_content :
      {s s' : List MimePart}
      → (text : Bytes) → Reaches s
      → mime_content text s ≡ some s'
      → Reaches s'
  sets_boundary :
      {s s' : List MimePart}
      → (text : Bytes) → Reaches s
      → mime_boundary_set text s ≡ some s'
      → Reaches s'

-- The length that is kept for a boundary is the length of its string.
abbrev pub Measured : MimePart → Type 0
Measured p = p.boundary_len ≡ elim p.boundary [ none ↦ 0 | some w ↦ length w ]

abbrev Sound : List MimePart → Type 0
Sound s = WellStacked s × All Measured s

push-Sound : (s : List MimePart) → Sound s → Sound (mime_push s)
unfolding mime_push mime_init
push-Sound s (w, m) = (mime_push-WellStacked s w, (refl, m))

suffix-All : (P : MimePart → Type 0) (above s : List MimePart) → All P (above ++ s) → All P s
suffix-All P [] s h = h
suffix-All P (p ∷ above) s (_, h) = suffix-All P above s h

suffix-Sound : (above s t : List MimePart) → t ≡ above ++ s → Sound t → Sound s
suffix-Sound above s t e h =
    let (w, m) = subst Sound e h in (suffix-WellStacked above s w, suffix-All Measured above s m)

closes-Sound :
    (final : Bool) (s : List MimePart) → Sound s → Sound (if final then s else mime_push s)
closes-Sound true s h = h
closes-Sound false s h = push-Sound s h

line-Sound : (buf : Bytes) (s : List MimePart) → Sound s → Sound (got_mime_boundary buf s).1
line-Sound buf s h = elim (got_mime_boundary-Closes buf s h.0) [
  | inl (e, _, _) ↦ subst (λ r. Sound r.1) (sym e) h
  | inr (c, _, e) ↦
      subst (λ r. Sound r.1) (sym e)
        (unfold mime_push in
          closes-Sound _ (c.container ∷ c.outer) (suffix-Sound c.above _ s c.split h))
]

-- A change of the first part that keeps its depth and its boundary's length true.
Keeps : (MimePart → MimePart) → Type 0
Keeps f = (p : MimePart) → ((f p).depth ≡ p.depth) × (Measured p → Measured (f p))

with_top-Sound :
    (f : MimePart → MimePart) (s s' : List MimePart)
    → Keeps f
    → with_top f s ≡ some s'
    → Sound s
    → Sound s'
unfolding with_top Keeps
with_top-Sound f [] s' k e h = cc
with_top-Sound f (p ∷ parents) s' k e ((d, w), (m, ms)) =
    let (kd, km) = k p in
    let e' : f p ∷ parents ≡ s' = cc in subst Sound e' ((kd ∙ d, w), (km m, ms))

with_word-Sound :
    (l : ℕ) (text : Bytes) (f : Bytes → MimePart → MimePart) (s s' : List MimePart)
    → ((w : Bytes) → Keeps (f w))
    → with_word l text f s ≡ some s'
    → Sound s
    → Sound s'
unfolding with_word
with_word-Sound l text f s s' k e h = elim (Option-cases (getword (drop l text))) [
  | inl n ↦
      let e' : some s ≡ some s' = sym (rw (n, with_word) refl) ∙ e in
      let e'' : s ≡ s' = cc in subst Sound e'' h
  | inr (w, n) ↦
      let e' : with_top (f w) s ≡ some s' = sym (rw (n, with_word) refl) ∙ e in
      with_top-Sound (f w) s s' (k w) e' h
]

-- One of four results.
switch :
    (a b c : Bool) (x y z w : Option (List MimePart)) (s' : List MimePart)
    → (if a then x else if b then y else if c then z else w) ≡ some s'
    → (x ≡ some s' → Sound s')
    → (y ≡ some s' → Sound s')
    → (z ≡ some s' → Sound s')
    → (w ≡ some s' → Sound s')
    → Sound s'
switch true b c x y z w s' e f g h k = f e
switch false true c x y z w s' e f g h k = g e
switch false false true x y z w s' e f g h k = h e
switch false false false x y z w s' e f g h k = k e

content-Sound :
    (text : Bytes) (s s' : List MimePart) → mime_content text s ≡ some s' → Sound s → Sound s'
unfolding mime_content mime_disposition_field mime_encoding_field mime_type_field Keeps
content-Sound text s s' e h =
    let c = tolower (get_or text 9 0) in
    let field =
      λ (l : ℕ) (f : Bytes → MimePart → MimePart) (k : (w : Bytes) → Keeps (f w))
          (e' : with_word l text f s ≡ some s').
        with_word-Sound l text f s s' k e' h in
    switch (c == b'r') (c == b'y') (c == b'i') (mime_encoding_field text s) (mime_type_field text s)
      (mime_disposition_field text s) (some s) s' e (field 26 _ λ w p. (refl, λ m. m))
      (field 13 _ λ w p. (refl, λ m. m)) (field 20 _ λ w p. (refl, λ m. m))
      (λ e'. let e'' : s ≡ s' = cc in subst Sound e'' h)

boundary_set-Sound :
    (text : Bytes) (s s' : List MimePart) → mime_boundary_set text s ≡ some s' → Sound s → Sound s'
unfolding mime_boundary_set Keeps
boundary_set-Sound text s s' e h = elim (Option-cases (getword (drop 9 text))) [
  | inl n ↦
      let e' : ◌≡◌ {A = Option (List MimePart)} none (some s') =
        sym (rw (n, mime_boundary_set) refl) ∙ e in
      cc
  | inr (w, n) ↦
      let g = λ (p : MimePart). record p {
        boundary = some (c_string w);
        boundary_len = length (c_string w);
      } in
      let e' : with_top g s ≡ some s' = sym (rw (n, mime_boundary_set) refl) ∙ e in
      with_top-Sound g s s' (λ p. (refl, λ _. refl)) e' h
]

-- On every stack that the operations build, the depth of a part is the number of its ancestors, and
-- the length that is kept for a boundary is the length of its string.
pub Reaches-WellStacked : (s : List MimePart) → Reaches s → WellStacked s × All Measured s
unfolding mime_reset mime_cleanup mime_add_child
Reaches-WellStacked _ starts = (tt, tt)
Reaches-WellStacked _ (cleans r) = (tt, tt)
Reaches-WellStacked _ (resets r) = push-Sound [] (tt, tt)
Reaches-WellStacked _ (adds r) = push-Sound _ (Reaches-WellStacked _ r)
Reaches-WellStacked _ (reads_line buf r) = line-Sound buf _ (Reaches-WellStacked _ r)
Reaches-WellStacked s' (reads_content text r e) =
    content-Sound text _ s' e (Reaches-WellStacked _ r)
Reaches-WellStacked s' (sets_boundary text r e) =
    boundary_set-Sound text _ s' e (Reaches-WellStacked _ r)
