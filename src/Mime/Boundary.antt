-- ===== src/Mime/Boundary.antt =====
-- A boundary that a header sets in bogofilter/src/mime.c, and the lines that it is found in.
use mathlib.Core.List.{append_assoc}
use bogofilter.Prelude.{
  All, Bytes, List, [], ap, append_assoc, arith, codes, false, get_or, if◌then◌else◌, inl, inr,
  length, length-append, ltb, refl, some, subst, suc, sym, take, take-append_length, take_all, true,
  zero, ℕ, ◌&&◌, ◌++◌, ◌+◌, ◌<◌, ◌==◌, ◌||◌, ◌∙◌, ◌∷◌, ◌≡◌, ◌≢◌, ◌≤◌, ◌⊎◌,
}
use bogofilter.WordLists.{same_bytes}
use bogofilter.Mime.{
  BoundaryProps, MimePart, mime_init, is_mime_container, is_final_boundary, strip_eol, matches,
  find_boundary, get_boundary_props, pop_to, got_mime_boundary, mime_push,
}
use bogofilter.Mime.Header.{mime_boundary_set, getword, skipws, word_end, c_string, with_top}
use bogofilter.Mime.Stack.{push_next_lem, props_line}

-- A character that a quoted boundary can have: no NUL, no quote, no end of a line.
abbrev pub PlainChar : ℕ → Type 0
PlainChar c = (c ≢ 0) × (c ≢ b'"') × (c ≢ b'\r') × (c ≢ b'\n')

abbrev pub IsEol : ℕ → Type 0
IsEol c = (c ≡ b'\r') ⊎ (c ≡ b'\n')

same_bytes_refl : (w : Bytes) → same_bytes w w ≡ true
unfolding same_bytes
same_bytes_refl [] = refl
same_bytes_refl (c ∷ w) = ground (arith, same_bytes_refl w)

get_or-append : (u v : Bytes) (j : ℕ) → get_or (u ++ v) (length u + j) 0 ≡ get_or v j 0
get_or-append [] v j = let e : 0 + j ≡ j = omega arith in ap (λ k. get_or v k 0) e
get_or-append (c ∷ u) v j =
    let e : suc (length u) + j ≡ suc (length u + j) = omega arith in
    ap (λ k. get_or (c ∷ u ++ v) k 0) e ∙ get_or-append u v j

word_end_quoted : (w rest : Bytes) → All PlainChar w → word_end true (w ++ b'"' ∷ rest) ≡ w
unfolding word_end
word_end_quoted [] rest h = refl
word_end_quoted (c ∷ w) rest (p, h) = ground (arith, word_end_quoted w rest h)

c_string_plain : (w : Bytes) → All PlainChar w → c_string w ≡ w
unfolding c_string
c_string_plain [] h = refl
c_string_plain (c ∷ w) (p, h) = ground (arith, c_string_plain w h)

-- The end of the line is taken off, whatever is in front of it.
strip_eol_lem :
    (buf : Bytes) (n k : ℕ)
    → 2 ≤ n
    → ¬ (IsEol (get_or buf n 0))
    → ((j : ℕ) → j < k → IsEol (get_or buf (suc n + j) 0))
    → strip_eol buf (suc n + k) ≡ suc n
unfolding strip_eol
strip_eol_lem buf n zero le last h =
    let e : suc n + 0 ≡ suc n = omega arith in
    let stop : (get_or buf n 0 == b'\r' || get_or buf n 0 == b'\n') ≡ false = ground arith in
    subst (λ m. strip_eol buf m ≡ suc n) (sym e) (ground arith)
strip_eol_lem buf n (suc k) le last h =
    let e : suc n + suc k ≡ suc (suc n + k) = omega arith in
    let more = h k (omega arith) in
    let ih = strip_eol_lem buf n k le last (λ j lt. h j (omega arith)) in
    subst (λ m. strip_eol buf m ≡ suc n) (sym e) (ground arith)

getword_quoted : (w rest : Bytes) → All PlainChar w → getword (b'"' ∷ w ++ b'"' ∷ rest) ≡ some w
unfolding getword skipws
getword_quoted w rest h = ap some (word_end_quoted w rest h)

-- `boundary="..."` with the characters `w`, on the part of a container.
boundary_set_quoted :
    (w : Bytes) (p : MimePart) (parents : List MimePart)
    → All PlainChar w
    → mime_boundary_set (codes "boundary=" ++ b'"' ∷ w ++ b'"' ∷ []) (p ∷ parents)
      ≡ some (record p { boundary = some w; boundary_len = length w } ∷ parents)
unfolding mime_boundary_set with_top getword skipws
boundary_set_quoted w p parents h = rw (word_end_quoted w [] h, c_string_plain w h) refl

All-get_or :
    (P : ℕ → Type 0) (w t : Bytes) (i : ℕ) → All P w → i < length w → P (get_or (w ++ t) i 0)
All-get_or P [] t i h lt = absurd (omega arith)
All-get_or P (c ∷ w) t zero (p, h) lt = p
All-get_or P (c ∷ w) t (suc i) (p, h) lt = All-get_or P w t i h (omega arith)

IsEol-at : (eol : Bytes) (j : ℕ) → All IsEol eol → j < length eol → IsEol (get_or eol j 0)
IsEol-at [] j h lt = absurd (omega arith)
IsEol-at (c ∷ eol) zero (p, h) lt = p
IsEol-at (c ∷ eol) (suc j) (p, h) lt = IsEol-at eol j h (omega arith)

line_length :
    (u eol : Bytes) (n : ℕ)
    → length u ≡ suc n
    → 2 ≤ n
    → All IsEol eol
    → ¬ (IsEol (get_or (u ++ eol) n 0))
    → strip_eol (u ++ eol) (length (u ++ eol)) ≡ suc n
line_length u eol n e le a last =
    let total : length (u ++ eol) ≡ suc n + length eol = omega (arith, length-append u eol) in
    subst (λ m. strip_eol (u ++ eol) m ≡ suc n) (sym total)
      (strip_eol_lem (u ++ eol) n (length eol) le last λ j lt.
        subst (λ m. IsEol (get_or (u ++ eol) (m + j) 0)) e
          (subst IsEol (sym (get_or-append u eol j)) (IsEol-at eol j a lt)))

abbrev pub with_boundary : Bytes → MimePart → MimePart
with_boundary w p = record p { boundary = some w; boundary_len = length w }

matches_own :
    (w t : Bytes) (blen : ℕ) (p : MimePart)
    → is_mime_container p ≡ true
    → (blen ≡ length w + 2) ⊎ (blen ≡ length w + 4)
    → matches (b'-' ∷ b'-' ∷ w ++ t) blen (with_boundary w p) ≡ true
unfolding matches is_mime_container
matches_own w t blen p c e =
    let all : take (length w) w ≡ w = take_all (length w) w (omega arith) in
    rw (all, take-append_length w t, same_bytes_refl w, c) (ground arith)

-- What a line does whose boundary is that of the first part.
got_own :
    (buf : Bytes) (blen : ℕ) (p : MimePart) (parents : List MimePart)
    → (ltb 2 (length buf) && get_or buf 0 0 == b'-' && get_or buf 1 0 == b'-') ≡ true
    → strip_eol buf (length buf) ≡ blen
    → matches buf blen p ≡ true
    → is_mime_container p ≡ true
    → got_mime_boundary buf (p ∷ parents) ≡ (
      true,
      if is_final_boundary buf blen p.boundary_len
          then p ∷ parents
          else mime_init (p ∷ parents) ∷ p ∷ parents,
    )
unfolding got_mime_boundary mime_push
got_own buf blen p parents k l m c =
    let b : BoundaryProps = record {
      depth = p.depth;
      is_final = is_final_boundary buf blen p.boundary_len;
    } in
    let found : find_boundary buf blen (p ∷ parents) ≡ some b = unfold find_boundary in rw m refl in
    let props : get_boundary_props buf (p ∷ parents) ≡ some b =
      props_line buf (p ∷ parents) k ∙ ap (λ n. find_boundary buf n (p ∷ parents)) l ∙ found in
    let popped : pop_to p.depth (p ∷ parents) ≡ p ∷ parents = unfold pop_to in ground arith in
    rw (props, got_mime_boundary) (rw (popped, push_next_lem p parents c) refl)

not-IsEol : (c : ℕ) → PlainChar c → ¬ (IsEol c)
not-IsEol c p (inl e) = p.2 e
not-IsEol c p (inr e) = p.3 e

dash_not-IsEol : ¬ (IsEol b'-')
dash_not-IsEol (inl e) = omega arith
dash_not-IsEol (inr e) = omega arith

first_eol : (eol : Bytes) → All IsEol eol → (get_or eol 0 0 == b'-') ≡ false
first_eol [] h = refl
first_eol (c ∷ eol) (p, h) = ground arith

opens :
    (w eol : Bytes) (p : MimePart) (parents : List MimePart)
    → All PlainChar w
    → 1 ≤ length w
    → All IsEol eol
    → is_mime_container p ≡ true
    → got_mime_boundary (b'-' ∷ b'-' ∷ w ++ eol) (with_boundary w p ∷ parents)
      ≡ (true, mime_init (with_boundary w p ∷ parents) ∷ with_boundary w p ∷ parents)
unfolding is_mime_container
opens [] eol p parents h le a c = absurd (omega arith)
opens (c0 ∷ w') eol p parents h le a c =
    let w : Bytes = c0 ∷ w' in
    let buf : Bytes = b'-' ∷ b'-' ∷ w ++ eol in
    let n = suc (length w) in
    let l = line_length (b'-' ∷ b'-' ∷ w) eol n refl (omega arith) a (
      not-IsEol (get_or (w ++ eol) (length w') 0)
        (All-get_or PlainChar w eol (length w') h (omega arith))) in
    let at : length (b'-' ∷ b'-' ∷ w) + 0 ≡ length w + 2 = omega arith in
    let not_final : is_final_boundary buf (suc n) (length w) ≡ false =
      unfold is_final_boundary in
      let e : get_or buf (length w + 2) 0 ≡ get_or eol 0 0 =
        subst (λ m. get_or buf m 0 ≡ get_or eol 0 0) at (get_or-append (b'-' ∷ b'-' ∷ w) eol 0) in
      let f : (get_or buf (length w + 2) 0 == b'-') ≡ false = ground (arith, first_eol eol a) in
      ground arith in
    got_own buf (suc n) (with_boundary w p) parents (ground (arith, length-append w eol)) l
      (matches_own w eol (suc n) p c (inl (omega arith))) c
    ∙ ap
        (λ t. (
          true,
          if t
              then with_boundary w p ∷ parents
              else mime_init (with_boundary w p ∷ parents) ∷ with_boundary w p ∷ parents,
        ))
        not_final

closes :
    (w eol : Bytes) (p : MimePart) (parents : List MimePart)
    → All PlainChar w
    → 1 ≤ length w
    → All IsEol eol
    → is_mime_container p ≡ true
    → got_mime_boundary (b'-' ∷ b'-' ∷ w ++ b'-' ∷ b'-' ∷ eol) (with_boundary w p ∷ parents)
      ≡ (true, with_boundary w p ∷ parents)
unfolding is_mime_container
closes w eol p parents h le a c =
    let buf : Bytes = b'-' ∷ b'-' ∷ w ++ b'-' ∷ b'-' ∷ eol in
    let n = length w + 3 in
    let u : Bytes = b'-' ∷ b'-' ∷ w ++ b'-' ∷ b'-' ∷ [] in
    let assoc : u ++ eol ≡ buf =
      ap (λ x. b'-' ∷ b'-' ∷ x) (append_assoc w (b'-' ∷ b'-' ∷ []) eol) in
    let dash = λ (j m : ℕ) (e : length (b'-' ∷ b'-' ∷ w) + j ≡ m).
      subst (λ k. get_or buf k 0 ≡ get_or (b'-' ∷ b'-' ∷ eol) j 0) e
        (get_or-append (b'-' ∷ b'-' ∷ w) (b'-' ∷ b'-' ∷ eol) j) in
    let d0 : get_or buf (length w + 2) 0 ≡ b'-' = dash 0 (length w + 2) (omega arith) in
    let d1 : get_or buf (length w + 3) 0 ≡ b'-' = dash 1 (length w + 3) (omega arith) in
    let len : length u ≡ suc n = omega (arith, length-append w (b'-' ∷ b'-' ∷ [])) in
    let last : ¬ (IsEol (get_or (u ++ eol) n 0)) =
      subst (λ x. ¬ (IsEol (get_or x n 0))) (sym assoc)
        (subst (λ x. ¬ (IsEol x)) (sym d1) dash_not-IsEol) in
    let l : strip_eol buf (length buf) ≡ suc n =
      subst (λ x. strip_eol x (length x) ≡ suc n) assoc
        (line_length u eol n len (omega arith) a last) in
    let final : is_final_boundary buf (suc n) (length w) ≡ true =
      unfold is_final_boundary in ground arith in
    got_own buf (suc n) (with_boundary w p) parents
      (ground (arith, length-append w (b'-' ∷ b'-' ∷ eol))) l
      (matches_own w (b'-' ∷ b'-' ∷ eol) (suc n) p c (inr (omega arith))) c
    ∙ ap
        (λ t. (
          true,
          if t
              then with_boundary w p ∷ parents
              else mime_init (with_boundary w p ∷ parents) ∷ with_boundary w p ∷ parents,
        ))
        final

-- A non-empty quoted boundary without NULs, quotes and ends of lines, set on a container, is recognised: a
-- line of two dashes and the boundary opens a new part in that container, and with two more dashes
-- the line leaves the container on top. Ends of lines behind either do not matter.
pub mime_boundary_set-got_mime_boundary :
    (w eol : Bytes) (p : MimePart) (parents : List MimePart)
    → All PlainChar w
    → 1 ≤ length w
    → All IsEol eol
    → is_mime_container p ≡ true
    → (mime_boundary_set (codes "boundary=" ++ b'"' ∷ w ++ b'"' ∷ []) (p ∷ parents)
        ≡ some (with_boundary w p ∷ parents))
      × (got_mime_boundary (b'-' ∷ b'-' ∷ w ++ eol) (with_boundary w p ∷ parents)
          ≡ (true, mime_init (with_boundary w p ∷ parents) ∷ with_boundary w p ∷ parents))
      × (got_mime_boundary (b'-' ∷ b'-' ∷ w ++ b'-' ∷ b'-' ∷ eol) (with_boundary w p ∷ parents)
          ≡ (true, with_boundary w p ∷ parents))
unfolding is_mime_container
mime_boundary_set-got_mime_boundary w eol p parents h le a c = (
  boundary_set_quoted w p parents h,
  opens w eol p parents h le a c,
  closes w eol p parents h le a c,
)
