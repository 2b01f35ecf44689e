-- ===== src/Word/Order.antt =====
-- The order that `word_cmp` of bogofilter/src/word.c defines.
use bogofilter.Prelude.{
  Ordering, [], append-nil, arith, compare, drop, drop_all, if◌then◌else◌, length, length-append,
  length-drop, length-replicate, length-take, ltb, min, refl, replicate, subst, suc, take,
  take-append_length, take_of_length, ℕ, ◌++◌, ◌+◌, ◌-◌, ◌==◌, ◌↔◌, ◌∙◌, ◌∷◌, ◌≡◌, ◌≢◌, ◌≤◌,
}
use bogofilter.Word.{Word, word_cmp, word_concat, word_puts}

-- The dictionary order, by recursion on both words.
abbrev pub lex : Word → Word → Ordering
lex [] [] = Ordering.eq
lex [] (y ∷ b) = Ordering.lt
lex (x ∷ a) [] = Ordering.gt
lex (x ∷ a) (y ∷ b) = elim (compare x y) [
  | Ordering.lt ↦ Ordering.lt
  | Ordering.eq ↦ lex a b
  | Ordering.gt ↦ Ordering.gt
]

min-suc-suc : (n m : ℕ) → min (suc n) (suc m) ≡ suc (min n m)
min-suc-suc n m = omega arith

min-zero_left : (n : ℕ) → min 0 n ≡ 0
min-zero_left n = omega arith

min-zero_right : (n : ℕ) → min n 0 ≡ 0
min-zero_right n = omega arith

pub word_cmp-eq-lex : (a b : Word) → word_cmp a b ≡ lex a b
unfolding word_cmp
word_cmp-eq-lex [] [] = refl
word_cmp-eq-lex [] (y ∷ b) = rw (min-zero_left (suc (length b)), word_cmp) (ground arith)
word_cmp-eq-lex (x ∷ a) [] = rw (min-zero_right (suc (length a)), word_cmp) (ground arith)
word_cmp-eq-lex (x ∷ a) (y ∷ b) =
    rw (min-suc-suc (length a) (length b), word_cmp) (ground (arith, word_cmp-eq-lex a b))

-- The sign that the other order of the arguments gives.
abbrev pub flip : Ordering → Ordering
flip Ordering.lt = Ordering.gt
flip Ordering.eq = Ordering.eq
flip Ordering.gt = Ordering.lt

lex_refl : (a : Word) → lex a a ≡ Ordering.eq
lex_refl [] = refl
lex_refl (x ∷ a) = ground (arith, lex_refl a)

lex_sound : (a b : Word) → lex a b ≡ Ordering.eq → a ≡ b
lex_sound [] [] h = refl
lex_sound [] (y ∷ b) h = cc
lex_sound (x ∷ a) [] h = cc
lex_sound (x ∷ a) (y ∷ b) h = ground (arith, lex_sound a b)

lex-flip : (a b : Word) → lex b a ≡ flip (lex a b)
lex-flip [] [] = refl
lex-flip [] (y ∷ b) = refl
lex-flip (x ∷ a) [] = refl
lex-flip (x ∷ a) (y ∷ b) = ground (arith, lex-flip a b)

lex_trans : (a b c : Word) → lex a b ≢ Ordering.gt → lex b c ≢ Ordering.gt → lex a c ≢ Ordering.gt
lex_trans [] b [] h k = λ e. cc
lex_trans [] b (z ∷ c) h k = λ e. cc
lex_trans (x ∷ a) [] c h k = absurd (h refl)
lex_trans (x ∷ a) (y ∷ b) [] h k = absurd (k refl)
lex_trans (x ∷ a) (y ∷ b) (z ∷ c) h k = ground (arith, lex_trans a b c)

-- `word_cmp` gives 0 exactly for equal words.
pub word_cmp-eq_iff : (a b : Word) → (word_cmp a b ≡ Ordering.eq) ↔ (a ≡ b)
word_cmp-eq_iff a b = (
  λ h. lex_sound a b (rw word_cmp-eq-lex at h),
  λ e. word_cmp-eq-lex a b ∙ subst (λ c. lex a c ≡ Ordering.eq) e (lex_refl a),
)

pub word_cmp-flip : (a b : Word) → word_cmp b a ≡ flip (word_cmp a b)
word_cmp-flip a b = rw (word_cmp-eq-lex b a, word_cmp-eq-lex a b) (lex-flip a b)

pub word_cmp_trans :
    (a b c : Word)
    → word_cmp a b ≢ Ordering.gt
    → word_cmp b c ≢ Ordering.gt
    → word_cmp a c ≢ Ordering.gt
word_cmp_trans a b c h k =
    rw (word_cmp-eq-lex a c)
      (lex_trans a b c (rw (word_cmp-eq-lex a b) at h) (rw (word_cmp-eq-lex b c) at k))

-- `word_cmp` is the dictionary order on words: it agrees with the recursive definition of that
-- order, gives 0 exactly for equal words, and changes its sign with the order of its arguments.
pub word_cmp_order :
    (a b : Word)
    → (word_cmp a b ≡ lex a b)
      × ((word_cmp a b ≡ Ordering.eq) ↔ (a ≡ b))
      × (word_cmp b a ≡ flip (word_cmp a b))
word_cmp_order a b = (word_cmp-eq-lex a b, word_cmp-eq_iff a b, word_cmp-flip a b)

-- `word_concat` puts the second word behind the first, whatever the new block held before.
pub word_concat-append :
    (junk : ℕ → Word) (a b : Word) → ((n : ℕ) → length (junk n) ≡ n) → word_concat junk a b ≡ a ++ b
unfolding word_concat
word_concat-append junk a b h =
    let j = junk (length a + length b) in
    let rest = a ++ drop (0 + length a) j in
    let short : length rest ≤ length a + length b = omega (
      arith,
      length-append a (drop (0 + length a) j),
      length-drop (0 + length a) j,
      h (length a + length b),
    ) in
    rw (
      take-append_length a (drop (0 + length a) j),
      drop_all (length a + length b) rest short,
      append-nil,
    )

not-ltb-zero : (n : ℕ) (a b : Word) → (if ltb n 0 then a else b) ≡ b
not-ltb-zero n a b = ground arith

-- `word_puts` prints exactly `width` bytes when a width is given, and the whole word otherwise.
pub length-word_puts :
    (w : Word) (width : ℕ) → (word_puts w 0 ≡ w) × (width ≢ 0 → length (word_puts w width) ≡ width)
unfolding word_puts
length-word_puts w width = (
  rw (take_of_length w) (rw (not-ltb-zero (length w)) (append-nil w)),
  λ h.
      let l = if width == 0 then length w else min width (length w) in
      rw (length-append (take l w) (if ltb l width then replicate (width - l) b' ' else []))
        (ground (arith, length-take l w, length-replicate {A = ℕ} (width - l) b' ')),
)
