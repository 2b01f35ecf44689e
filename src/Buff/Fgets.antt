-- ===== src/Buff/Fgets.antt =====
-- Copies into a block of bytes, and the loop of bogofilter/src/fgetsl.c.
use bogofilter.Prelude.{
  Bool-cases, Bytes, List, [], ap, append_assoc, arith, drop, false, inl, inr, length,
  length-append, length-drop, length-take, refl, subst, suc, sym, take, take-append_length, true,
  zero, ℕ, ◌++◌, ◌+◌, ◌<◌, ◌==◌, ◌∙◌, ◌∷◌, ◌≡◌, ◌≢◌, ◌≤◌,
}
use bogofilter.Word.{memcpy}
use bogofilter.Buff.{fgets_loop, hits_end}

pub take-append : {A : Type 0} (xs ys : List A) (n : ℕ) → length xs ≡ n → take n (xs ++ ys) ≡ xs
take-append xs ys n e = subst (λ k. take k (xs ++ ys) ≡ xs) e (take-append_length xs ys)

pub take-take : {A : Type 0} (n m : ℕ) (xs : List A) → n ≤ m → take n (take m xs) ≡ take n xs
take-take zero m xs h = refl
take-take (suc n) zero xs h = absurd (omega arith)
take-take (suc n) (suc m) [] h = refl
take-take (suc n) (suc m) (x ∷ xs) h = ap (◌∷◌ x) (take-take n m xs (omega arith))

pub take-append_le :
    {A : Type 0} (n : ℕ) (xs ys : List A) → n ≤ length xs → take n (xs ++ ys) ≡ take n xs
take-append_le zero xs ys h = refl
take-append_le (suc n) [] ys h = absurd (omega arith)
take-append_le (suc n) (x ∷ xs) ys h = ap (◌∷◌ x) (take-append_le n xs ys (omega arith))

-- A copy within the block keeps what stands in front of it, and does not change the block's length.
pub take-memcpy :
    (dst : Bytes) (at : ℕ) (src : Bytes) (n : ℕ)
    → n ≤ at
    → at ≤ length dst
    → take n (memcpy dst at src) ≡ take n dst
take-memcpy dst at src n h k =
    take-append_le n (take at dst) (src ++ drop (at + length src) dst)
      (omega (arith, length-take at dst))
    ∙ take-take n at dst h

pub take-memcpy_all :
    (dst : Bytes) (at : ℕ) (src : Bytes) (n : ℕ)
    → at ≤ length dst
    → n ≡ at + length src
    → take n (memcpy dst at src) ≡ take at dst ++ src
take-memcpy_all dst at src n k e =
    ap (take n) (sym (append_assoc (take at dst) src (drop (at + length src) dst)))
    ∙ take-append (take at dst ++ src) (drop (at + length src) dst) n
        (omega (arith, length-append (take at dst) src, length-take at dst))

pub length-memcpy :
    (dst : Bytes) (at : ℕ) (src : Bytes)
    → at + length src ≤ length dst
    → length (memcpy dst at src) ≡ length dst
length-memcpy dst at src h = omega (
  arith,
  length-append (take at dst) (src ++ drop (at + length src) dst),
  length-append src (drop (at + length src) dst),
  length-take at dst,
  length-drop (at + length src) dst,
)

pub fgets_loop-parts : (n : ℕ) (s : Bytes) → (fgets_loop n s).0 ++ (fgets_loop n s).1 ≡ s
unfolding fgets_loop
fgets_loop-parts zero s = refl
fgets_loop-parts (suc n) [] = refl
fgets_loop-parts (suc n) (c ∷ s) = ground (arith, fgets_loop-parts n s)

pub length-fgets_loop : (n : ℕ) (s : Bytes) → length (fgets_loop n s).0 ≤ n
unfolding fgets_loop
length-fgets_loop zero s = omega arith
length-fgets_loop (suc n) [] = omega arith
length-fgets_loop (suc n) (c ∷ s) = ground (arith, length-fgets_loop n s)

-- With room a byte is taken.
pub fgets_loop-cons : (n c : ℕ) (s : Bytes) → length (fgets_loop (suc n) (c ∷ s)).1 ≤ length s
unfolding fgets_loop
fgets_loop-cons n c s = elim (Bool-cases (c == b'\n')) [
  | inl e ↦ rw e (omega arith)
  | inr e ↦ rw e (
      omega (
        arith,
        ap length (fgets_loop-parts n s),
        length-append (fgets_loop n s).0 (fgets_loop n s).1,
      ))
]

pub fgets_loop-there : (n : ℕ) (s : Bytes) → 0 < n → s ≢ [] → (fgets_loop n s).0 ≢ []
unfolding fgets_loop
fgets_loop-there zero s h k = absurd (omega arith)
fgets_loop-there (suc n) [] h k = absurd (k refl)
fgets_loop-there (suc n) (c ∷ s) h k = elim (Bool-cases (c == b'\n')) [
  | inl e ↦ rw e (λ q. cc)
  | inr e ↦ rw e (λ q. cc)
]

true≢false : true ≢ false
true≢false = λ e. cc

fgets_loop-newline :
    (n c : ℕ) (s : Bytes) → (c == b'\n') ≡ true → fgets_loop (suc n) (c ∷ s) ≡ (c ∷ [], s)
unfolding fgets_loop
fgets_loop-newline n c s e = rw e refl

fgets_loop-other :
    (n c : ℕ) (s : Bytes)
    → (c == b'\n') ≡ false
    → fgets_loop (suc n) (c ∷ s) ≡ (c ∷ (fgets_loop n s).0, (fgets_loop n s).1)
unfolding fgets_loop
fgets_loop-other n c s e = rw e refl

hits_end-newline : (n c : ℕ) → (c == b'\n') ≡ true → hits_end n (c ∷ []) ≡ false
unfolding hits_end
hits_end-newline n c e = ground arith

hits_end-cons :
    (n c : ℕ) (line : Bytes) → hits_end (suc n) (c ∷ line) ≡ true → hits_end n line ≡ true
unfolding hits_end
hits_end-cons n c [] h = ground arith
hits_end-cons n c (d ∷ line) h = ground arith

pub fgets_loop-ends :
    (n : ℕ) (s : Bytes) → hits_end n (fgets_loop n s).0 ≡ true → (fgets_loop n s).1 ≡ []
unfolding fgets_loop hits_end
fgets_loop-ends zero s h = ground arith
fgets_loop-ends (suc n) [] h = refl
fgets_loop-ends (suc n) (c ∷ s) h = elim (Bool-cases (c == b'\n')) [
  | inl e ↦ absurd (
      true≢false (
        sym (subst (λ l. hits_end (suc n) l.0 ≡ true) (fgets_loop-newline n c s e) h)
        ∙ hits_end-newline (suc n) c e))
  | inr e ↦
      ap (λ l. l.1) (fgets_loop-other n c s e)
      ∙ fgets_loop-ends n s (
          hits_end-cons n c (fgets_loop n s).0
            (subst (λ l. hits_end (suc n) l.0 ≡ true) (fgets_loop-other n c s e) h))
]

pub fgets_loop-zero : (s : Bytes) → fgets_loop 0 s ≡ ([], s)
unfolding fgets_loop
fgets_loop-zero s = refl

pub fgets_loop-nil : (n : ℕ) → fgets_loop n [] ≡ ([], [])
unfolding fgets_loop
fgets_loop-nil zero = refl
fgets_loop-nil (suc n) = refl
