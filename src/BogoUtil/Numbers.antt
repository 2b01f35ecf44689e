-- ===== src/BogoUtil/Numbers.antt =====
-- The numbers that bogofilter/src/bogoutil.c prints and reads.
use bogofilter.Prelude.{
  All, All-append, Bool-cases, Bytes, [], append_assoc, arith, false, inl, inr, ltb, refl, suc,
  true, zero, ℕ, ◌%◌, ◌*◌, ◌++◌, ◌+◌, ◌-◌, ◌/◌, ◌<◌, ◌^◌, ◌∙◌, ◌∷◌, ◌≡◌, ◌≤◌,
}
use bogofilter.BogoUtil.{decimal_from, decimal, digits_value, is_digit, atoi}

abbrev pub IsDigit : ℕ → Type 0
IsDigit c = is_digit c ≡ true

-- The text does not go on with a digit.
pub data NoDigit : Bytes → Type 0 where
  nil : NoDigit []
  cons : (c : ℕ) (t : Bytes) → is_digit c ≡ false → NoDigit (c ∷ t)

digits_value-append :
    (a : ℕ) (xs ys : Bytes)
    → All IsDigit xs
    → digits_value a (xs ++ ys) ≡ digits_value (digits_value a xs) ys
unfolding digits_value
digits_value-append a [] ys h = refl
digits_value-append a (x ∷ xs) ys h = rw h.0 (digits_value-append (a * 10 + (x - b'0')) xs ys h.1)

digits_value-NoDigit : (a : ℕ) (t : Bytes) → NoDigit t → digits_value a t ≡ a
unfolding digits_value
digits_value-NoDigit a t nil = refl
digits_value-NoDigit a t (cons c u h) = rw h refl

last-IsDigit : (n : ℕ) → IsDigit (b'0' + n % 10)
last-IsDigit n = ground arith

decimal_from-IsDigit : (k n : ℕ) → All IsDigit (decimal_from k n)
unfolding decimal_from
decimal_from-IsDigit zero n = (last-IsDigit n, tt)
decimal_from-IsDigit (suc k) n = elim (Bool-cases (ltb n 10)) [
  | inl e ↦ rw e (ground arith, tt)
  | inr e ↦ rw e (
      All-append IsDigit (decimal_from k (n / 10)) _ (decimal_from-IsDigit k (n / 10))
        (last-IsDigit n, tt))
]

digit_step : (a c : ℕ) → IsDigit c → digits_value a (c ∷ []) ≡ a * 10 + (c - b'0')
unfolding digits_value
digit_step a c h = rw h refl

digits_value-decimal_from : (k n : ℕ) → n ≤ k → digits_value 0 (decimal_from k n) ≡ n
unfolding decimal_from
digits_value-decimal_from zero n h = digit_step 0 (b'0' + n % 10) (last-IsDigit n) ∙ omega arith
digits_value-decimal_from (suc k) n h = elim (Bool-cases (ltb n 10)) [
  | inl e ↦ rw e (digit_step 0 (b'0' + n) (ground arith) ∙ omega arith)
  | inr e ↦
      let ih = digits_value-decimal_from k (n / 10) (ground arith) in
      rw e (
        digits_value-append 0 (decimal_from k (n / 10)) ((b'0' + n % 10) ∷ [])
          (decimal_from-IsDigit k (n / 10))
        ∙ digit_step _ (b'0' + n % 10) (last-IsDigit n)
        ∙ omega (arith, ih))
]

pub decimal-IsDigit : (n : ℕ) → All IsDigit (decimal n)
unfolding decimal
decimal-IsDigit n = decimal_from-IsDigit n n

-- A printed number has a first digit.
pub data Starts : Bytes → Type 0 where
  starts : (c : ℕ) (t : Bytes) → is_digit c ≡ true → Starts (c ∷ t)

decimal_from-Starts : (k n : ℕ) (rest : Bytes) → Starts (decimal_from k n ++ rest)
unfolding decimal_from
decimal_from-Starts zero n rest = starts _ rest (last-IsDigit n)
decimal_from-Starts (suc k) n rest = elim (Bool-cases (ltb n 10)) [
  | inl e ↦ rw e (starts _ rest (ground arith))
  | inr e ↦ rw e (
      rw (append_assoc (decimal_from k (n / 10)) ((b'0' + n % 10) ∷ []) rest)
        (decimal_from-Starts k (n / 10) _))
]

pub decimal-Starts : (n : ℕ) (rest : Bytes) → Starts (decimal n ++ rest)
unfolding decimal
decimal-Starts n rest = decimal_from-Starts n n rest

-- Neither a space nor a sign stands in front of a digit.
atoi-Starts :
    (t : Bytes) → Starts t → digits_value 0 t < 2 ^ 63 → atoi t ≡ digits_value 0 t % 2 ^ 32
unfolding atoi
atoi-Starts t (starts c u h) l = ground arith

-- A number that an int can hold is read back from its digits, whatever follows that is no digit.
pub atoi-decimal : (n : ℕ) (rest : Bytes) → n < 2 ^ 31 → NoDigit rest → atoi (decimal n ++ rest) ≡ n
atoi-decimal n rest h q =
    let v : digits_value 0 (decimal n ++ rest) ≡ n =
      digits_value-append 0 (decimal n) rest (decimal-IsDigit n)
      ∙ digits_value-NoDigit _ rest q
      ∙ (unfold decimal in digits_value-decimal_from n n (omega arith)) in
    atoi-Starts (decimal n ++ rest) (decimal-Starts n rest) (omega (arith, v)) ∙ omega (arith, v)
