-- ===== src/Word.antt =====
-- bogofilter/src/word.c: strings of arbitrary bytes. The length of the list is the field `leng`, so the NUL
-- that the source keeps behind the text is no part of it.
pub mod Order
use bogofilter.Prelude.{
  Bytes, Ordering, [], compare, drop, if◌then◌else◌, length, ltb, min, replicate, suc, take, zero,
  ℕ, ◌++◌, ◌+◌, ◌-◌, ◌==◌, ◌∷◌,
}

abbrev pub Word : Type 0
Word = Bytes

-- The sign of `memcmp` on the first bytes of two texts.
abbrev pub memcmp : Bytes → Bytes → ℕ → Ordering
memcmp a b zero = Ordering.eq
memcmp [] b (suc n) = Ordering.eq
memcmp (x ∷ a) [] (suc n) = Ordering.eq
memcmp (x ∷ a) (y ∷ b) (suc n) = elim (compare x y) [
  | Ordering.lt ↦ Ordering.lt
  | Ordering.eq ↦ memcmp a b n
  | Ordering.gt ↦ Ordering.gt
]

-- The sign of the result: `gt` is 1 and `lt` is -1.
unfoldable pub word_cmp : Word → Word → Ordering
word_cmp w1 w2 = elim (memcmp w1 w2 (min (length w1) (length w2))) [
  | Ordering.lt ↦ Ordering.lt
  | Ordering.gt ↦ Ordering.gt
  | Ordering.eq ↦
      if ltb (length w2) (length w1)
      then Ordering.gt
      else if ltb (length w1) (length w2)
      then Ordering.lt
      else Ordering.eq
]

-- `memcpy` of all of `src` to `dst + at`.
abbrev pub memcpy : Bytes → ℕ → Bytes → Bytes
memcpy dst at src = take at dst ++ (src ++ drop (at + length src) dst)

-- `word_new(NULL, len)` leaves the bytes unset; what they are is the argument `junk`.
unfoldable pub word_concat : (ℕ → Bytes) → Word → Word → Word
word_concat junk w1 w2 =
    let ans = junk (length w1 + length w2) in memcpy (memcpy ans 0 w1) (length w1) w2

-- What `word_puts` writes to the stream.
unfoldable pub word_puts : Word → ℕ → Bytes
word_puts word width =
    let l = if width == 0 then length word else min width (length word) in
    take l word ++ (if ltb l width then replicate (width - l) b' ' else [])
