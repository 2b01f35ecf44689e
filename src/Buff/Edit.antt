-- ===== src/Buff/Edit.antt =====
-- What `buff_add` and `buff_shift` of bogofilter/src/buff.c make of a buffer's contents.
use bogofilter.Prelude.{
  Bool-cases, Bytes, List, [], ap, arith, drop, inl, inr, leb, leb-false, leb→le, length,
  length-append, length-drop, length-take, ltb, ltb-false, ltb→lt, none, refl, some, suc, sym, take,
  zero, ℕ, ◌%◌, ◌++◌, ◌+◌, ◌-◌, ◌<◌, ◌^◌, ◌∙◌, ◌∷◌, ◌≡◌, ◌≤◌, ◌⊎◌,
}
use bogofilter.Word.{memcpy}
use bogofilter.Buff.{Buff, padding, buff_add, buff_shift, room_for}
use bogofilter.Buff.Contents.{contents, IsSound}
use bogofilter.Buff.Fgets.{take-memcpy, take-memcpy_all, length-memcpy, take-take, take-append_le}

-- The block that the buffer has after it was given room, if the allocator gives as much as is asked for.
HasRoom : Buff → ℕ → Buff → Type 0
HasRoom b n b' =
    (n ≤ b'.size)
    × (b.size ≤ b'.size)
    × (b'.size + padding ≤ length b'.text)
    × (take b.leng b'.text ≡ take b.leng b.text)

pub in_range : (n : ℕ) → n < 2 ^ 32 → n % 2 ^ 32 ≡ n
in_range n h = omega arith

more_asked :
    (size n : ℕ) → n ≤ size ⊎ n + padding < 2 ^ 32 → size < n → (n + padding) % 2 ^ 32 ≡ n + padding
more_asked size n (inl h) more = absurd (omega arith)
more_asked size n (inr h) more = in_range (n + padding) h

room_for-HasRoom :
    (junk : ℕ → Bytes) (b : Buff) (n : ℕ)
    → ((k : ℕ) → length (junk k) ≡ k)
    → IsSound b
    → n ≤ b.size ⊎ n + padding < 2 ^ 32
    → HasRoom b n (room_for junk b n)
unfolding room_for HasRoom
room_for-HasRoom junk b n full (h, k) room = elim (Bool-cases (ltb b.size n)) [
  | inl e ↦
      let more = ltb→lt b.size n e in
      let block = b.text ++ junk (n + padding) in
      let asked = more_asked b.size n room more in
      rw (e, asked)
        (
          omega arith,
          omega arith,
          omega (
            arith,
            length-take (n + padding) block,
            length-append b.text (junk (n + padding)),
            full (n + padding),
          ),
          take-take b.leng (n + padding) block (omega arith)
              ∙ take-append_le b.leng b.text (junk (n + padding)) (omega arith),
        )
  | inr e ↦ let enough = ltb-false b.size n e in rw e (omega arith, omega arith, omega arith, refl)
]

-- If the sum of the lengths does not wrap around, and neither does the size of a new block.
pub buff_add_lem :
    (junk : ℕ → Bytes) (b : Buff) (w : Bytes)
    → ((k : ℕ) → length (junk k) ≡ k)
    → IsSound b
    → b.leng + length w < 2 ^ 32
    → b.leng + length w ≤ b.size ⊎ b.leng + length w + padding < 2 ^ 32
    → ((buff_add junk b w).0 ≡ length w)
      × (contents (buff_add junk b w).1 ≡ contents b ++ w)
      × IsSound (buff_add junk b w).1
unfolding buff_add HasRoom
buff_add_lem junk b w full sound small room =
    let (fits, grows, block, kept) = room_for-HasRoom junk b (b.leng + length w) full sound room in
    let b' = room_for junk b (b.leng + length w) in
    let copied = length-memcpy b'.text b.leng w (omega arith) in
    rw (in_range (b.leng + length w) small) (
      refl,
      take-memcpy (memcpy b'.text b.leng w) (b.leng + length w) (0 ∷ []) (b.leng + length w)
            (omega arith) (omega arith)
          ∙ take-memcpy_all b'.text b.leng w (b.leng + length w) (omega arith) refl
          ∙ ap (λ t. t ++ w) kept,
      (
        omega arith,
        omega (
          arith,
          length-memcpy (memcpy b'.text b.leng w) (b.leng + length w) (0 ∷ []) (omega arith),
        ),
      ),
    )

-- An addition appends the word to the contents of a sound buffer, whose block grows if it has to, and
-- the result is the word's length, if the new contents and the byte behind them are shorter than
-- 2 ^ 31 bytes, so that no `uint` wraps around and the length is an `int`.
pub buff_add-contents :
    (junk : ℕ → Bytes) (b : Buff) (w : Bytes)
    → ((k : ℕ) → length (junk k) ≡ k)
    → IsSound b
    → b.leng + length w + padding < 2 ^ 31
    → ((buff_add junk b w).0 ≡ length w)
      × (contents (buff_add junk b w).1 ≡ contents b ++ w)
      × IsSound (buff_add junk b w).1
buff_add-contents junk b w full sound small =
    buff_add_lem junk b w full sound (omega arith) (inr (omega arith))

take-append_split :
    {A : Type 0} (xs ys : List A) (k n : ℕ)
    → n ≡ length xs + k
    → take n (xs ++ ys) ≡ xs ++ take k ys
take-append_split [] ys k n e = ap (λ m. take m ys) (omega arith)
take-append_split (x ∷ xs) ys k zero e = absurd (omega arith)
take-append_split (x ∷ xs) ys k (suc n) e = ap (◌∷◌ x) (take-append_split xs ys k n (omega arith))

drop-append_le :
    {A : Type 0} (n : ℕ) (xs ys : List A) → n ≤ length xs → drop n (xs ++ ys) ≡ drop n xs ++ ys
drop-append_le zero xs ys h = refl
drop-append_le (suc n) [] ys h = absurd (omega arith)
drop-append_le (suc n) (x ∷ xs) ys h = drop-append_le n xs ys (omega arith)

take-nil : {A : Type 0} (k : ℕ) → take {A = A} k [] ≡ []
take-nil zero = refl
take-nil (suc k) = refl

drop-take :
    {A : Type 0} (n m k : ℕ) (xs : List A) → m ≡ n + k → drop n (take m xs) ≡ take k (drop n xs)
drop-take zero m k xs e = ap (λ j. take j xs) (omega arith)
drop-take (suc n) zero k xs e = absurd (omega arith)
drop-take (suc n) (suc m) k [] e = sym (take-nil k)
drop-take (suc n) (suc m) k (x ∷ xs) e = drop-take n m k xs (omega arith)

-- The bytes that the shift copies: those behind the segment first, whatever stands behind the block.
moved : Bytes → Buff → ℕ → ℕ → Bytes
moved beyond b start len = take (b.leng - len) (drop (start + len) (b.text ++ beyond))

take-moved :
    (beyond : Bytes) (b : Buff) (start len : ℕ)
    → IsSound b
    → start + len ≤ b.leng
    → take (b.leng - len - start) (moved beyond b start len) ≡ drop (start + len) (contents b)
unfolding moved
take-moved beyond b start len (h, k) fits =
    take-take (b.leng - len - start) (b.leng - len) (drop (start + len) (b.text ++ beyond))
      (omega arith)
    ∙ ap (take (b.leng - len - start)) (drop-append_le (start + len) b.text beyond (omega arith))
    ∙ take-append_le (b.leng - len - start) (drop (start + len) b.text) beyond
        (omega (arith, length-drop (start + len) b.text))
    ∙ sym (drop-take (start + len) b.leng (b.leng - len - start) b.text (omega arith))

length-moved :
    (beyond : Bytes) (b : Buff) (start len : ℕ) → length (moved beyond b start len) ≤ b.leng - len
unfolding moved
length-moved beyond b start len =
    omega (arith, length-take (b.leng - len) (drop (start + len) (b.text ++ beyond)))

take-shifted :
    (beyond : Bytes) (b : Buff) (start len : ℕ)
    → IsSound b
    → start + len ≤ b.leng
    → take (b.leng - len) (memcpy (b.text ++ beyond) start (moved beyond b start len))
      ≡ take start (contents b) ++ drop (start + len) (contents b)
take-shifted beyond b start len sound fits =
    let memory = b.text ++ beyond in
    let src = moved beyond b start len in
    let rest = drop (start + length src) memory in
    let long_enough = ap length (take-moved beyond b start len sound fits) in
    take-append_split (take start memory) (src ++ rest) (b.leng - len - start) (b.leng - len)
      (omega (arith, length-take start memory, length-append b.text beyond, sound.1, sound.0))
    ∙ ap (◌++◌ (take start memory)) (
        take-append_le (b.leng - len - start) src rest (
          omega (
            arith,
            long_enough,
            length-take (b.leng - len - start) src,
            length-drop (start + len) (contents b),
            length-take b.leng b.text,
            sound.0,
            sound.1,
          ))
        ∙ take-moved beyond b start len sound fits)
    ∙ ap (λ t. t ++ drop (start + len) (contents b))
        (take-append_le start b.text beyond (omega (arith, sound.0, sound.1))
          ∙ sym (take-take start b.leng b.text (omega arith)))

-- The memory keeps its length, when the rest is moved and when the NUL is set.
length-copied :
    (beyond : Bytes) (b : Buff) (start len : ℕ)
    → IsSound b
    → start + len ≤ b.leng
    → length (memcpy (b.text ++ beyond) start (moved beyond b start len))
      ≡ length b.text + length beyond
unfolding moved
length-copied beyond b start len sound fits =
    let memory = b.text ++ beyond in
    let all = length-append b.text beyond in
    length-memcpy memory start (take (b.leng - len) (drop (start + len) memory)) (
      omega (
        arith,
        all,
        sound.0,
        sound.1,
        length-take (b.leng - len) (drop (start + len) memory),
        length-drop (start + len) memory,
      ))
    ∙ all

length-shifted :
    (beyond : Bytes) (b : Buff) (start len : ℕ)
    → IsSound b
    → start + len ≤ b.leng
    → length (
        memcpy (memcpy (b.text ++ beyond) start (moved beyond b start len)) (b.leng - len) (0 ∷ []))
      ≡ length b.text + length beyond
length-shifted beyond b start len sound fits =
    let first = length-copied beyond b start len sound fits in
    length-memcpy (memcpy (b.text ++ beyond) start (moved beyond b start len)) (b.leng - len)
      (0 ∷ []) (omega (arith, first, sound.0, sound.1))
    ∙ first

-- A segment that is not within the contents is refused. Any other is deleted from the contents of a
-- sound buffer, whatever stands in memory behind its block, and as many bytes stand there
-- afterwards.
pub buff_shift-contents :
    (beyond : Bytes) (b : Buff) (start len : ℕ)
    → IsSound b
    → ((b.leng < start + len) × (buff_shift beyond b start len ≡ none))
      ⊎ ((b' : Buff) × (beyond' : Bytes) × (buff_shift beyond b start len ≡ some (b', beyond'))
          × (contents b' ≡ take start (contents b) ++ drop (start + len) (contents b))
          × IsSound b'
          × (length beyond' ≡ length beyond))
unfolding buff_shift moved
buff_shift-contents beyond b start len sound = elim (Bool-cases (leb (start + len) b.leng)) [
  | inl e ↦
      let fits = leb→le (start + len) b.leng e in
      let src = take (b.leng - len) (drop (start + len) (b.text ++ beyond)) in
      let copied = memcpy (b.text ++ beyond) start src in
      let memory' = memcpy copied (b.leng - len) (0 ∷ []) in
      let same = length-shifted beyond b start len sound fits in
      inr (
        record b { text = take (length b.text) memory'; leng = b.leng - len },
        drop (length b.text) memory',
        simp e,
        take-take (b.leng - len) (length b.text) memory' (omega (arith, sound.0, sound.1))
            ∙ take-memcpy copied (b.leng - len) (0 ∷ []) (b.leng - len) (omega arith)
                (omega (arith, length-copied beyond b start len sound fits, sound.0, sound.1))
            ∙ take-shifted beyond b start len sound fits,
        (omega (arith, sound.0), omega (arith, sound.1, length-take (length b.text) memory', same)),
        omega (arith, length-drop (length b.text) memory', same),
      )
  | inr e ↦ inl (leb-false (start + len) b.leng e, simp e)
]
