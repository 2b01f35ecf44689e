-- ===== src/Buff/Contents.antt =====
-- The contents of a buffer of bogofilter/src/buff.c, and what the operations make of them.
use bogofilter.Prelude.{
  Bool-cases, Bytes, Option, [], ap, append-nil, arith, false, if◌then◌else◌, inl, inr, length, ltb,
  min, none, refl, some, suc, sym, take, true, zero, ℕ, ◌&&◌, ◌++◌, ◌+◌, ◌-◌, ◌<◌, ◌==◌, ◌∙◌, ◌∷◌,
  ◌≡◌, ◌≤◌,
}
use bogofilter.Word.{memcpy}
use bogofilter.Buff.{Buff, Stream, padding, fgets_loop, hits_end, store_line, xfgetsl, buff_fgetsln}
use bogofilter.Buff.Fgets.{
  take-memcpy, take-memcpy_all, length-memcpy, length-fgets_loop, fgets_loop-ends, fgets_loop-zero,
  fgets_loop-nil,
}

abbrev pub contents : Buff → Bytes
contents b = take b.leng b.text

-- The contents are within the size, and the block has room for a NUL behind it.
abbrev pub IsSound : Buff → Type 0
IsSound b = (b.leng ≤ b.size) × (b.size + padding ≤ length b.text)

-- At the end of a file nothing is left.
abbrev pub EndsRight : Stream → Type 0
EndsRight s = s.at_end ≡ true → s.rest ≡ []

-- The count that a read with so much room returns for the bytes that it stores.
unfoldable pub read_count : ℕ → Bytes → Option ℕ
read_count zero line = some 0
read_count (suc room) [] = none
read_count (suc room) (c ∷ line) = some (suc (length line))

-- What a read does with a sound buffer, for the bytes that the loop stores with so much room.
abbrev pub Reads : Buff → Stream → ℕ → Option (Option ℕ × (Buff × Stream)) → Type 0
Reads b s room r =
    let line = fgets_loop room s.rest in
    (b' : Buff) × (s' : Stream) × (r ≡ some (read_count room line.0, (b', s')))
    × (contents b' ≡ contents b ++ line.0)
    × (s'.rest ≡ line.1)
    × IsSound b'
    × EndsRight s'
    × (b'.size ≡ b.size)
    × (b'.read ≡ b.leng)

take-store_line :
    (buf : Bytes) (at room : ℕ) (line : Bytes)
    → at + length line ≤ length buf
    → take (at + length line) (store_line buf at room line) ≡ take at buf ++ line
unfolding store_line
take-store_line buf at room line h = elim (Bool-cases (ltb (length line) room)) [
  | inl e ↦ rw e (
      take-memcpy (memcpy buf at line) (at + length line) (0 ∷ []) (at + length line) (omega arith)
        (omega (arith, length-memcpy buf at line h))
      ∙ take-memcpy_all buf at line (at + length line) (omega arith) refl)
  | inr e ↦ rw e (take-memcpy_all buf at line (at + length line) (omega arith) refl)
]

length-store_line :
    (buf : Bytes) (at room : ℕ) (line : Bytes)
    → at + length line ≤ at + room
    → at + room ≤ length buf
    → length (store_line buf at room line) ≡ length buf
unfolding store_line
length-store_line buf at room line h k = elim (Bool-cases (ltb (length line) room)) [
  | inl e ↦ rw e (
      length-memcpy (memcpy buf at line) (at + length line) (0 ∷ [])
        (ground (arith, length-memcpy buf at line (omega arith)))
      ∙ length-memcpy buf at line (omega arith))
  | inr e ↦ rw e (length-memcpy buf at line (omega arith))
]

suc_not_zero : (n : ℕ) → (suc n == 0) ≡ false
suc_not_zero n = ground arith

xfgetsl-at_end :
    (buf : Bytes) (at room : ℕ) (s : Stream)
    → s.at_end ≡ true
    → xfgetsl buf at (suc room) s true ≡ some (none, (buf, s))
unfolding xfgetsl
xfgetsl-at_end buf at room s e = simp (suc_not_zero room, e)

read_count-eq :
    (room : ℕ) (line : Bytes)
    → (if length line == 0 && hits_end (suc room) line then none else some (length line))
      ≡ read_count (suc room) line
unfolding read_count hits_end
read_count-eq room [] = ground arith
read_count-eq room (c ∷ line) = simp (suc_not_zero (length line))

xfgetsl-line :
    (buf : Bytes) (at room : ℕ) (s : Stream)
    → s.at_end ≡ false
    → let line = fgets_loop (suc room) s.rest in
      xfgetsl buf at (suc room) s true
      ≡ some (
        read_count (suc room) line.0,
        (
          store_line buf at (suc room) line.0,
          record { rest = line.1; at_end = hits_end (suc room) line.0 },
        ),
      )
unfolding xfgetsl
xfgetsl-line buf at room s e =
    simp (suc_not_zero room, e, read_count-eq room (fgets_loop (suc room) s.rest).0)

room_of : Buff → ℕ → ℕ
room_of b maxlen = min (b.size - b.leng) maxlen

-- The buffer after a line has been stored.
with_line : Buff → ℕ → Bytes → Bytes → Buff
with_line b room line text = record b {
  text = text;
  read = b.leng;
  leng = b.leng + elim (read_count room line) [ none ↦ 0 | some n ↦ n ];
}

buff_fgetsln-xfgetsl :
    (b : Buff) (s : Stream) (maxlen : ℕ) (count : Option ℕ) (text : Bytes) (s' : Stream)
    → xfgetsl b.text b.leng (room_of b maxlen) s true ≡ some (count, (text, s'))
    → buff_fgetsln b s maxlen
      ≡ some (
        count,
        (
          record b {
            text = text;
            read = b.leng;
            leng = b.leng + elim count [ none ↦ 0 | some n ↦ n ];
          },
          s',
        ),
      )
unfolding buff_fgetsln room_of
buff_fgetsln-xfgetsl b s maxlen count text s' e = simp e

count-leng :
    (room : ℕ) (line : Bytes)
    → length line ≤ room
    → elim (read_count room line) [ none ↦ 0 | some n ↦ n ] ≡ length line
unfolding read_count
count-leng zero [] h = refl
count-leng zero (c ∷ line) h = absurd (omega arith)
count-leng (suc room) [] h = refl
count-leng (suc room) (c ∷ line) h = refl

xfgetsl-zero :
    (buf : Bytes) (at : ℕ) (s : Stream)
    → xfgetsl buf at 0 s true ≡ some (read_count 0 (fgets_loop 0 s.rest).0, (buf, s))
unfolding xfgetsl read_count
xfgetsl-zero buf at s = refl

read_count-nil : (room : ℕ) → read_count (suc room) [] ≡ none
unfolding read_count
read_count-nil room = refl

append-take-nil : (at : ℕ) (buf : Bytes) → take (at + 0) buf ≡ take at buf ++ []
append-take-nil at buf = ap (λ n. take n buf) (omega arith) ∙ sym (append-nil (take at buf))

-- Whatever the room, the outcome of the read is the loop's line, in the block and in the stream.
xfgetsl-reads :
    (buf : Bytes) (at room : ℕ) (s : Stream)
    → EndsRight s
    → at + room < length buf
    → let line = fgets_loop room s.rest in
      (text : Bytes) × (s' : Stream) × (xfgetsl buf at room s true
        ≡ some (read_count room line.0, (text, s')))
      × (take (at + length line.0) text ≡ take at buf ++ line.0)
      × (length text ≡ length buf)
      × (s'.rest ≡ line.1)
      × EndsRight s'
xfgetsl-reads buf at zero s r h = (
  buf,
  s,
  xfgetsl-zero buf at s,
  rw (fgets_loop-zero s.rest) (append-take-nil at buf),
  refl,
  rw (fgets_loop-zero s.rest) refl,
  r,
)
xfgetsl-reads buf at (suc room) s r h = elim (Bool-cases s.at_end) [
  | inl e ↦
      let none_left = ap (fgets_loop (suc room)) (r e) ∙ fgets_loop-nil (suc room) in
      (
        buf,
        s,
        rw (none_left, read_count-nil room) (xfgetsl-at_end buf at room s e),
        rw none_left (append-take-nil at buf),
        refl,
        rw none_left (r e),
        r,
      )
  | inr e ↦
      let line = fgets_loop (suc room) s.rest in
      let fits = length-fgets_loop (suc room) s.rest in
      (
        store_line buf at (suc room) line.0,
        record { rest = line.1; at_end = hits_end (suc room) line.0 },
        xfgetsl-line buf at room s e,
        take-store_line buf at (suc room) line.0 (omega arith),
        length-store_line buf at (suc room) line.0 (omega arith) (omega arith),
        refl,
        fgets_loop-ends (suc room) s.rest,
      )
]

-- Into a sound buffer, from a stream that ends properly, a read appends to the contents what the
-- loop takes from the stream with the room that is left or with `maxlen`. The buffer stays sound,
-- and keeps its size; the read begins at its old length. The count is EOF exactly if there was room
-- and nothing was taken.
pub buff_fgetsln-Reads :
    (b : Buff) (s : Stream) (maxlen : ℕ)
    → IsSound b
    → EndsRight s
    → Reads b s (min (b.size - b.leng) maxlen) (buff_fgetsln b s maxlen)
unfolding room_of
buff_fgetsln-Reads b s maxlen (h, k) r =
    let room = min (b.size - b.leng) maxlen in
    let (text, s', e, contents', leng', rest', ends') =
      xfgetsl-reads b.text b.leng room s r (omega arith) in
    let line = fgets_loop room s.rest in
    let fits = length-fgets_loop room s.rest in
    let b' : Buff = record b {
      text = text;
      read = b.leng;
      leng = b.leng + elim (read_count room line.0) [ none ↦ 0 | some n ↦ n ];
    } in
    let counted = count-leng room line.0 fits in
    (
      b',
      s',
      buff_fgetsln-xfgetsl b s maxlen (read_count room line.0) text s' e,
      rw counted contents',
      rest',
      (omega arith, omega arith),
      ends',
      refl,
      refl,
    )
