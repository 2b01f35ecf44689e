-- ===== src/Buff.antt =====
-- bogofilter/src/buff.c and the line reader of bogofilter/src/fgetsl.c. The block of memory of a
-- buffer is a list of bytes of its own, since the buffer's contents are only the first part of it.
-- A stream is not null, and a read error, which ends the program, is left out.
pub mod Fgets
pub mod Contents
pub mod Edit
use bogofilter.Prelude.{
  Bool, Bytes, Option, [], drop, get_or, if◌then◌else◌, leb, length, ltb, min, none, not, some, suc,
  take, true, zero, ℕ, ◌%◌, ◌&&◌, ◌++◌, ◌+◌, ◌-◌, ◌==◌, ◌>>=◌, ◌^◌, ◌∷◌,
}
use bogofilter.Word.{memcpy}

-- `D` of bogofilter/src/common.h, room for a NUL behind the text
abbrev pub padding : ℕ
padding = 1

-- What is left of a file, and whether `feof` holds.
pub record Stream : Type 0 where
  pub rest : Bytes
  pub at_end : Bool

pub record Buff : Type 0 where
  pub text : Bytes
  pub leng : ℕ
  pub read : ℕ
  pub size : ℕ

-- The bytes that the loop stores with room for so many, and what is left.
unfoldable pub fgets_loop : ℕ → Bytes → Bytes × Bytes
fgets_loop zero s = ([], s)
fgets_loop (suc n) [] = ([], [])
fgets_loop (suc n) (c ∷ s) =
    let later = fgets_loop n s in if c == b'\n' then (c ∷ [], s) else (c ∷ later.0, later.1)

-- The loop stopped at the end of the file: there was room left, and the last byte does not end a line.
unfoldable pub hits_end : ℕ → Bytes → Bool
hits_end n line = ltb (length line) n && not (get_or line (length line - 1) 0 == b'\n')

-- The line in the block, with a NUL behind it if there is room for one.
unfoldable pub store_line : Bytes → ℕ → ℕ → Bytes → Bytes
store_line buf at max_size line =
    let buf' = memcpy buf at line in
    if ltb (length line) max_size then memcpy buf' (at + length line) (0 ∷ []) else buf'

-- The count, where EOF is `none`, with the block and the stream behind; no result is the abort. The line
-- goes to the place `at` of the block.
unfoldable pub xfgetsl : Bytes → ℕ → ℕ → Stream → Bool → Option (Option ℕ × (Bytes × Stream))
unfolding fgets_loop hits_end store_line
xfgetsl buf at max_size in_ no_nul =
    let fin = if no_nul then max_size else max_size - 1 in
    let line = fgets_loop fin in_.rest in
    let ends = hits_end fin line.0 in
    let in' : Stream = record { rest = line.1; at_end = ends } in
    if max_size == 0 && no_nul
    then some (some 0, (buf, in_))
    else if fin == 0
    then none
    else if in_.at_end
    then some (none, (buf, in_))
    else some (
      if length line.0 == 0 && ends then none else some (length line.0),
      (store_line buf at max_size line.0, in'),
    )

unfoldable pub buff_init : Bytes → ℕ → ℕ → Buff
buff_init buff used size = record { text = buff; leng = used; read = 0; size = size }

unfoldable pub buff_fgetsln : Buff → Stream → ℕ → Option (Option ℕ × (Buff × Stream))
unfolding xfgetsl
buff_fgetsln self in_ maxlen = do
  (readcnt, (text, in')) ← xfgetsl self.text self.leng (min (self.size - self.leng) maxlen) in_ true
  some (
    readcnt,
    (
      record self {
        text = text;
        read = self.leng;
        leng = self.leng + elim readcnt [ none ↦ 0 | some n ↦ n ];
      },
      in',
    ),
  )

-- `UINT_MAX`
abbrev pub uint_max : ℕ
uint_max = 2 ^ 32 - 1

abbrev pub buff_fgetsl : Buff → Stream → Option (Option ℕ × (Buff × Stream))
buff_fgetsl self in_ = buff_fgetsln self in_ uint_max

-- The longer block that `xrealloc` gives; `junk` is what stands in its new part.
unfoldable pub room_for : (ℕ → Bytes) → Buff → ℕ → Buff
room_for junk self new_size =
    if ltb self.size new_size
    then record self {
      text =
          take ((new_size + padding) % 2 ^ 32) (self.text ++ junk ((new_size + padding) % 2 ^ 32));
      size = new_size;
    }
    else self

-- A `uint` that wraps around is too small for the copy, which then writes behind the block; here
-- the block grows.
unfoldable pub buff_add : (ℕ → Bytes) → Buff → Bytes → ℕ × Buff
unfolding room_for
buff_add junk self in_ =
    let readpos = self.leng in
    let readcnt = length in_ in
    let total = (self.leng + length in_) % 2 ^ 32 in
    let self' = room_for junk self total in
    (
      readcnt,
      record self' {
        read = readpos;
        leng = total;
        text = memcpy (memcpy self'.text readpos in_) total (0 ∷ []);
      },
    )

-- The word that `buff_puts` prints.
unfoldable pub buff_unread : Buff → Bytes
buff_unread self = take (self.leng - self.read) (drop self.read self.text)

-- No result is the abort of the assertion. The copy moves as many bytes as are left of the whole
-- contents, not as are left behind the segment, so it may read and write behind the block too,
-- where `beyond` stands.
unfoldable pub buff_shift : Bytes → Buff → ℕ → ℕ → Option (Buff × Bytes)
buff_shift beyond self start len =
    let memory = self.text ++ beyond in
    let moved = take (self.leng - len) (drop (start + len) memory) in
    let memory' = memcpy (memcpy memory start moved) (self.leng - len) (0 ∷ []) in
    let block = length self.text in
    if leb (start + len) self.leng
    then some
        (record self { text = take block memory'; leng = self.leng - len }, drop block memory')
    else none
