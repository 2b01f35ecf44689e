-- ===== src/Reader.antt =====
-- The readers of lines in bogofilter/src/bogoreader.c. The variables of the file, those that are
-- static within a function too, are the fields of a record; `fpin` is the stream that is open. A
-- length of -1, which is EOF, is `none`, and no result at all is the abort of the line reader.
pub mod Pieces
pub mod Mbox
pub mod Mails
pub mod Split
pub mod Loop
use bogofilter.Prelude.{
  Bool, Bytes, List, Option, [], codes, drop, false, get_or, if◌then◌else◌, leb, length, ltb, none,
  not, some, take, true, ℕ, ◌%◌, ◌&&◌, ◌*◌, ◌+◌, ◌-◌, ◌==◌, ◌>>=◌, ◌^◌, ◌||◌, ◌∷◌,
}
use bogofilter.Word.{memcpy}
use bogofilter.WordLists.{same_bytes}
use bogofilter.Buff.{Buff, Stream, buff_add, buff_fgetsl, buff_fgetsln}

-- The values of a pointer to a reader of lines.
pub data LineReader : Type 0 where
  mailbox_reader rmail_reader ant_reader simple_reader : LineReader

pub record Reader : Type 0 where
  pub fpin : Stream
  pub mail_first : Bool
  pub firstline : Bool
  pub have_message : Bool
  pub separator : Bytes
  pub emptyline : Bool
  pub mailbox_saved : Option Bytes
  pub rmail_saved : Option Bytes
  pub bytesleft : ℕ
  pub ant_saved : Option Bytes
  pub dot_found : Bool

-- The count, the buffer and the variables after a call.
abbrev pub GotLine : Type 0
GotLine = Option (Option ℕ × Buff × Reader)

-- An EOF is the length -1 here, which is neither 1 nor 2.
unfoldable pub is_eol : Bytes → Option ℕ → Bool
unfolding same_bytes
is_eol buf none = false
is_eol buf (some len) =
    len == 1 && same_bytes (take 1 buf) (codes "\n")
    || len == 2 && same_bytes (take 2 buf) (codes "\r\n")

sep_2_box : List (Bytes × LineReader)
sep_2_box =
    (codes "From ", mailbox_reader)
    ∷ (codes "\".MSG_COUNT\"", mailbox_reader)
    ∷ (codes "#! rmail", rmail_reader)
    ∷ (codes "MAIL FROM:", ant_reader)
    ∷ []

-- The first entry whose separator starts with the byte; each separator is as long as the table says.
find_separator : List (Bytes × LineReader) → ℕ → Option (Bytes × LineReader)
find_separator [] c = none
find_separator ((sep, fcn) ∷ table) c =
    let rest = find_separator table c in if get_or sep 0 0 == c then some (sep, fcn) else rest

simple_unless_mbox : Bool → LineReader → LineReader
simple_unless_mbox mbox_mode mailbox_reader = if mbox_mode then mailbox_reader else simple_reader
simple_unless_mbox mbox_mode fcn = fcn

-- An empty stream has no first byte.
first_separator : Bytes → Option (Bytes × LineReader)
unfolding find_separator sep_2_box
first_separator [] = none
first_separator (c ∷ rest) = find_separator sep_2_box c

unfoldable pub get_reader_line : Bool → Reader → LineReader × Reader
unfolding first_separator simple_unless_mbox
get_reader_line mbox_mode r = elim (first_separator r.fpin.rest) [
  | none ↦ (simple_unless_mbox mbox_mode mailbox_reader, r)
  | some (sep, fcn) ↦ (simple_unless_mbox mbox_mode fcn, record r { separator = sep })
]

unfoldable pub mail_next_mail : Reader → Bool × Reader
mail_next_mail r = (r.mail_first, record r { mail_first = false })

unfoldable pub mailbox_next_mail : Reader → Bool × Reader
mailbox_next_mail r = (r.mail_first || r.have_message, record r { mail_first = false })

-- The NUL behind the text of a buffer that is not full.
unfoldable pub mark_end : Buff → Buff
mark_end b = if ltb b.leng b.size then record b { text = memcpy b.text b.leng (0 ∷ []) } else b

-- `count >= seplen && memcmp(separator, buf, seplen) == 0`
unfoldable pub has_separator : Bytes → Option ℕ → Bytes → Bool
unfolding same_bytes
has_separator separator none buf = false
has_separator separator (some count) buf =
    leb (length separator) count && same_bytes (take (length separator) buf) separator

-- `word_new(buf, count)`
abbrev pub saved_line : Option ℕ → Bytes → Option Bytes
saved_line none buf = none
saved_line (some count) buf = some (take count buf)

-- The rest of `mailbox_getline`, when a line was read. The text behind the place `used` is the line.
unfoldable pub mailbox_line : ℕ → Option ℕ → Buff → Reader → Option ℕ × Buff × Reader
unfolding is_eol mark_end has_separator
mailbox_line used count buff r =
    let buf = drop used buff.text in
    if (r.firstline || r.emptyline)
      && (not (length r.separator == 0) && has_separator r.separator count buf)
    then if r.firstline
      then (count, buff, record r { firstline = false; emptyline = is_eol buf count })
      else (
        none,
        buff,
        record r { have_message = true; mailbox_saved = saved_line count buf; emptyline = false },
      )
    else (
      count,
      mark_end buff,
      record r { emptyline = is_eol (drop used (mark_end buff).text) count },
    )

unfoldable pub mailbox_unsaved : Buff → Reader → GotLine
mailbox_unsaved buff r = do
  (count, (buff', fpin')) ← buff_fgetsl buff r.fpin
  some (mailbox_line buff.leng count buff' (record r { fpin = fpin'; have_message = false }))

-- The two ways of a call, for the line that was kept.
unfoldable pub mailbox_either : Option Bytes → (ℕ → Bytes) → Buff → Reader → GotLine
mailbox_either none junk buff r = mailbox_unsaved buff r
mailbox_either (some line) junk buff r =
    let added = buff_add junk buff line in
    some (some (length line), added.1, record r { mailbox_saved = none })

unfoldable pub mailbox_getline : (ℕ → Bytes) → Buff → Reader → GotLine
unfolding mailbox_either mailbox_unsaved mailbox_line
mailbox_getline junk buff r = mailbox_either r.mailbox_saved junk buff r

-- The digits behind the separator of an rmail batch, as a number of 32 bits.
bytes_after : ℕ → Bytes → ℕ
bytes_after n [] = n
bytes_after n (c ∷ line) =
    let skip = bytes_after n line in
    let add = bytes_after ((n * 10 + (c - b'0')) % 2 ^ 32) line in
    if c == b' ' || leb 9 c && leb c 13 then skip else if leb b'0' c && leb c b'9' then add else n

unfoldable pub rmail_line : ℕ → Option ℕ → Buff → Reader → Option ℕ × Buff × Reader
unfolding mark_end has_separator bytes_after
rmail_line used count buff r =
    let buf = drop used buff.text in
    let left =
      bytes_after 0 (drop (length r.separator) (take (elim count [ none ↦ 0 | some n ↦ n ]) buf)) in
    if has_separator r.separator count buf
    then if r.firstline then (count, buff, record r { firstline = false; bytesleft = left }) else (
      none,
      buff,
      record r { bytesleft = left; have_message = true; rmail_saved = saved_line count buf },
    )
    else (count, mark_end buff, r)

announcing_line : Buff → Reader → GotLine
unfolding rmail_line
announcing_line buff r = do
  (count, (buff', fpin')) ← buff_fgetsl buff r.fpin
  some (rmail_line buff.leng count buff' (record r { fpin = fpin'; have_message = false }))

-- A part of the batch that was announced.
counted_line : Buff → Reader → GotLine
counted_line buff r = do
  (count, (buff', fpin')) ← buff_fgetsln buff r.fpin r.bytesleft
  some (
    count,
    buff',
    record r { fpin = fpin'; bytesleft = r.bytesleft - elim count [ none ↦ 0 | some n ↦ n ] },
  )

unfoldable pub rmail_getline : (ℕ → Bytes) → Buff → Reader → GotLine
unfolding announcing_line counted_line
rmail_getline junk buff r = elim r.rmail_saved [
  | some line ↦
      let added = buff_add junk buff line in
      some (some (length line), added.1, record r { rmail_saved = none })
  | none ↦ if r.bytesleft == 0 then announcing_line buff r else counted_line buff r
]

-- A line with a dot ends a message.
is_dot : Bytes → Option ℕ → Bool
is_dot buf none = false
is_dot buf (some count) =
    (count == 2 || count == 3)
    && get_or buf 0 0 == b'.'
    && (get_or buf 1 0 == b'\r' || get_or buf 1 0 == b'\n')

unfoldable pub ant_line : ℕ → Option ℕ → Buff → Reader → Option ℕ × Buff × Reader
unfolding mark_end has_separator is_dot
ant_line used count buff r =
    let buf = drop used buff.text in
    if r.dot_found && has_separator r.separator count buf
    then if r.firstline then (count, buff, record r { dot_found = false; firstline = false }) else (
      none,
      buff,
      record r { dot_found = false; have_message = true; ant_saved = saved_line count buf },
    )
    else (count, mark_end buff, record r { dot_found = r.dot_found || is_dot buf count })

unfoldable pub ant_getline : (ℕ → Bytes) → Buff → Reader → GotLine
unfolding ant_line
ant_getline junk buff r = elim r.ant_saved [
  | some line ↦
      let added = buff_add junk buff line in
      some (some (length line), added.1, record r { ant_saved = none })
  | none ↦ do
    (count, (buff', fpin')) ← buff_fgetsl buff r.fpin
    some (ant_line buff.leng count buff' (record r { fpin = fpin'; have_message = false }))
]

unfoldable pub simple_getline : Buff → Reader → GotLine
unfolding mark_end
simple_getline buff r = do
  (count, (buff', fpin')) ← buff_fgetsl buff r.fpin
  some (count, mark_end buff', record r { fpin = fpin' })
