-- ===== src/Format.antt =====
-- bogofilter/src/format.c: the machine that expands the formats for the header and the log. What
-- `snprintf` makes of a floating-point number is a function of the setup, since there are no such
-- numbers here, and so are the date and the user. The text that was written so far stands for the
-- place `buff` in the buffer.
pub mod Total
pub mod Steps
pub mod Expansion
pub mod Shown
pub mod Directives
pub mod Plain
use bogofilter.Prelude.{
  Bool, Bytes, Option, [], codes, false, get_or, if◌then◌else◌, leb, length, ltb, none, not, some,
  suc, take, true, zero, ℕ, ◌&&◌, ◌*◌, ◌++◌, ◌+◌, ◌-◌, ◌==◌, ◌>>=◌, ◌^◌, ◌||◌, ◌∷◌,
}
use bogofilter.Mime.Header.{c_string}
use bogofilter.Passthrough.{Rc, rc_spam}
use bogofilter.Datastore.{Outcome, done, exits, spins}
use bogofilter.BogoUtil.{decimal, is_digit}

-- `enum states`
pub data States : Type 0 where
  s_default s_flags s_min s_dot s_prec s_conv : States

-- `min`, `prec` and `flags`, where the flags F_FP_E, F_FP_F and F_FP_G go with the conversion.
pub record Spec : Type 0 where
  pub min_width : ℕ
  pub prec : ℕ
  pub f_zero : Bool
  pub f_delta : Bool
  pub f_prec : Bool

abbrev pub no_spec : Spec
no_spec = record { min_width = 0; prec = 0; f_zero = false; f_delta = false; f_prec = false }

-- The variables that the formats show. A flag of the last two says that the spamicity was replaced by its
-- complement; `float_text` has the conversion, too.
pub record Values : Type 0 where
  pub status : Rc
  pub msg_addr : Bytes
  pub msg_id : Bytes
  pub queue_id : Bytes
  pub spamicity_tags : Rc → Bytes
  pub spam_header_name : Bytes
  pub logtag : Bytes
  pub reg : Bytes
  pub unreg : Bytes
  pub user : Bytes
  pub wrdcount : ℕ
  pub msgcount : ℕ
  pub version : Bytes
  pub date : Bytes
  pub spamicity_text : Bool → Bytes
  pub float_text : Bool → ℕ → Spec → Bytes

-- `buff` is behind `out`.
pub record Machine : Type 0 where
  pub state : States
  pub spec : Spec
  pub flipped : Bool
  pub out : Bytes

-- The text that is shown, and how.
pub data Source : Type 0 where
  percent time unknown : Source
  whole cut : Bytes → Source

abbrev pub or_unknown : Bytes → Bytes
or_unknown text = if get_or text 0 0 == 0 then codes "UNKNOWN" else text

unfoldable pub is_spam : Rc → Bool
is_spam rc_spam = true
is_spam status = false

-- A conversion that changes the spamicity.
unfoldable pub flips : Values → ℕ → Bool
unfolding is_spam
flips v c = c == b'd' && is_spam v.status

-- The buffer `temp` has room for 19 bytes and a NUL.
unfoldable pub source : Values → Bool → Spec → ℕ → Source
unfolding decimal
source v flipped spec c =
    if c == b'%'
    then percent
    else if c == b'A'
    then cut (or_unknown v.msg_addr)
    else if c == b'c'
    then cut (v.spamicity_tags v.status)
    else if c == b'd' || c == b'p'
    then whole (take 19 (v.spamicity_text flipped))
    else if c == b'D'
    then time
    else if c == b'I'
    then cut (or_unknown v.msg_id)
    else if c == b'Q'
    then cut (or_unknown v.queue_id)
    else if c == b'e' || (c == b'f' || (c == b'g' || c == b'o'))
    then whole (take 19 (v.float_text flipped c spec))
    else if c == b'h'
    then cut v.spam_header_name
    else if c == b'l'
    then cut v.logtag
    else if c == b'r'
    then whole (take 19 (v.reg ++ v.unreg))
    else if c == b'u'
    then cut v.user
    else if c == b'w'
    then whole (take 19 (decimal v.wrdcount))
    else if c == b'm'
    then whole (take 19 (decimal v.msgcount))
    else if c == b'v'
    then cut v.version
    else unknown

-- The string up to the precision.
unfoldable pub cut_to : Bool → ℕ → Bytes → Bytes
unfolding c_string
cut_to f_prec prec src =
    let text = c_string src in if f_prec && ltb prec (length text) then take prec text else text

-- `room` is the distance from `dest` to `destend`; no result is the abort.
unfoldable pub format_string : ℕ → Bytes → ℕ → Bool → Option Bytes
unfolding cut_to
format_string room src prec f_prec =
    let text = cut_to f_prec prec src in if ltb (length text + 1) room then some text else none

unfoldable pub format_date : ℕ → Bytes → Bytes
format_date room date = if ltb (length date + 1) room then date else []

-- What is written for a conversion; no result is the abort or `die`.
unfoldable pub convert : ℕ → Bytes → Spec → Source → Option Bytes
unfolding format_string format_date
convert room date spec percent = some (b'%' ∷ [])
convert room date spec time = some (format_date room date)
convert room date spec unknown = none
convert room date spec (whole text) = format_string room text 0 false
convert room date spec (cut text) = format_string room text spec.prec spec.f_prec

-- What an iteration leaves: whether the byte is used up, and the variables. No result is the end of
-- the program, or the overflow of the int of a width or a precision, after which C promises nothing.
unfoldable pub step : Values → ℕ → States → ℕ → Machine → Option (Bool × Machine)
unfolding flips source convert is_spam
step v size s_default c m =
    if c == b'%'
    then some (true, record m { state = s_flags })
    else some (true, record m { out = m.out ++ c ∷ [] })
step v size s_flags c m =
    if leb b'1' c && leb c b'9' || c == b'-'
    then some (true, m)
    else if c == b'0'
    then some (true, record m { spec = record m.spec { f_zero = true } })
    else if c == b'#'
    then some
        (true, record m { spec = record m.spec { f_delta = m.spec.f_delta || is_spam v.status } })
    else some (false, record m { state = s_min })
step v size s_min c m =
    if is_digit c
    then (let n = m.spec.min_width * 10 + (c - b'0') in
        if ltb n (2 ^ 31)
        then some (true, record m { spec = record m.spec { min_width = n } })
        else none)
    else some (false, record m { state = s_dot })
step v size s_dot c m =
    if c == b'.'
    then some (true, record m { state = s_prec })
    else some (false, record m { state = s_conv })
step v size s_prec c m =
    if is_digit c
    then (let n = m.spec.prec * 10 + (c - b'0') in
        if ltb n (2 ^ 31)
        then some (true, record m { spec = record m.spec { prec = n; f_prec = true } })
        else none)
    else some (false, record m { state = s_conv })
step v size s_conv c m = do
  let flipped = if flips v c then not m.flipped else m.flipped
  text ← convert (size - length m.out) v.date m.spec (source v flipped m.spec c)
  some (true, record { state = s_default; spec = no_spec; flipped = flipped; out = m.out ++ text })

-- The format that is left after an iteration.
abbrev pub left : Bool → ℕ → Bytes → Bytes
left true c format = format
left false c format = c ∷ format

-- The loop, on fuel; the format ends with its first NUL.
unfoldable pub run : Values → ℕ → ℕ → Bytes → Machine → Outcome Machine
run v size zero format m = spins
run v size (suc n) [] m = done m
run v size (suc n) (c ∷ format) m =
    let next : Outcome Machine = elim (step v size m.state c m) [
      | none ↦ exits
      | some (used, m') ↦ run v size n (left used c format) m'
    ] in
    if c == 0 then done m else if ltb (length m.out) size then next else done m

abbrev pub start : Machine
start = record { state = s_default; spec = no_spec; flipped = false; out = [] }

-- The text in the buffer; a NUL is written behind it, whatever room there is.
unfoldable pub convert_format_to_string : Values → ℕ → Bytes → Outcome Bytes
unfolding run
convert_format_to_string v size format = elim (run v size (4 * length format + 4) format start) [
  | done m ↦ done m.out
  | exits ↦ exits
  | spins ↦ spins
]
