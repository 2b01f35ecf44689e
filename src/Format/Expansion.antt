-- ===== src/Format/Expansion.antt =====
-- What the directives of the formats of bogofilter/src/format.c should show, without its machine.
use bogofilter.Prelude.{
  Bool, Bytes, List, Option, [], false, if◌then◌else◌, none, not, some, take, true, ℕ, ◌&&◌, ◌++◌,
  ◌==◌, ◌∷◌,
}
use bogofilter.Mime.Header.{c_string}
use bogofilter.Passthrough.{Rc, rc_spam}
use bogofilter.BogoUtil.{decimal}
use bogofilter.Format.{Spec, no_spec, Values, or_unknown}
use bogofilter.Format.Steps.{Piece, literal, directive, option_spec, prec_spec, number_from}

abbrev pub with_prec : Spec → Option Bytes → Spec
with_prec s none = s
with_prec s (some digits) = prec_spec s digits

-- The flags and the precision of a directive.
abbrev pub spec_of : Values → Bytes → Option Bytes → Spec
spec_of v options digits = with_prec (option_spec v no_spec options) digits

-- A text up to the precision, if there are digits behind the dot.
unfoldable pub limited : Option Bytes → Bytes → Bytes
limited none text = c_string text
limited (some []) text = c_string text
limited (some (c ∷ digits)) text = take (number_from 0 (c ∷ digits)) (c_string text)

-- A number or a spamicity, of which a buffer holds 19 bytes.
abbrev pub short : Bytes → Bytes
short text = c_string (take 19 text)

unfoldable pub is_spam_class : Rc → Bool
is_spam_class rc_spam = true
is_spam_class _ = false

-- Whether the spamicity is replaced by its complement once a conversion is shown.
unfoldable pub turned : Values → Bool → ℕ → Bool
turned v flipped c = if (c == b'd') && is_spam_class v.status then not flipped else flipped

-- The text that a conversion shows.
pub data Shows (v : Values) (flipped : Bool) (digits : Option Bytes) (spec : Spec)
    : ℕ → Bytes → Type 0 where
  percent_sign : Shows v flipped digits spec b'%' (b'%' ∷ [])
  sender : Shows v flipped digits spec b'A' (limited digits (or_unknown v.msg_addr))
  class : Shows v flipped digits spec b'c' (limited digits (v.spamicity_tags v.status))
  complement : Shows v flipped digits spec b'd' (short (v.spamicity_text flipped))
  today : Shows v flipped digits spec b'D' v.date
  message_id : Shows v flipped digits spec b'I' (limited digits (or_unknown v.msg_id))
  queue : Shows v flipped digits spec b'Q' (limited digits (or_unknown v.queue_id))
  exponential : Shows v flipped digits spec b'e' (short (v.float_text flipped b'e' spec))
  fixed : Shows v flipped digits spec b'f' (short (v.float_text flipped b'f' spec))
  general : Shows v flipped digits spec b'g' (short (v.float_text flipped b'g' spec))
  octal : Shows v flipped digits spec b'o' (short (v.float_text flipped b'o' spec))
  header_name : Shows v flipped digits spec b'h' (limited digits v.spam_header_name)
  log_tag : Shows v flipped digits spec b'l' (limited digits v.logtag)
  spamicity : Shows v flipped digits spec b'p' (short (v.spamicity_text flipped))
  run_type : Shows v flipped digits spec b'r' (short (v.reg ++ v.unreg))
  user_name : Shows v flipped digits spec b'u' (limited digits v.user)
  words : Shows v flipped digits spec b'w' (short (decimal v.wrdcount))
  messages : Shows v flipped digits spec b'm' (short (decimal v.msgcount))
  program : Shows v flipped digits spec b'v' (limited digits v.version)

-- What the pieces expand to, where the flag says that the spamicity was replaced by its complement.
pub data Expansion (v : Values) : Bool → List Piece → Bytes → Type 0 where
  nothing : {flipped : Bool} → Expansion v flipped [] []
  byte :
      {flipped : Bool} {pieces : List Piece} {text : Bytes} (c : ℕ)
      → Expansion v flipped pieces text
      → Expansion v flipped (literal c ∷ pieces) (c ∷ text)
  value :
      {flipped : Bool} {pieces : List Piece} {text : Bytes} (options : Bytes)
      (digits : Option Bytes) (c : ℕ) (t : Bytes)
      → Shows v (turned v flipped c) digits (spec_of v options digits) c t
      → Expansion v (turned v flipped c) pieces text
      → Expansion v flipped (directive options digits c ∷ pieces) (t ++ text)
