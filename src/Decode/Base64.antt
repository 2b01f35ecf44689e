-- ===== src/Decode/Base64.antt =====
-- bogofilter/src/base64.c, and `mime_decode` of bogofilter/src/mime.c, which chooses the decoder.
use bogofilter.Prelude.{
  Bool, Bytes, List, Option, [], drop, false, if◌then◌else◌, leb, length, ltb, none, not, some, suc,
  true, zero, ℕ, ◌%◌, ◌&&◌, ◌*◌, ◌++◌, ◌+◌, ◌-◌, ◌/◌, ◌==◌, ◌>>=◌, ◌^◌, ◌||◌, ◌∷◌,
}
use bogofilter.Decode.{rfc2045, qp_decode, uudecode, three_bytes}
use bogofilter.Mime.{MimePart, mime_qp, mime_base64, mime_uuencode, mime_is_boundary}

abbrev pub base64_invalid : ℕ
base64_invalid = 127

-- The array that `base64_init` fills. The NUL behind the 64 characters has an entry too.
unfoldable pub base64_xlate : ℕ → ℕ
base64_xlate c =
    if leb b'A' c && leb c b'Z'
    then c - b'A'
    else if leb b'a' c && leb c b'z'
    then c - b'a' + 26
    else if leb b'0' c && leb c b'9'
    then c - b'0' + 52
    else if c == b'+'
    then 62
    else if c == b'/'
    then 63
    else if c == 0
    then 64
    else if c == b'='
    then base64_invalid
    else 0

unfoldable pub is_eol : ℕ → Bool
is_eol c = c == b'\r' || c == b'\n'

unfoldable pub base64_validate : Bytes → Bool
unfolding base64_xlate
base64_validate [] = true
base64_validate (b ∷ text) =
    let rest = base64_validate text in
    let bad = base64_xlate b == 0 && not (b == b'A') && not (b == b'\n') && not (b == b'\r') in
    if bad then false else rest

-- `v << 6 | t`. Only the 64 of a NUL meets a bit of the shifted value.
unfoldable pub shift_or : ℕ → ℕ → ℕ
shift_or v t = if t == 64 then (if v % 2 == 0 then v * 64 + 64 else v * 64) else v * 64 + t

-- The ends of lines in front of a group: the size and the text that are left.
unfoldable pub skip_eols : ℕ → Bytes → ℕ × Bytes
unfolding is_eol
skip_eols size [] = (size, [])
skip_eols size (c ∷ s) =
    let rest = skip_eols (size - 1) s in if not (size == 0) && is_eol c then rest else (size, c ∷ s)

-- A group of four characters, `left` of which are to be read: the bits, `shorten`, and the text
-- behind it.
unfoldable pub read_group : ℕ → ℕ → Bytes → ℕ × ℕ × Bytes
unfolding base64_xlate shift_or
read_group zero v s = (v, 0, s)
read_group (suc left) v [] = (v, 0, [])
read_group (suc left) v (c ∷ s) =
    let t = base64_xlate c in
    let rest = read_group left (shift_or v t) s in
    let shorten = suc left in
    if t == base64_invalid
    then (v / 2 ^ (shorten * 2), shorten, if shorten == 2 then drop 1 s else s)
    else rest

-- The `3 - shorten` bytes of a group.
unfoldable pub group_bytes : ℕ → ℕ → Bytes
unfolding three_bytes
group_bytes shorten v = drop shorten (three_bytes v)

-- `none` is fuel that ran out.
unfoldable pub base64_from : ℕ → ℕ → Bytes → Option Bytes
unfolding skip_eols read_group group_bytes
base64_from zero size s = if size == 0 then some [] else none
base64_from (suc fuel) size s =
    let (size', s') = skip_eols size s in
    let (v, shorten, s'') = read_group 4 0 s' in
    let rest = base64_from fuel (size' - 4) s'' in
    if size == 0
    then some []
    else if ltb size' 4
    then some []
    else rest >>= λ out. some (group_bytes shorten v ++ out)

-- As many turns as there are bytes are enough.
unfoldable pub base64_decode : Bytes → Option Bytes
unfolding base64_validate base64_from
base64_decode text =
    if base64_validate text then base64_from (length text) (length text) text else some text

-- An empty stack is a null `msg_state`, which is followed.
unfoldable pub mime_decode : Bytes → List MimePart → Option Bytes
unfolding base64_decode
mime_decode text [] = none
mime_decode text (p ∷ parents) =
    let boundary = mime_is_boundary text (p ∷ parents) in
    elim p.mime_encoding [
      | mime_qp ↦ some (if boundary then text else qp_decode rfc2045 text)
      | mime_base64 ↦
          if boundary || not (ltb 4 (length text)) then some text else base64_decode text
      | mime_uuencode ↦ some (if boundary then text else uudecode text)
      | _ ↦ some text
    ]
