-- ===== src/Decode.antt =====
-- The decoders of message bodies: bogofilter/src/qp.c, uudecode.c and base64.c. They write to the
-- text that they read, at or in front of the place where they read. So the bytes that are still to
-- be read are the old ones, and a decoder is a function from the text to the bytes that it counts.
-- Each byte is below 256.
pub mod Quoted
pub mod Base64
pub mod Encoded
pub mod Bounds
use bogofilter.Prelude.{
  Bool, Bytes, Option, [], codes, false, if◌then◌else◌, leb, ltb, none, not, some, suc, true, zero,
  ℕ, ◌%◌, ◌&&◌, ◌*◌, ◌++◌, ◌+◌, ◌-◌, ◌/◌, ◌==◌, ◌>>=◌, ◌^◌, ◌||◌, ◌∷◌,
}
use bogofilter.WordLists.{same_bytes}
use bogofilter.Mime.Header.{begins_nocase}

-- `qp_mode`
pub data QpMode : Type 0 where
  rfc2045 rfc2047 : QpMode

-- The result -1 is `none`.
unfoldable pub hex_to_bin : ℕ → Option ℕ
hex_to_bin c =
    if leb b'0' c && leb c b'9'
    then some (c - b'0')
    else if leb b'a' c && leb c b'f'
    then some (c - b'a' + 10)
    else if leb b'A' c && leb c b'F'
    then some (c - b'A' + 10)
    else none

-- The length of the end of line that the bytes begin with, or 0.
unfoldable pub qp_eol_check : Bytes → ℕ
qp_eol_check [] = 0
qp_eol_check (c ∷ []) = if c == b'\n' then 1 else 0
qp_eol_check (c ∷ d ∷ s) = if c == b'\n' then 1 else if c == b'\r' && d == b'\n' then 2 else 0

is_rfc2045 : QpMode → Bool
is_rfc2045 rfc2045 = true
is_rfc2045 rfc2047 = false

-- The byte that two hexadecimal digits stand for.
unfoldable pub hex_pair : Bytes → Option ℕ
unfolding hex_to_bin
hex_pair (c ∷ d ∷ s) = hex_to_bin c >>= λ y. hex_to_bin d >>= λ x. some (y * 16 + x)
hex_pair _ = none

-- One turn of the loop for the byte `ch` in front of `s`: the bytes that are written, and how many
-- bytes of `s` are skipped.
unfoldable pub qp_step : QpMode → ℕ → Bytes → Bytes × ℕ
unfolding qp_eol_check hex_pair is_rfc2045
qp_step mode ch s =
    if ch == b'='
    then if is_rfc2045 mode && not (qp_eol_check s == 0)
      then ([], qp_eol_check s)
      else elim (hex_pair s) [ none ↦ (ch ∷ [], 0) | some c ↦ (c ∷ [], 2) ]
    else if ch == b'_' && not (is_rfc2045 mode)
    then (b' ' ∷ [], 0)
    else (ch ∷ [], 0)

-- The loop, with `skip` bytes to pass over first.
unfoldable pub qp_from : QpMode → ℕ → Bytes → Bytes
unfolding qp_step
qp_from mode skip [] = []
qp_from mode (suc skip) (ch ∷ s) = qp_from mode skip s
qp_from mode zero (ch ∷ s) = let (out, skip) = qp_step mode ch s in out ++ qp_from mode skip s

unfoldable pub qp_decode : QpMode → Bytes → Bytes
unfolding qp_from
qp_decode mode text = qp_from mode 0 text

-- What the two tables of `qp_validate` have for a byte, as a test that it is not 0.
unfoldable pub qp_valid_byte : QpMode → ℕ → Bool
unfolding is_rfc2045
qp_valid_byte mode b =
    if is_rfc2045 mode
    then (leb 33 b && leb b 126) || b == b'\t' || b == b' '
    else (leb 33 b && leb b 126) && not (b == b'?')

unfoldable pub qp_validate : QpMode → Bytes → Bool
unfolding qp_valid_byte
qp_validate mode [] = true
qp_validate mode (b ∷ text) = let rest = qp_validate mode text in qp_valid_byte mode b && rest

-- The three bytes of four characters of six bits, which `|` puts side by side.
unfoldable pub three_bytes : ℕ → Bytes
three_bytes v = v / 2 ^ 16 % 256 ∷ v / 2 ^ 8 % 256 ∷ v % 256 ∷ []

-- `(c - 0x20) & 0x3F`, in arithmetic modulo 64
unfoldable pub uu_bits : ℕ → ℕ
uu_bits c = (c + 32) % 64

-- The loops of `uudecode`: groups of four bytes while more than four are left, and the rest as it is.
pub uu_from : Bytes → Bytes
unfolding three_bytes uu_bits
uu_from (a ∷ b ∷ c ∷ d ∷ x ∷ s) =
    three_bytes (((uu_bits a * 64 + uu_bits b) * 64 + uu_bits c) * 64 + uu_bits d)
    ++ uu_from (x ∷ s)
uu_from s = s

-- The byte behind an empty text is 0.
unfoldable pub uudecode : Bytes → Bytes
unfolding uu_from begins_nocase
uudecode [] = []
uudecode (c ∷ s) =
    if ltb (c % 128) 32
    then c ∷ s
    else if begins_nocase (c ∷ s) (codes "begin ") || begins_nocase (c ∷ s) (codes "end")
    then c ∷ s
    else uu_from s
