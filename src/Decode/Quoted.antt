-- ===== src/Decode/Quoted.antt =====
-- `qp_decode` of bogofilter/src/qp.c against an encoder of quoted-printable text.
use bogofilter.Prelude.{
  All, Bool, Bool-cases, Bytes, List, [], ap, append-nil, arith, false, if◌then◌else◌, inl, inr,
  leb, ltb, not, refl, some, subst, true, ℕ, ◌%◌, ◌&&◌, ◌*◌, ◌++◌, ◌+◌, ◌-◌, ◌/◌, ◌<◌, ◌==◌, ◌∙◌,
  ◌∷◌, ◌≡◌, ◌⊎◌,
}
use bogofilter.Decode.{
  QpMode, rfc2045, rfc2047, hex_to_bin, hex_pair, qp_eol_check, qp_step, qp_from, qp_decode,
  is_rfc2045,
}

hex_digit : ℕ → ℕ
hex_digit n = if ltb n 10 then b'0' + n else b'A' + (n - 10)

-- The bytes that stand for themselves in both modes.
plain : ℕ → Bool
plain b = leb 33 b && leb b 126 && not (b == b'=') && not (b == b'_')

-- A byte as itself, or as an equals sign with two hexadecimal digits.
pub quote : Bytes → Bytes
quote [] = []
quote (b ∷ w) =
    (if plain b then b ∷ [] else b'=' ∷ hex_digit (b / 16) ∷ hex_digit (b % 16) ∷ []) ++ quote w

-- Lines that end with a soft line break.
pub soft_lines : Bytes → List Bytes → Bytes
soft_lines eol [] = []
soft_lines eol (w ∷ ws) = quote w ++ (b'=' ∷ (eol ++ soft_lines eol ws))

pub joined : List Bytes → Bytes
joined [] = []
joined (w ∷ ws) = w ++ joined ws

hex_to_bin-hex_digit : (n : ℕ) → n < 16 → hex_to_bin (hex_digit n) ≡ some n
unfolding hex_to_bin hex_digit
hex_to_bin-hex_digit n h = ground arith

hex_pair-hex_digit :
    (b : ℕ) (t : Bytes) → b < 256 → hex_pair (hex_digit (b / 16) ∷ hex_digit (b % 16) ∷ t) ≡ some b
unfolding hex_pair
hex_pair-hex_digit b t h =
    let e : b / 16 * 16 + b % 16 ≡ b = omega arith in
    rw (hex_to_bin-hex_digit (b / 16) (omega arith), hex_to_bin-hex_digit (b % 16) (omega arith))
      (ap some e)

qp_eol_check-hex_digit : (n m : ℕ) (t : Bytes) → n < 16 → qp_eol_check (hex_digit n ∷ m ∷ t) ≡ 0
unfolding qp_eol_check hex_digit
qp_eol_check-hex_digit n m t h = ground arith

step_quoted :
    (mode : QpMode) (b : ℕ) (t : Bytes)
    → b < 256
    → qp_step mode b'=' (hex_digit (b / 16) ∷ hex_digit (b % 16) ∷ t) ≡ (b ∷ [], 2)
unfolding qp_step
step_quoted mode b t h =
    rw
      (
        qp_eol_check-hex_digit (b / 16) (hex_digit (b % 16)) t (omega arith),
        hex_pair-hex_digit b t h,
      )
      (elim mode as (λ m. (if is_rfc2045 m && false then ([], 0) else (b ∷ [], 2)) ≡ (b ∷ [], 2)) [
        | rfc2045 ↦ unfold is_rfc2045 in refl
        | rfc2047 ↦ unfold is_rfc2045 in refl
      ])

step_plain : (mode : QpMode) (b : ℕ) (t : Bytes) → plain b ≡ true → qp_step mode b t ≡ (b ∷ [], 0)
unfolding qp_step plain
step_plain mode b t h = ground arith

from_quoted :
    (mode : QpMode) (w t : Bytes)
    → All (λ b. b < 256) w
    → qp_from mode 0 (quote w ++ t) ≡ w ++ qp_from mode 0 t
unfolding qp_from quote
from_quoted mode [] t h = refl
from_quoted mode (b ∷ w) t (lt, h) = elim (Bool-cases (plain b)) [
  | inl e ↦ rw (e, step_plain mode b (quote w ++ t) e) (ap (◌∷◌ b) (from_quoted mode w t h))
  | inr e ↦ rw (e, step_quoted mode b (quote w ++ t) lt) (ap (◌∷◌ b) (from_quoted mode w t h))
]

-- The two ends of lines that may stand behind a soft line break.
abbrev pub IsLineEnd : Bytes → Type 0
IsLineEnd eol = (eol ≡ b'\n' ∷ []) ⊎ (eol ≡ b'\r' ∷ b'\n' ∷ [])

soft_break :
    (eol t : Bytes) → IsLineEnd eol → qp_from rfc2045 0 (b'=' ∷ (eol ++ t)) ≡ qp_from rfc2045 0 t
unfolding qp_from qp_step qp_eol_check is_rfc2045
soft_break eol [] (inl e) = rw e refl
soft_break eol (c ∷ t) (inl e) = rw e refl
soft_break eol t (inr e) = rw e refl

lines :
    (eol : Bytes) (ws : List Bytes)
    → IsLineEnd eol
    → All (All (λ b. b < 256)) ws
    → qp_from rfc2045 0 (soft_lines eol ws) ≡ joined ws
unfolding soft_lines joined
lines eol [] e hs = unfold qp_from in refl
lines eol (w ∷ ws) e (h, hs) =
    from_quoted rfc2045 w (b'=' ∷ (eol ++ soft_lines eol ws)) h
    ∙ ap (λ x. w ++ x) (soft_break eol (soft_lines eol ws) e ∙ lines eol ws e hs)

-- Encoded text is decoded to the bytes, each below 256, that it was made of, in both modes; and
-- lines of encoded text that end with a soft line break are joined in the mode of message bodies.
pub qp_decode-quote :
    (mode : QpMode) (eol w : Bytes) (ws : List Bytes)
    → IsLineEnd eol
    → All (λ b. b < 256) w
    → All (All (λ b. b < 256)) ws
    → (qp_decode mode (quote w) ≡ w) × (qp_decode rfc2045 (soft_lines eol ws) ≡ joined ws)
unfolding qp_decode
qp_decode-quote mode eol w ws e h hs = (
  subst (λ x. qp_from mode 0 x ≡ w) (append-nil (quote w))
      (from_quoted mode w [] h ∙ (unfold qp_from in append-nil w)),
  lines eol ws e hs,
)
