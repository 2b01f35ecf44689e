-- ===== src/Decode/Encoded.antt =====
-- `base64_decode` of bogofilter/src/base64.c against an encoder.
use mathlib.Core.Path.{ap₂}
use bogofilter.Prelude.{
  All, Bytes, [], ap, arith, drop, false, if◌then◌else◌, length, ltb, refl, some, suc, true, zero,
  ℕ, ◌%◌, ◌*◌, ◌++◌, ◌+◌, ◌-◌, ◌/◌, ◌<◌, ◌==◌, ◌>>=◌, ◌^◌, ◌∙◌, ◌∷◌, ◌≡◌, ◌≤◌,
}
use bogofilter.Decode.{three_bytes}
use bogofilter.Decode.Base64.{
  base64_xlate, base64_validate, shift_or, skip_eols, is_eol, read_group, group_bytes, base64_from,
  base64_decode, base64_invalid,
}

-- The character for six bits.
base64_char : ℕ → ℕ
base64_char n =
    if ltb n 26
    then b'A' + n
    else if ltb n 52
    then b'a' + (n - 26)
    else if ltb n 62
    then b'0' + (n - 52)
    else if n == 62
    then b'+'
    else b'/'

-- Three bytes in four characters; a rest is filled up with equals signs.
pub base64_encode : Bytes → Bytes
base64_encode [] = []
base64_encode (a ∷ []) = base64_char (a / 4) ∷ base64_char (a % 4 * 16) ∷ b'=' ∷ b'=' ∷ []
base64_encode (a ∷ b ∷ []) =
    base64_char (a / 4) ∷ base64_char (a % 4 * 16 + b / 16) ∷ base64_char (b % 16 * 4) ∷ b'=' ∷ []
base64_encode (a ∷ b ∷ c ∷ w) =
    base64_char (a / 4)
    ∷ base64_char (a % 4 * 16 + b / 16)
    ∷ base64_char (b % 16 * 4 + c / 64)
    ∷ base64_char (c % 64)
    ∷ base64_encode w

xlate-base64_char : (n : ℕ) → n < 64 → base64_xlate (base64_char n) ≡ n
unfolding base64_xlate base64_char
xlate-base64_char n h = ground arith

base64_char-is_eol : (n : ℕ) → n < 64 → is_eol (base64_char n) ≡ false
unfolding base64_char is_eol
base64_char-is_eol n h = ground arith

base64_char-zero : (n : ℕ) → n < 64 → (base64_char n == b'A') ≡ (n == 0)
unfolding base64_char
base64_char-zero n h = ground arith

validate_char :
    (n : ℕ) (t : Bytes) → n < 64 → base64_validate (base64_char n ∷ t) ≡ base64_validate t
unfolding base64_validate
validate_char n t h = rw (xlate-base64_char n h, base64_char-zero n h) (ground arith)

read_char :
    (left v n : ℕ) (s : Bytes)
    → n < 64
    → read_group (suc left) v (base64_char n ∷ s) ≡ read_group left (v * 64 + n) s
unfolding read_group shift_or
read_char left v n s h =
    let go : (n == base64_invalid) ≡ false = ground arith in
    let low : (n == 64) ≡ false = ground arith in rw (xlate-base64_char n h) (rw (go, low) refl)

skip_char :
    (size n : ℕ) (s : Bytes)
    → n < 64
    → skip_eols size (base64_char n ∷ s) ≡ (size, base64_char n ∷ s)
unfolding skip_eols
skip_char size n s h = rw (base64_char-is_eol n h) (ground arith)

-- A turn of the loop on a group that begins with a character.
turn :
    (fuel k n : ℕ) (s : Bytes) (v shorten : ℕ) (s' : Bytes)
    → n < 64
    → read_group 4 0 (base64_char n ∷ s) ≡ (v, shorten, s')
    → base64_from (suc fuel) (4 + k) (base64_char n ∷ s)
      ≡ (base64_from fuel k s' >>= λ out. some (group_bytes shorten v ++ out))
unfolding base64_from
turn fuel k n s v shorten s' h e =
    let some_left : (4 + k == 0) ≡ false = ground arith in
    let enough : ltb (4 + k) 4 ≡ false = ground arith in
    let rest : 4 + k - 4 ≡ k = omega arith in
    let run = λ (size : ℕ) (g : ℕ × ℕ × Bytes).
      base64_from fuel size g.2 >>= λ out. some (group_bytes g.1 g.0 ++ out) in
    let body = λ (p : ℕ × Bytes).
      if 4 + k == 0
      then some []
      else if ltb p.0 4
      then some []
      else run (p.0 - 4) (read_group 4 0 p.1) in
    ap body (skip_char (4 + k) n s h) ∙ rw (some_left, enough) (ap₂ run rest e)

read_first : (n : ℕ) (s : Bytes) → n < 64 → read_group 4 0 (base64_char n ∷ s) ≡ read_group 3 n s
read_first n s h =
    let e : 0 * 64 + n ≡ n = omega arith in read_char 3 0 n s h ∙ ap (λ x. read_group 3 x s) e

read_pad :
    (left v : ℕ) (s : Bytes)
    → read_group (suc left) v (b'=' ∷ s)
      ≡ (v / 2 ^ (suc left * 2), suc left, if suc left == 2 then drop 1 s else s)
unfolding read_group base64_xlate
read_pad left v s = refl

read_none : (v : ℕ) (s : Bytes) → read_group 0 v s ≡ (v, 0, s)
unfolding read_group
read_none v s = refl

done_from : (fuel : ℕ) → base64_from fuel 0 [] ≡ some []
unfolding base64_from
done_from zero = refl
done_from (suc fuel) = refl

bytes_one : (a : ℕ) → a < 256 → group_bytes 2 ((a / 4 * 64 + a % 4 * 16) / 2 ^ 4) ≡ a ∷ []
unfolding group_bytes three_bytes
bytes_one a h =
    let e : (a / 4 * 64 + a % 4 * 16) / 2 ^ 4 % 256 ≡ a = omega arith in ap (λ x. x ∷ []) e

bytes_two :
    (a b : ℕ)
    → a < 256
    → b < 256
    → group_bytes 1 (((a / 4 * 64 + (a % 4 * 16 + b / 16)) * 64 + b % 16 * 4) / 2 ^ 2) ≡ a ∷ b ∷ []
unfolding group_bytes three_bytes
bytes_two a b h k =
    let v = ((a / 4 * 64 + (a % 4 * 16 + b / 16)) * 64 + b % 16 * 4) / 2 ^ 2 in
    let e : v / 2 ^ 8 % 256 ≡ a = omega arith in
    let f : v % 256 ≡ b = omega arith in ap₂ (λ x y. x ∷ y ∷ []) e f

bytes_three :
    (a b c : ℕ)
    → a < 256
    → b < 256
    → c < 256
    → group_bytes 0
        (((a / 4 * 64 + (a % 4 * 16 + b / 16)) * 64 + (b % 16 * 4 + c / 64)) * 64 + c % 64)
      ≡ a ∷ b ∷ c ∷ []
unfolding group_bytes three_bytes
bytes_three a b c h k l =
    let v = ((a / 4 * 64 + (a % 4 * 16 + b / 16)) * 64 + (b % 16 * 4 + c / 64)) * 64 + c % 64 in
    let e : v / 2 ^ 16 % 256 ≡ a = omega arith in
    let f : v / 2 ^ 8 % 256 ≡ b = omega arith in
    let g : v % 256 ≡ c = omega arith in λ i. e i ∷ f i ∷ g i ∷ []

from_encoded :
    (fuel : ℕ) (w : Bytes)
    → All (λ b. b < 256) w
    → length (base64_encode w) ≤ fuel
    → base64_from fuel (length (base64_encode w)) (base64_encode w) ≡ some w
unfolding base64_encode
from_encoded zero [] h le = unfold base64_from in refl
from_encoded (suc fuel) [] h le = unfold base64_from in refl
from_encoded zero (a ∷ []) h le = absurd (omega arith)
from_encoded zero (a ∷ b ∷ []) h le = absurd (omega arith)
from_encoded zero (a ∷ b ∷ c ∷ w) h le = absurd (omega arith)
from_encoded (suc fuel) (a ∷ []) (ha, _) le =
    let n0 = a / 4 in
    let n1 = a % 4 * 16 in
    let v = (n0 * 64 + n1) / 2 ^ 4 in
    let group : read_group 4 0 (base64_encode (a ∷ [])) ≡ (v, 2, []) =
      read_first n0 (base64_char n1 ∷ b'=' ∷ b'=' ∷ []) (omega arith)
      ∙ read_char 2 n0 n1 (b'=' ∷ b'=' ∷ []) (omega arith)
      ∙ read_pad 1 (n0 * 64 + n1) (b'=' ∷ []) in
    turn fuel 0 n0 (base64_char n1 ∷ b'=' ∷ b'=' ∷ []) v 2 [] (omega arith) group
    ∙ rw (done_from fuel, bytes_one a ha) refl
from_encoded (suc fuel) (a ∷ b ∷ []) (ha, (hb, _)) le =
    let n0 = a / 4 in
    let n1 = a % 4 * 16 + b / 16 in
    let n2 = b % 16 * 4 in
    let v = ((n0 * 64 + n1) * 64 + n2) / 2 ^ 2 in
    let s1 = base64_char n1 ∷ base64_char n2 ∷ b'=' ∷ [] in
    let group : read_group 4 0 (base64_encode (a ∷ b ∷ [])) ≡ (v, 1, []) =
      read_first n0 s1 (omega arith)
      ∙ read_char 2 n0 n1 (base64_char n2 ∷ b'=' ∷ []) (omega arith)
      ∙ read_char 1 (n0 * 64 + n1) n2 (b'=' ∷ []) (omega arith)
      ∙ read_pad 0 ((n0 * 64 + n1) * 64 + n2) [] in
    turn fuel 0 n0 s1 v 1 [] (omega arith) group ∙ rw (done_from fuel, bytes_two a b ha hb) refl
from_encoded (suc fuel) (a ∷ b ∷ c ∷ w) (ha, (hb, (hc, h))) le =
    let n0 = a / 4 in
    let n1 = a % 4 * 16 + b / 16 in
    let n2 = b % 16 * 4 + c / 64 in
    let n3 = c % 64 in
    let v = ((n0 * 64 + n1) * 64 + n2) * 64 + n3 in
    let s3 = base64_char n3 ∷ base64_encode w in
    let s1 = base64_char n1 ∷ base64_char n2 ∷ s3 in
    let group : read_group 4 0 (base64_encode (a ∷ b ∷ c ∷ w)) ≡ (v, 0, base64_encode w) =
      read_first n0 s1 (omega arith)
      ∙ read_char 2 n0 n1 (base64_char n2 ∷ s3) (omega arith)
      ∙ read_char 1 (n0 * 64 + n1) n2 s3 (omega arith)
      ∙ read_char 0 ((n0 * 64 + n1) * 64 + n2) n3 (base64_encode w) (omega arith)
      ∙ read_none v (base64_encode w) in
    let k = length (base64_encode w) in
    let size : suc (suc (suc (suc k))) ≡ 4 + k = omega arith in
    ap (λ n. base64_from (suc fuel) n (base64_char n0 ∷ s1)) size
    ∙ turn fuel k n0 s1 v 0 (base64_encode w) (omega arith) group
    ∙ rw (from_encoded fuel w h (omega arith), bytes_three a b c ha hb hc) refl

validate_encoded : (w : Bytes) → All (λ b. b < 256) w → base64_validate (base64_encode w) ≡ true
unfolding base64_encode
validate_encoded [] h = unfold base64_validate in refl
validate_encoded (a ∷ []) (ha, _) =
    validate_char (a / 4) _ (omega arith)
    ∙ validate_char (a % 4 * 16) _ (omega arith)
    ∙ (unfold base64_validate base64_xlate in refl)
validate_encoded (a ∷ b ∷ []) (ha, (hb, _)) =
    validate_char (a / 4) _ (omega arith)
    ∙ validate_char (a % 4 * 16 + b / 16) _ (omega arith)
    ∙ validate_char (b % 16 * 4) _ (omega arith)
    ∙ (unfold base64_validate base64_xlate in refl)
validate_encoded (a ∷ b ∷ c ∷ w) (ha, (hb, (hc, h))) =
    validate_char (a / 4) _ (omega arith)
    ∙ validate_char (a % 4 * 16 + b / 16) _ (omega arith)
    ∙ validate_char (b % 16 * 4 + c / 64) _ (omega arith)
    ∙ validate_char (c % 64) _ (omega arith)
    ∙ validate_encoded w h

-- Bytes below 256 that are encoded in base64, with the rest filled up, are decoded to themselves.
pub base64_decode-base64_encode :
    (w : Bytes) → All (λ b. b < 256) w → base64_decode (base64_encode w) ≡ some w
unfolding base64_decode
base64_decode-base64_encode w h =
    rw (validate_encoded w h) (from_encoded (length (base64_encode w)) w h (omega arith))
