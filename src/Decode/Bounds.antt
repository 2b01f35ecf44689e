-- ===== src/Decode/Bounds.antt =====
-- The lengths of what bogofilter/src/qp.c, uudecode.c, base64.c and mime_decode return.
use bogofilter.Mime.Header.{begins_nocase}
use bogofilter.Prelude.{
  Bool, Bool-cases, Bytes, List, Option, [], arith, codes, false, if◌then◌else◌, inl, inr, length,
  length-append, length-drop, ltb, not, refl, some, suc, true, zero, ℕ, ◌%◌, ◌++◌, ◌-◌, ◌/◌, ◌==◌,
  ◌^◌, ◌||◌, ◌∷◌, ◌≡◌, ◌≤◌,
}
use bogofilter.Decode.{QpMode, rfc2045, qp_step, qp_from, qp_decode, uu_from, uudecode, three_bytes}
use bogofilter.Decode.Base64.{
  skip_eols, read_group, group_bytes, base64_from, base64_decode, mime_decode, base64_validate,
}
use bogofilter.Mime.{
  MimePart, MimeEncoding, mime_encoding_unknown, mime_7bit, mime_8bit, mime_binary, mime_qp,
  mime_base64, mime_uuencode, mime_is_boundary,
}

length-qp_step : (mode : QpMode) (c : ℕ) (s : Bytes) → length (qp_step mode c s).0 ≤ 1
unfolding qp_step
length-qp_step mode c s = ground arith

length-qp_from : (mode : QpMode) (skip : ℕ) (s : Bytes) → length (qp_from mode skip s) ≤ length s
unfolding qp_from
length-qp_from mode skip [] = omega arith
length-qp_from mode (suc skip) (c ∷ s) = omega (arith, length-qp_from mode skip s)
length-qp_from mode zero (c ∷ s) = omega (
  arith,
  length-qp_step mode c s,
  length-qp_from mode (qp_step mode c s).1 s,
  length-append (qp_step mode c s).0 (qp_from mode (qp_step mode c s).1 s),
)

length-qp_decode : (text : Bytes) → length (qp_decode rfc2045 text) ≤ length text
unfolding qp_decode
length-qp_decode text = length-qp_from rfc2045 0 text

length-uu_from : (s : Bytes) → length (uu_from s) ≤ length s
unfolding uu_from three_bytes
length-uu_from [] = omega arith
length-uu_from (a ∷ []) = omega arith
length-uu_from (a ∷ b ∷ []) = omega arith
length-uu_from (a ∷ b ∷ c ∷ []) = omega arith
length-uu_from (a ∷ b ∷ c ∷ d ∷ []) = omega arith
length-uu_from (a ∷ b ∷ c ∷ d ∷ x ∷ s) = omega (arith, length-uu_from (x ∷ s))

length-if :
    (t : Bool) (a b : Bytes) (n : ℕ) → length a ≤ n → length b ≤ n → length (if t then a else b) ≤ n
length-if true a b n h k = h
length-if false a b n h k = k

length-uudecode : (s : Bytes) → length (uudecode s) ≤ length s
unfolding uudecode
length-uudecode [] = omega arith
length-uudecode (c ∷ s) =
    let all : length (c ∷ s) ≤ length (c ∷ s) = omega arith in
    let n = length (c ∷ s) in
    let special = begins_nocase (c ∷ s) (codes "begin ") || begins_nocase (c ∷ s) (codes "end") in
    let rest = length-if special (c ∷ s) (uu_from s) n all (omega (arith, length-uu_from s)) in
    length-if (ltb (c % 128) 32) (c ∷ s) (if special then c ∷ s else uu_from s) n all rest

skip_eols-le : (size : ℕ) (s : Bytes) → (skip_eols size s).0 ≤ size
unfolding skip_eols
skip_eols-le size [] = omega arith
skip_eols-le size (c ∷ s) = ground (arith, skip_eols-le (size - 1) s)

length-group_bytes : (shorten v : ℕ) → length (group_bytes shorten v) ≤ 3
unfolding group_bytes three_bytes
length-group_bytes shorten v =
    omega (arith, length-drop shorten (v / 2 ^ 16 % 256 ∷ v / 2 ^ 8 % 256 ∷ v % 256 ∷ []))

-- A result, and its bound.
abbrev pub Within : Option Bytes → ℕ → Type 0
Within o n = (out : Bytes) × (o ≡ some out) × (length out ≤ n)

base64_from-Within :
    (fuel size : ℕ) (s : Bytes) → size ≤ fuel → Within (base64_from fuel size s) size
unfolding base64_from
base64_from-Within zero size s h =
    let e : (size == 0) ≡ true = ground arith in ([], rw e refl, omega arith)
base64_from-Within (suc fuel) size s h =
    let size' = (skip_eols size s).0 in
    let g = read_group 4 0 (skip_eols size s).1 in
    let le = skip_eols-le size s in
    let (out, e, n) = base64_from-Within fuel (size' - 4) g.2 (omega arith) in
    elim (Bool-cases (size == 0)) [
      | inl z ↦ ([], rw z refl, omega arith)
      | inr z ↦ elim (Bool-cases (ltb size' 4)) [
        | inl lt ↦ ([], rw (z, lt) refl, omega arith)
        | inr lt ↦ (
          group_bytes g.1 g.0 ++ out,
          rw (z, lt, e) refl,
          (let ge : 4 ≤ size' = ground arith in
              omega (arith, length-append (group_bytes g.1 g.0) out, length-group_bytes g.1 g.0)),
        )
      ]
    ]

base64_decode-Within : (text : Bytes) → Within (base64_decode text) (length text)
unfolding base64_decode
base64_decode-Within text = elim (Bool-cases (base64_validate text)) [
  | inl e ↦ rw e (base64_from-Within (length text) (length text) text (omega arith))
  | inr e ↦ rw e (text, refl, omega arith)
]

if-Within :
    (t : Bool) (o o' : Option Bytes) (n : ℕ)
    → Within o n
    → Within o' n
    → Within (if t then o else o') n
if-Within true o o' n h k = h
if-Within false o o' n h k = k

some-Within : (out : Bytes) (n : ℕ) → length out ≤ n → Within (some out) n
some-Within out n h = (out, refl, h)

by_encoding :
    (p : MimePart) (encoding : MimeEncoding) (parents : List MimePart) (text : Bytes)
    → Within (mime_decode text (record p { mime_encoding = encoding } ∷ parents)) (length text)
unfolding mime_decode
by_encoding p mime_qp parents text =
    let b = mime_is_boundary text (record p { mime_encoding = mime_qp } ∷ parents) in
    some-Within (if b then text else qp_decode rfc2045 text) (length text) (
      length-if b text (qp_decode rfc2045 text) (length text) (omega arith) (length-qp_decode text))
by_encoding p mime_uuencode parents text =
    let b = mime_is_boundary text (record p { mime_encoding = mime_uuencode } ∷ parents) in
    some-Within (if b then text else uudecode text) (length text)
      (length-if b text (uudecode text) (length text) (omega arith) (length-uudecode text))
by_encoding p mime_base64 parents text =
    let b = mime_is_boundary text (record p { mime_encoding = mime_base64 } ∷ parents) in
    if-Within (b || not (ltb 4 (length text))) (some text) (base64_decode text) (length text)
      (some-Within text (length text) (omega arith)) (base64_decode-Within text)
by_encoding p mime_encoding_unknown parents text = some-Within text (length text) (omega arith)
by_encoding p mime_7bit parents text = some-Within text (length text) (omega arith)
by_encoding p mime_8bit parents text = some-Within text (length text) (omega arith)
by_encoding p mime_binary parents text = some-Within text (length text) (omega arith)

-- Inside any part, `mime_decode` returns, in every encoding and for every text, valid or not, and the
-- bytes that it counts are no more than those of the text that it wrote them to.
pub length-mime_decode :
    (p : MimePart) (parents : List MimePart) (text : Bytes)
    → (out : Bytes) × (mime_decode text (p ∷ parents) ≡ some out) × (length out ≤ length text)
length-mime_decode p parents text = by_encoding p p.mime_encoding parents text
