-- ===== src/Tests/Mail.antt =====
-- Stacks of MIME parts and the lines of a message.
use bogofilter.Decode.Bounds.{length-mime_decode}
use bogofilter.Decode.Encoded.{base64_encode, base64_decode-base64_encode}
use bogofilter.Decode.Base64.{mime_decode, base64_decode}
use bogofilter.Decode.Quoted.{quote, soft_lines, joined, qp_decode-quote}
use bogofilter.Decode.{rfc2045, rfc2047, qp_decode}
use bogofilter.Prelude.{
  All, Bytes, List, [], arith, codes, inr, length, refl, some, true, ◌++◌, ◌<◌, ◌∷◌, ◌≡◌, ◌≤◌, ◌⊎◌,
}
use bogofilter.Mime.{
  mime_reset, mime_add_child, is_mime_container, MimePart, mime_init, mime_multipart,
  got_mime_boundary,
}
use bogofilter.Mime.Header.{mime_boundary_set}
use bogofilter.Mime.Stack.{Ignored, Closes, got_mime_boundary-Closes, WellStacked}
use bogofilter.Mime.Boundary.{with_boundary, mime_boundary_set-got_mime_boundary}
use bogofilter.Mime.Reaches.{
  Reaches, starts, resets, adds, reads_line, Measured, Reaches-WellStacked,
}

abbrev outer_part : MimePart
outer_part = record (mime_init []) { mime_type = mime_multipart }

abbrev mark : Bytes
mark = codes "xyz"

abbrev in_mark : List MimePart
in_mark = with_boundary mark outer_part ∷ []

abbrev nested : List MimePart
nested = mime_init in_mark ∷ in_mark

got_mime_boundary-Closes_example :
    Ignored (codes "--xyz--") nested (got_mime_boundary (codes "--xyz--") nested)
    ⊎ Closes (codes "--xyz--") nested (got_mime_boundary (codes "--xyz--") nested)
unfolding mime_init
got_mime_boundary-Closes_example =
    got_mime_boundary-Closes (codes "--xyz--") nested (refl, (refl, tt))

mime_boundary_set-got_mime_boundary_example :
    (mime_boundary_set (codes "boundary=" ++ b'"' ∷ mark ++ b'"' ∷ []) (outer_part ∷ [])
      ≡ some (with_boundary mark outer_part ∷ []))
    × (got_mime_boundary (b'-' ∷ b'-' ∷ mark ++ b'\n' ∷ []) (with_boundary mark outer_part ∷ []) ≡ (
      true,
      mime_init (with_boundary mark outer_part ∷ []) ∷ with_boundary mark outer_part ∷ [],
    ))
    × (got_mime_boundary
          (b'-' ∷ b'-' ∷ mark ++ b'-' ∷ b'-' ∷ b'\n' ∷ [])
          (with_boundary mark outer_part ∷ [])
        ≡ (true, with_boundary mark outer_part ∷ []))
mime_boundary_set-got_mime_boundary_example =
    mime_boundary_set-got_mime_boundary mark (b'\n' ∷ []) outer_part []
      (
        (omega arith, omega arith, omega arith, omega arith),
        (
          (omega arith, omega arith, omega arith, omega arith),
          ((omega arith, omega arith, omega arith, omega arith), tt),
        ),
      )
      (omega arith) (inr refl, tt) (unfold is_mime_container in refl)

-- A message with a header that is read.
abbrev one_part : List MimePart
one_part = mime_add_child (mime_reset [])

one_part-Reaches : Reaches one_part
one_part-Reaches = adds (resets starts)

Reaches-WellStacked_example :
    WellStacked (got_mime_boundary (codes "--x") one_part).1
    × All Measured (got_mime_boundary (codes "--x") one_part).1
Reaches-WellStacked_example =
    Reaches-WellStacked (got_mime_boundary (codes "--x") one_part).1
      (reads_line (codes "--x") (adds (resets starts)))

length-mime_decode_example :
    (out : Bytes) × (mime_decode (codes "a=3D=\n") (outer_part ∷ []) ≡ some out)
    × (length out ≤ length (codes "a=3D=\n"))
length-mime_decode_example = length-mime_decode outer_part [] (codes "a=3D=\n")

abbrev some_bytes : Bytes
some_bytes = b'a' ∷ 255 ∷ 0 ∷ 61 ∷ []

some_bytes_lt : All (λ b. b < 256) some_bytes
some_bytes_lt = (omega arith, (omega arith, (omega arith, (omega arith, tt))))

qp_decode-quote_example :
    (qp_decode rfc2047 (quote some_bytes) ≡ some_bytes)
    × (qp_decode rfc2045 (soft_lines (b'\r' ∷ b'\n' ∷ []) (some_bytes ∷ mark ∷ []))
        ≡ joined (some_bytes ∷ mark ∷ []))
qp_decode-quote_example =
    qp_decode-quote rfc2047 (b'\r' ∷ b'\n' ∷ []) some_bytes (some_bytes ∷ mark ∷ []) (inr refl)
      some_bytes_lt (some_bytes_lt, ((omega arith, (omega arith, (omega arith, tt))), tt))

base64_decode-base64_encode_example : base64_decode (base64_encode some_bytes) ≡ some some_bytes
base64_decode-base64_encode_example = base64_decode-base64_encode some_bytes some_bytes_lt
