-- ===== src/Mime/Header.antt =====
-- The fields of a MIME header in bogofilter/src/mime.c. A string is the bytes in front of its first
-- NUL, and a null `msg_state` or a null string that is read is `none`. `tolower` is that of the C
-- locale.
use bogofilter.Prelude.{
  Bool, Bytes, List, Option, [], codes, drop, false, get_or, if◌then◌else◌, leb, length, none, not,
  some, take, true, ℕ, ◌&&◌, ◌+◌, ◌==◌, ◌||◌, ◌∷◌,
}
use bogofilter.WordLists.{same_bytes}
use bogofilter.Mime.{
  MimeType, MimeEncoding, MimeDisposition, MimePart, mime_type_unknown, mime_multipart,
  mime_message, mime_text, mime_text_plain, mime_text_html, mime_application, mime_image,
  mime_audio, mime_video, mime_encoding_unknown, mime_7bit, mime_8bit, mime_binary, mime_qp,
  mime_base64, mime_uuencode, mime_disposition_unknown, mime_attachment, mime_inline,
}

-- `none` if only blanks are left.
unfoldable pub skipws : Bytes → Option Bytes
skipws [] = none
skipws (c ∷ t) = let rest = skipws t in if c == b' ' || c == b'\t' then rest else some (c ∷ t)

-- The bytes in front of a quote, or in front of a blank.
unfoldable pub word_end : Bool → Bytes → Bytes
word_end quote [] = []
word_end quote (c ∷ t) =
    let rest = word_end quote t in
    if (if quote then not (c == b'"') else not (c == b' ') && not (c == b'\t'))
    then c ∷ rest
    else []

unfoldable pub getword : Bytes → Option Bytes
unfolding skipws word_end
getword t = elim (skipws t) [
  | none ↦ none
  | some u ↦ some (if get_or u 0 0 == b'"' then word_end true (drop 1 u) else word_end false u)
]

-- The string that the bytes begin with.
unfoldable pub c_string : Bytes → Bytes
c_string [] = []
c_string (c ∷ t) = let rest = c_string t in if c == 0 then [] else c ∷ rest

abbrev pub tolower : ℕ → ℕ
tolower c = if leb b'A' c && leb c b'Z' then c + 32 else c

unfoldable pub lower : Bytes → Bytes
lower [] = []
lower (c ∷ t) = tolower c ∷ lower t

-- `strcasecmp(w, name) == 0`, and `strncasecmp(w, name, strlen(name)) == 0`
unfoldable pub same_nocase : Bytes → Bytes → Bool
unfolding c_string lower same_bytes
same_nocase w name = same_bytes (lower (c_string w)) (lower name)

unfoldable pub begins_nocase : Bytes → Bytes → Bool
unfolding c_string lower same_bytes
begins_nocase w name = same_bytes (lower (take (length name) (c_string w))) (lower name)

-- The first entry of a table whose name passes the test.
pub first_match : {A : Type 0} → (Bytes → Bool) → A → List (A × Bytes) → A
first_match test unknown [] = unknown
first_match test unknown ((a, name) ∷ table) =
    let rest = first_match test unknown table in if test name then a else rest

abbrev pub mime_type_table : List (MimeType × Bytes)
mime_type_table =
    (mime_text_html, codes "text/html")
    ∷ (mime_text_plain, codes "text/plain")
    ∷ (mime_text, codes "text")
    ∷ (mime_application, codes "application/")
    ∷ (mime_message, codes "message/")
    ∷ (mime_multipart, codes "multipart/")
    ∷ (mime_image, codes "image/")
    ∷ (mime_audio, codes "audio/")
    ∷ (mime_video, codes "video/")
    ∷ []

abbrev pub mime_encoding_table : List (MimeEncoding × Bytes)
mime_encoding_table =
    (mime_7bit, codes "7BIT")
    ∷ (mime_8bit, codes "8BIT")
    ∷ (mime_binary, codes "BINARY")
    ∷ (mime_qp, codes "QUOTED-PRINTABLE")
    ∷ (mime_base64, codes "BASE64")
    ∷ (mime_uuencode, codes "X-UUENCODE")
    ∷ []

abbrev pub mime_disposition_table : List (MimeDisposition × Bytes)
mime_disposition_table = (mime_inline, codes "inline") ∷ (mime_attachment, codes "attachment") ∷ []

-- A change of `msg_state`.
unfoldable pub with_top : (MimePart → MimePart) → List MimePart → Option (List MimePart)
with_top f [] = none
with_top f (p ∷ parents) = some (f p ∷ parents)

-- The word behind a header's name; nothing changes without one.
unfoldable pub with_word :
    ℕ → Bytes → (Bytes → MimePart → MimePart) → List MimePart → Option (List MimePart)
unfolding getword with_top
with_word l text f stack = elim (getword (drop l text)) [
  | none ↦ some stack
  | some w ↦ with_top (f w) stack
]

unfoldable pub mime_disposition_field : Bytes → List MimePart → Option (List MimePart)
unfolding with_word first_match same_nocase
mime_disposition_field text stack =
    with_word (length (codes "Content-Disposition:")) text
      (λ w p. record p {
        mime_disposition =
            first_match (same_nocase w) mime_disposition_unknown mime_disposition_table;
      })
      stack

unfoldable pub mime_encoding_field : Bytes → List MimePart → Option (List MimePart)
unfolding with_word first_match same_nocase
mime_encoding_field text stack =
    with_word (length (codes "Content-Transfer-Encoding:")) text
      (λ w p. record p {
        mime_encoding = first_match (same_nocase w) mime_encoding_unknown mime_encoding_table;
      })
      stack

-- The types whose parts are not decoded.
unfoldable pub dont_decode : MimeType → Bool
dont_decode mime_application = true
dont_decode mime_image = true
dont_decode mime_audio = true
dont_decode mime_video = true
dont_decode _ = false

unfoldable pub mime_type_field : Bytes → List MimePart → Option (List MimePart)
unfolding with_word first_match begins_nocase dont_decode
mime_type_field text stack =
    with_word (length (codes "Content-Type:")) text
      (λ w p.
        let type = first_match (begins_nocase w) mime_type_unknown mime_type_table in
        record p {
          mime_type = type;
          mime_dont_decode = if dont_decode type then true else p.mime_dont_decode;
        })
      stack

-- The tenth byte tells the three names apart.
unfoldable pub mime_content : Bytes → List MimePart → Option (List MimePart)
unfolding mime_disposition_field mime_encoding_field mime_type_field
mime_content text stack =
    let c = tolower (get_or text 9 0) in
    if c == b'r'
    then mime_encoding_field text stack
    else if c == b'y'
    then mime_type_field text stack
    else if c == b'i'
    then mime_disposition_field text stack
    else some stack

-- Without a word behind the `=`, `strlen` is called with a null pointer.
unfoldable pub mime_boundary_set : Bytes → List MimePart → Option (List MimePart)
unfolding getword with_top c_string
mime_boundary_set text stack = elim (getword (drop (length (codes "boundary=")) text)) [
  | none ↦ none
  | some w ↦
      with_top (λ p. record p { boundary = some (c_string w); boundary_len = length (c_string w) })
        stack
]

unfoldable pub get_content_type : List MimePart → Option MimeType
get_content_type [] = none
get_content_type (p ∷ parents) = some p.mime_type
