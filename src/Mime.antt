-- ===== src/Mime.antt =====
-- bogofilter/src/mime.c: the stack of MIME parts that the lexer is in. The stack is the list of the
-- parts from `msg_state` to the outermost one, along `parent`; `mime_stack_bot` is its first part.
-- A null pointer that is followed is `none`.
pub mod Stack
pub mod Header
pub mod Boundary
pub mod Reaches
use bogofilter.Prelude.{
  Bool, Bytes, List, Option, [], codes, drop, false, get_or, if◌then◌else◌, leb, length, ltb, none,
  some, suc, take, true, zero, ℕ, ◌&&◌, ◌+◌, ◌==◌, ◌||◌, ◌∷◌,
}
use bogofilter.WordLists.{same_bytes}

-- `enum mimetype`, `enum mimeencoding` and `enum mimedisposition`
pub data MimeType : Type 0 where
  mime_type_unknown mime_multipart mime_message mime_text mime_text_plain : MimeType
  mime_text_html mime_application mime_image mime_audio mime_video : MimeType

pub data MimeEncoding : Type 0 where
  mime_encoding_unknown mime_7bit mime_8bit mime_binary mime_qp mime_base64 : MimeEncoding
  mime_uuencode : MimeEncoding

pub data MimeDisposition : Type 0 where
  mime_disposition_unknown mime_attachment mime_inline : MimeDisposition

-- `mime_t`, without the two links
pub record MimePart : Type 0 where
  pub depth : ℕ
  pub charset : Bytes
  pub boundary : Option Bytes
  pub boundary_len : ℕ
  pub mime_type : MimeType
  pub mime_dont_decode : Bool
  pub mime_encoding : MimeEncoding
  pub mime_disposition : MimeDisposition

unfoldable pub mime_init : List MimePart → MimePart
mime_init parent = record {
  mime_type = mime_text;
  mime_encoding = mime_7bit;
  boundary = none;
  boundary_len = 0;
  charset = codes "US-ASCII";
  depth = elim parent [ [] ↦ 0 | p ∷ _ ↦ p.depth + 1 ];
  mime_dont_decode = false;
  mime_disposition = mime_disposition_unknown;
}

-- A part that is not an ancestor of the new one is off the stack from now on.
unfoldable pub mime_push : List MimePart → List MimePart
unfolding mime_init
mime_push parent = mime_init parent ∷ parent

-- On an empty stack there is only a message.
unfoldable pub mime_pop : List MimePart → List MimePart
mime_pop [] = []
mime_pop (p ∷ parents) = parents

-- All parts are popped, and the pointers are cleared.
unfoldable pub mime_cleanup : List MimePart → List MimePart
mime_cleanup stack = []

unfoldable pub mime_reset : List MimePart → List MimePart
unfolding mime_cleanup mime_push
mime_reset stack = mime_push (mime_cleanup stack)

unfoldable pub mime_add_child : List MimePart → List MimePart
unfolding mime_push
mime_add_child parent = mime_push parent

is_container_type : MimeType → Bool
is_container_type mime_message = true
is_container_type mime_multipart = true
is_container_type _ = false

unfoldable pub is_mime_container : MimePart → Bool
unfolding is_container_type
is_mime_container m = is_container_type m.mime_type

-- The byte behind the line is 0.
unfoldable pub is_final_boundary : Bytes → ℕ → ℕ → Bool
is_final_boundary ins inlen blen =
    leb 5 inlen
    && leb (blen + 2) inlen
    && get_or ins 0 0 == b'-'
    && get_or ins 1 0 == b'-'
    && get_or ins (blen + 2) 0 == b'-'
    && get_or ins (blen + 3) 0 == b'-'

-- The length without the end of the line.
pub strip_eol : Bytes → ℕ → ℕ
strip_eol buf zero = zero
strip_eol buf (suc n) =
    let rest = strip_eol buf n in
    let c = get_or buf n 0 in if ltb 2 (suc n) && (c == b'\r' || c == b'\n') then rest else suc n

-- The test of one part, for a line of `blen` bytes.
unfoldable pub matches : Bytes → ℕ → MimePart → Bool
unfolding is_mime_container same_bytes
matches buf blen p = elim p.boundary [
  | none ↦ false
  | some boundary ↦
      is_mime_container p
      && (p.boundary_len + 2 == blen || p.boundary_len + 4 == blen)
      && same_bytes (take p.boundary_len boundary) (take p.boundary_len (drop 2 buf))
]

-- `boundary_t` of a valid boundary.
pub record BoundaryProps : Type 0 where
  pub depth : ℕ
  pub is_final : Bool

unfoldable pub find_boundary : Bytes → ℕ → List MimePart → Option BoundaryProps
unfolding matches is_final_boundary
find_boundary buf blen [] = none
find_boundary buf blen (p ∷ parents) =
    let rest = find_boundary buf blen parents in
    if matches buf blen p
    then some (record { depth = p.depth; is_final = is_final_boundary buf blen p.boundary_len })
    else rest

-- `none` is a line that is not valid.
unfoldable pub get_boundary_props : Bytes → List MimePart → Option BoundaryProps
unfolding strip_eol find_boundary
get_boundary_props buf stack =
    let blen = length buf in
    if ltb 2 blen && get_or buf 0 0 == b'-' && get_or buf 1 0 == b'-'
    then find_boundary buf (strip_eol buf blen) stack
    else none

unfoldable pub mime_is_boundary : Bytes → List MimePart → Bool
unfolding get_boundary_props
mime_is_boundary buf stack = elim (get_boundary_props buf stack) [ none ↦ false | some _ ↦ true ]

-- The loop that pops down to a depth.
unfoldable pub pop_to : ℕ → List MimePart → List MimePart
pop_to depth [] = []
pop_to depth (p ∷ parents) =
    let rest = pop_to depth parents in if ltb depth p.depth then rest else p ∷ parents

-- The part for what follows a boundary. Its parent is `msg_state` if that is a container or has no
-- parent, and the parent of `msg_state` otherwise.
unfoldable pub push_next : List MimePart → List MimePart
unfolding mime_push is_mime_container
push_next [] = mime_push []
push_next (p ∷ []) = mime_push (p ∷ [])
push_next (p ∷ q ∷ parents) =
    mime_push (if is_mime_container p then p ∷ q ∷ parents else q ∷ parents)

unfoldable pub got_mime_boundary : Bytes → List MimePart → Bool × List MimePart
unfolding get_boundary_props pop_to push_next
got_mime_boundary buf stack = elim (get_boundary_props buf stack) [
  | none ↦ (false, stack)
  | some b ↦
      let popped = pop_to b.depth stack in (true, if b.is_final then popped else push_next popped)
]
