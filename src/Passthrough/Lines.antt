-- ===== src/Passthrough/Lines.antt =====
-- What bogofilter/src/passthrough.c should write, from the lines of the header.
use bogofilter.Prelude.{
  Bool, Bytes, List, Option, [], arith, codes, concat, false, if◌then◌else◌, leb, length, ltb, none,
  not, refl, some, true, ◌&&◌, ◌++◌, ◌||◌, ◌∷◌, ◌≡◌,
}
use bogofilter.Passthrough.{begins, is_folded, ends_with, crlf, nl, tagged, subject}
use bogofilter.Mime.Header.{begins_nocase}

-- The lines without the fields of the name; the flag says that such a field stands in front.
unfoldable pub without : Bytes → Bool → List Bytes → List Bytes
unfolding begins
without name inside [] = []
without name inside (line ∷ lines) =
    if begins name line || inside && is_folded line
    then without name true lines
    else line ∷ without name false lines

-- Each line with what is written for it: the first subject has the tag.
unfoldable pub tag_subject : Option Bytes → List Bytes → List (Bytes × Bytes)
unfolding tagged
tag_subject none [] = []
tag_subject (some tag) [] = []
tag_subject none (line ∷ lines) = (line, line) ∷ tag_subject none lines
tag_subject (some tag) (line ∷ lines) =
    if begins_nocase line subject
    then (line, tagged tag line) ∷ tag_subject none lines
    else (line, line) ∷ tag_subject (some tag) lines

unfoldable pub written : List (Bytes × Bytes) → Bytes
written [] = []
written ((line, text) ∷ lines) = text ++ written lines

-- The text in front of the first line that begins with the place, or behind all lines.
unfoldable pub insert_info : Bytes → Bytes → List (Bytes × Bytes) → Bytes
unfolding begins written
insert_info place info [] = info
insert_info place info ((line, text) ∷ lines) =
    if ltb 0 (length place) && begins place line
    then info ++ (text ++ written lines)
    else text ++ insert_info place info lines

-- A line of the header has the subject.
unfoldable pub has_subject : List Bytes → Bool
has_subject [] = false
has_subject (line ∷ lines) = begins_nocase line subject || has_subject lines

-- The end of line of the first line.
unfoldable pub first_eol : List Bytes → Bytes
unfolding ends_with
first_eol [] = nl
first_eol (line ∷ lines) = if leb 2 (length line) && ends_with crlf line then crlf else nl

-- The same, where the text may have been written before, and the tag may have been used.
unfoldable pub remaining : Bytes → Bytes → Option Bytes → Bool → Bool → List Bytes → Bytes
unfolding insert_info tag_subject written
remaining place info tag placed seen lines =
    let texts = tag_subject (if seen then none else tag) lines in
    if placed then written texts else insert_info place info texts

-- The place is at the line.
abbrev pub is_placed : Bytes → Bool → Bytes → Bool
is_placed place placed line = not placed && (ltb 0 (length place) && begins place line)

-- The tag for the line.
abbrev pub line_tag : Option Bytes → Bool → Bytes → Option Bytes
line_tag tag seen line =
    if not seen then (if begins_nocase line subject then tag else none) else none

abbrev pub is_some : Option Bytes → Bool
is_some none = false
is_some (some tag) = true

unfoldable pub render : Option Bytes → Bytes → Bytes
unfolding tagged
render none line = line
render (some tag) line = tagged tag line

pub remaining_step :
    (place info : Bytes) (tag : Option Bytes) (placed seen : Bool) (line : Bytes)
    (lines : List Bytes)
    → remaining place info tag placed seen (line ∷ lines)
      ≡ (if is_placed place placed line then info else [])
        ++ (render (line_tag tag seen line) line
            ++ remaining place info tag
                (placed || is_placed place placed line)
                (seen || is_some (line_tag tag seen line))
                lines)
unfolding remaining insert_info tag_subject written render
remaining_step place info none true true line lines = refl
remaining_step place info none true false line lines = ground arith
remaining_step place info none false true line lines = ground arith
remaining_step place info none false false line lines = ground arith
remaining_step place info (some tag) true true line lines = refl
remaining_step place info (some tag) true false line lines = ground arith
remaining_step place info (some tag) false true line lines = ground arith
remaining_step place info (some tag) false false line lines = ground arith

tag_subject-nil : (tag : Option Bytes) → tag_subject tag [] ≡ []
unfolding tag_subject
tag_subject-nil none = refl
tag_subject-nil (some tag) = refl

pub remaining_nil :
    (place info : Bytes) (tag : Option Bytes) (placed seen : Bool)
    → remaining place info tag placed seen [] ≡ (if placed then [] else info)
unfolding remaining
remaining_nil place info tag placed seen =
    rw (tag_subject-nil (if seen then none else tag)) (unfold written insert_info in refl)

-- A line keeps the account of the subject.
pub has_subject_step :
    (tag : Option Bytes) (seen : Bool) (line : Bytes) (lines : List Bytes)
    → ((seen || is_some (line_tag tag seen line)) || (is_some tag && has_subject lines))
      ≡ (seen || (is_some tag && has_subject (line ∷ lines)))
unfolding has_subject
has_subject_step none seen line lines = ground arith
has_subject_step (some tag) true line lines = refl
has_subject_step (some tag) false line lines = ground arith

-- The subject that is added to a header without one.
unfoldable pub missing_subject : Option Bytes → Bytes → List Bytes → Bytes
unfolding has_subject
missing_subject none e lines = []
missing_subject (some tag) e lines =
    if has_subject lines then [] else codes "Subject: " ++ (tag ++ e)

-- The last line of the body ends; the flag stands for an empty body.
unfoldable pub last_ends : Bool → List Bytes → Bool
unfolding ends_with
last_ends ended [] = ended
last_ends ended (line ∷ lines) = last_ends (ends_with nl line) lines

-- The body as it is, with an end for its last line.
unfoldable pub body_text : Bytes → List Bytes → Bytes
unfolding last_ends
body_text e lines = concat lines ++ (if last_ends true lines then [] else e)

pub remaining_start :
    (place info : Bytes) (tag : Option Bytes) (lines : List Bytes)
    → remaining place info tag false false lines ≡ insert_info place info (tag_subject tag lines)
unfolding remaining
remaining_start place info tag lines = refl
