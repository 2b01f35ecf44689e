-- ===== src/Passthrough.antt =====
-- bogofilter/src/passthrough.c, the writing of a message: the file `fpo` is the text that was
-- written so far, and an error of it, which ends the program, is left out. The line for the header
-- and what `print_stats` writes are arguments; the lines of the message are the blocks of
-- bogofilter/src/textblock.c. The last place that `rf` gave stays in `out` when there is no more
-- block.
pub mod Lines
pub mod Skip
pub mod Line
pub mod Header
pub mod Follows
pub mod Loop
pub mod Message
use bogofilter.Prelude.{
  Bool, Bytes, List, Option, [], codes, drop, false, get_or, if◌then◌else◌, leb, length, ltb, none,
  not, some, suc, take, true, zero, ℕ, ◌&&◌, ◌++◌, ◌+◌, ◌-◌, ◌==◌, ◌>>=◌, ◌||◌, ◌∷◌,
}
use bogofilter.WordLists.{same_bytes}
use bogofilter.Mime.Header.{begins_nocase}
use bogofilter.Reader.{is_eol}

-- `rc_t`
pub data Rc : Type 0 where
  rc_spam rc_ham rc_unsure rc_ok rc_more : Rc

-- The options, and the variables that `write_message` reads.
pub record Options : Type 0 where
  pub passthrough : Bool
  pub verbose : ℕ
  pub terse : Bool
  pub rtable : Bool
  pub have_body : Bool
  pub spam_header_name : Bytes
  pub spam_header_place : Bytes
  pub spam_subject_tag : Option Bytes
  pub unsure_subject_tag : Option Bytes

abbrev pub nl : Bytes
nl = codes "\n"

abbrev pub crlf : Bytes
crlf = codes "\r\n"

-- `memcmp(text, name, strlen(name)) == 0`, where a shorter text ends with a NUL.
unfoldable pub begins : Bytes → Bytes → Bool
unfolding same_bytes
begins name text = same_bytes (take (length name) text) name

-- `memcmp(out + rd - strlen(end), end, strlen(end)) == 0`
unfoldable pub ends_with : Bytes → Bytes → Bool
unfolding same_bytes
ends_with end text = same_bytes (drop (length text - length end) text) end

-- `ISSPACE`, in the C locale.
abbrev pub is_space : ℕ → Bool
is_space ch = leb 9 ch && leb ch 13 || (ch == b' ' || ch == 8)

all_space : Bytes → Bool
all_space [] = true
all_space (ch ∷ line) = is_space ch && all_space line

unfoldable pub is_blank_line : Options → Bytes → Bool
unfolding all_space
is_blank_line o line = if o.have_body then length line == 0 else all_space line

unfoldable pub is_hb_delim : Options → Bytes → Bool → Bool
unfolding is_blank_line
is_hb_delim o line strict_body = if strict_body then length line == 0 else is_blank_line o line

-- The size, the place and the blocks that are left.
unfoldable pub read_mem : Bytes → List Bytes → ℕ × Bytes × List Bytes
read_mem out [] = (0, out, [])
read_mem out (text ∷ blocks) = (length text, text, blocks)

-- The variables of `write_header`, and `eol` of the file, where a null pointer is `none`.
pub record Writing : Type 0 where
  pub fpo : Bytes
  pub eol : Option Bytes
  pub out : Bytes
  pub text : List Bytes
  pub hadlf : Bool
  pub seen_subj : Bool
  pub seen_place_header : Bool

abbrev pub eol_or_nl : Option Bytes → Bytes
eol_or_nl none = nl
eol_or_nl (some e) = e

-- The space or the tab that a field goes on with.
abbrev pub is_folded : Bytes → Bool
is_folded out = get_or out 0 0 == b' ' || get_or out 0 0 == b'\t'

-- The inner loop over the lines that go on with the field.
unfoldable pub skip_folded : Bytes → List Bytes → ℕ × Bytes × List Bytes
skip_folded out [] = (0, out, [])
skip_folded out (line ∷ blocks) =
    let rest = skip_folded line blocks in
    if ltb 0 (length line) && is_folded line then rest else (length line, line, blocks)

-- The loop over the fields, on fuel.
unfoldable pub skip_fields : Bytes → ℕ → ℕ × Bytes × List Bytes → ℕ × Bytes × List Bytes
unfolding begins skip_folded
skip_fields name zero r = r
skip_fields name (suc n) (rd, out, blocks) =
    let rest = skip_fields name n (skip_folded out blocks) in
    if leb (length name) rd && begins name out then rest else (rd, out, blocks)

-- The end of line of the file, from a block that is read.
unfoldable pub set_eol : Option Bytes → Bytes → Option Bytes
unfolding ends_with
set_eol (some e) out = some e
set_eol none out =
    if leb 2 (length out) && ends_with crlf out
    then some crlf
    else if ends_with nl out
    then some nl
    else none

-- The tag for the subject.
unfoldable pub tag_of : Options → Rc → Option Bytes
tag_of o rc_spam = o.spam_subject_tag
tag_of o rc_unsure = o.unsure_subject_tag
tag_of o status = none

abbrev pub subject : Bytes
subject = codes "Subject:"

-- The line of the subject, with the tag in it.
unfoldable pub tagged : Bytes → Bytes → Bytes
tagged tag out =
    take 8 out
    ++ (codes " " ++ (tag ++ ((if get_or out 8 0 == b' ' then [] else codes " ") ++ drop 8 out)))

-- The tag that is put into the line, if any.
unfoldable pub subject_tag : Options → Rc → Bool → ℕ → Bytes → Option Bytes
unfolding tag_of
subject_tag o status seen rd out =
    if not seen && leb 8 rd
    then (if begins_nocase out subject then tag_of o status else none)
    else none

-- A line of the header is written.
unfoldable pub write_line : Option Bytes → Bytes → Writing → Writing
unfolding ends_with tagged
write_line (some tag) out w = record w { seen_subj = true; fpo = w.fpo ++ tagged tag out }
write_line none out w = record w { hadlf = ends_with nl out; fpo = w.fpo ++ out }

-- The line ends the header.
unfoldable pub ends_header : Options → ℕ → Bytes → Bool
unfolding is_eol is_hb_delim
ends_header o rd out = is_eol out (some rd) || is_hb_delim o (take rd out) o.have_body

-- The blocks of the body, and whether the last one ends a line.
unfoldable pub write_blocks : List Bytes → Bytes → Bool → Bytes × Bool
unfolding ends_with
write_blocks [] fpo hadlf = (fpo, hadlf)
write_blocks (out ∷ text) fpo hadlf =
    let rest = write_blocks text (fpo ++ out) (ends_with nl out) in
    if length out == 0 then (fpo, hadlf) else rest

unfoldable pub write_body : List Bytes → Bytes → Bytes → Bytes
unfolding write_blocks
write_body text eol fpo =
    let (fpo', hadlf) = write_blocks text (fpo ++ eol) true in if hadlf then fpo' else fpo' ++ eol

-- The subject for a message that has none.
unfoldable pub add_subject : Options → Rc → Writing → Bytes
unfolding tag_of
add_subject o status w = if w.seen_subj then w.fpo else elim (tag_of o status) [
  | none ↦ w.fpo
  | some tag ↦ w.fpo ++ (codes "Subject: " ++ (tag ++ eol_or_nl w.eol))
]

-- `header` is `msg_spam_header`, and `stats` what `print_stats` writes with so much verbosity.
module _ (o : Options) (header : Bytes) (stats : ℕ → Bytes) where
  unfoldable pub spam_info : Bytes → Bytes
  spam_info eol =
      (if o.passthrough || (ltb 0 o.verbose || o.terse) then header ++ eol else [])
      ++ (if o.passthrough || (ltb 0 o.verbose || o.rtable)
          then stats (if o.passthrough then o.verbose + 1 else o.verbose)
          else [])

  unfoldable pub write_spam_info : Writing → Writing
  unfolding spam_info
  write_spam_info w =
      let eol = eol_or_nl w.eol in record w { eol = some eol; fpo = w.fpo ++ spam_info eol }

  -- The line for which the place of the header is looked for.
  unfoldable pub write_place : Bytes → Writing → Writing
  unfolding begins write_spam_info
  write_place out w =
      if not w.seen_place_header
        && (ltb 0 (length o.spam_header_place) && begins o.spam_header_place out)
      then write_spam_info (record w { seen_place_header = true })
      else w

  -- What is done with the line that the loop over the fields stops at.
  unfoldable pub header_line : Rc → ℕ × Bytes × List Bytes → Writing → (Writing → Writing) → Writing
  unfolding write_place ends_header subject_tag write_line
  header_line status (rd, out, text) w next =
      let w' = write_place out (record w { out = out; text = text }) in
      if ends_header o rd out
      then w'
      else next (write_line (subject_tag o status w'.seen_subj rd out) out w')

  -- The loop over the lines of the header.
  unfoldable pub write_lines : Rc → ℕ → Writing → Writing
  unfolding read_mem skip_fields set_eol header_line
  write_lines status zero w = w
  write_lines status (suc n) w =
      let (rd, out, text) = read_mem w.out w.text in
      let after = skip_fields o.spam_header_name (suc (length text)) (rd, out, text) in
      let w' = record w { out = out; text = text; eol = set_eol w.eol out } in
      if rd == 0
      then record w { out = out; text = text }
      else header_line status after w' (λ w''. write_lines status n w'')

  unfoldable pub write_header : Rc → List Bytes → Bytes → Writing
  unfolding write_lines write_spam_info
  write_header status text fpo =
      let w = write_lines status (suc (length text)) (record {
        fpo = fpo;
        eol = none;
        out = [];
        text = text;
        hadlf = true;
        seen_subj = false;
        seen_place_header = false;
      }) in
      let w' = if w.seen_place_header then w else write_spam_info w in
      if w.hadlf then w' else record w' { fpo = w'.fpo ++ eol_or_nl w'.eol }

  -- Outside of passthrough mode the end of line is what the message before left in the variable.
  unfoldable pub write_message : Rc → Option Bytes → List Bytes → Bytes
  unfolding write_spam_info spam_info write_header add_subject write_body
  write_message status eol blocks =
      let w = write_header status blocks [] in
      if o.passthrough
      then write_body w.text (eol_or_nl w.eol) (add_subject o status w)
      else spam_info (eol_or_nl eol)
