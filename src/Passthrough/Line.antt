-- ===== src/Passthrough/Line.antt =====
-- One line of a header that bogofilter/src/passthrough.c writes, with the header before it where
-- its place is.
use bogofilter.Prelude.{
  Bool, Bool-cases, Bytes, List, Option, [], ap, append-nil, append_assoc, arith, false,
  if◌then◌else◌, inl, inr, length, length-take, none, refl, some, suc, sym, take, true, ℕ, ◌++◌,
  ◌||◌, ◌∷◌, ◌≡◌, ◌≤◌,
}
use bogofilter.Mime.Header.{begins_nocase, c_string, lower}
use bogofilter.WordLists.SameBytes.{same_bytes_sound}
use bogofilter.Passthrough.{
  Options, Rc, Writing, nl, ends_with, eol_or_nl, set_eol, tag_of, subject, tagged, subject_tag,
  write_line, spam_info, write_spam_info, write_place, ends_header, header_line,
}
use bogofilter.Passthrough.Lines.{first_eol, is_placed, line_tag, is_some, render}

length-c_string : (w : Bytes) → length (c_string w) ≤ length w
unfolding c_string
length-c_string [] = omega arith
length-c_string (c ∷ w) = ground (arith, length-c_string w)

length-lower : (w : Bytes) → length (lower w) ≡ length w
unfolding lower
length-lower [] = refl
length-lower (c ∷ w) = ap suc (length-lower w)

-- A line with the subject is long enough.
subject-length : (line : Bytes) → begins_nocase line subject ≡ true → 8 ≤ length line
unfolding begins_nocase
subject-length line h =
    let e = same_bytes_sound (lower (take 8 (c_string line))) (lower subject) h in
    omega (
      arith,
      ap length e,
      length-lower (take 8 (c_string line)),
      length-lower subject,
      length-take 8 (c_string line),
      length-c_string line,
    )

subject_tag_lem :
    (o : Options) (status : Rc) (seen : Bool) (line : Bytes)
    → subject_tag o status seen (length line) line ≡ line_tag (tag_of o status) seen line
unfolding subject_tag
subject_tag_lem o status seen line = elim (Bool-cases (begins_nocase line subject)) [
  | inl e ↦ ground (arith, e, subject-length line e)
  | inr e ↦ ground (arith, e)
]

pub or_true : (b : Bool) → true ≡ (b || true)
or_true true = refl
or_true false = refl

pub or_false : (b : Bool) → b ≡ (b || false)
or_false true = refl
or_false false = refl

pub set_eol-some :
    (e : Option Bytes) (line : Bytes)
    → ends_with nl line ≡ true
    → set_eol e line ≡ some (eol_or_nl (set_eol e line))
unfolding set_eol
set_eol-some none line h = ground (arith, h)
set_eol-some (some e) line h = refl

-- The end of line that the file has, or that its first block will give.
unfoldable pub eol_for : Option Bytes → List Bytes → Bytes
unfolding first_eol
eol_for none lines = first_eol lines
eol_for (some e) lines = e

pub eol_for_start : (lines : List Bytes) → eol_for none lines ≡ first_eol lines
unfolding eol_for
eol_for_start lines = refl

pub set_eol_lem :
    (e : Option Bytes) (line : Bytes) (lines : List Bytes)
    → eol_or_nl (set_eol e line) ≡ eol_for e (line ∷ lines)
unfolding set_eol eol_for
set_eol_lem none line lines = ground arith
set_eol_lem (some e) line lines = refl

module _ (o : Options) (header : Bytes) (stats : ℕ → Bytes) (status : Rc) where
  -- A line that is written.
  pub line_done : Bytes → Writing → Writing
  line_done line w =
      let w' = write_place o header stats line w in
      write_line (subject_tag o status w'.seen_subj (length line) line) line w'

  pub record Done (e line : Bytes) (w w' : Writing) : Type 0 where
    pub fpo_lem :
        w'.fpo
        ≡ w.fpo
          ++ ((if is_placed o.spam_header_place w.seen_place_header line
                then spam_info o header stats e
                else [])
              ++ render (line_tag (tag_of o status) w.seen_subj line) line)
    pub eol_lem : w'.eol ≡ some e
    pub text_lem : w'.text ≡ w.text
    pub hadlf_lem : w'.hadlf ≡ true
    pub place_lem :
        w'.seen_place_header
        ≡ (w.seen_place_header || is_placed o.spam_header_place w.seen_place_header line)
    pub subj_lem :
        w'.seen_subj ≡ (w.seen_subj || is_some (line_tag (tag_of o status) w.seen_subj line))

  -- What is done for the place of the header.
  unfoldable pub place_done : Bool → Bytes → Writing → Writing
  place_done placed e w = record w {
    fpo = w.fpo ++ (if placed then spam_info o header stats e else []);
    eol = if placed then some e else w.eol;
    seen_place_header = w.seen_place_header || placed;
  }

  place_cases :
      (placed : Bool) (e : Bytes) (w : Writing)
      → eol_or_nl w.eol ≡ e
      → (if placed
          then write_spam_info o header stats (record w { seen_place_header = true })
          else w)
        ≡ place_done placed e w
  unfolding place_done write_spam_info
  place_cases true e w k i = record w {
    fpo = w.fpo ++ spam_info o header stats (k i);
    eol = some (k i);
    seen_place_header = or_true w.seen_place_header i;
  }
  place_cases false e w k i = record w {
    fpo = sym (append-nil w.fpo) i;
    seen_place_header = or_false w.seen_place_header i;
  }

  pub write_place_lem :
      (e line : Bytes) (w : Writing)
      → eol_or_nl w.eol ≡ e
      → write_place o header stats line w
        ≡ place_done (is_placed o.spam_header_place w.seen_place_header line) e w
  unfolding write_place
  write_place_lem e line w k =
      place_cases (is_placed o.spam_header_place w.seen_place_header line) e w k

  pub place_done-eol :
      (placed : Bool) (e : Bytes) (w : Writing)
      → w.eol ≡ some e
      → (place_done placed e w).eol ≡ some e
  unfolding place_done
  place_done-eol true e w k = refl
  place_done-eol false e w k = k

  write_line-Done :
      (tag : Option Bytes) (placed : Bool) (e line : Bytes) (w : Writing)
      → w.eol ≡ some e
      → w.hadlf ≡ true
      → ends_with nl line ≡ true
      → ((write_line tag line (place_done placed e w)).fpo
          ≡ w.fpo ++ ((if placed then spam_info o header stats e else []) ++ render tag line))
        × ((write_line tag line (place_done placed e w)).eol ≡ some e)
        × ((write_line tag line (place_done placed e w)).text ≡ w.text)
        × ((write_line tag line (place_done placed e w)).hadlf ≡ true)
        × ((write_line tag line (place_done placed e w)).seen_place_header
            ≡ (w.seen_place_header || placed))
        × ((write_line tag line (place_done placed e w)).seen_subj ≡ (w.seen_subj || is_some tag))
  unfolding write_line place_done render
  write_line-Done none placed e line w k h l =
      (append_assoc w.fpo _ line, place_done-eol placed e w k, refl, l, refl, or_false w.seen_subj)
  write_line-Done (some tag) placed e line w k h l = (
    append_assoc w.fpo _ (tagged tag line),
    place_done-eol placed e w k,
    refl,
    h,
    refl,
    or_true w.seen_subj,
  )

  place_done_subj :
      (placed : Bool) (e : Bytes) (w : Writing) (line : Bytes)
      → subject_tag o status (place_done placed e w).seen_subj (length line) line
        ≡ line_tag (tag_of o status) w.seen_subj line
  unfolding place_done
  place_done_subj placed e w line = subject_tag_lem o status w.seen_subj line

  pub line-Done :
      (e line : Bytes) (w : Writing)
      → w.eol ≡ some e
      → w.hadlf ≡ true
      → ends_with nl line ≡ true
      → Done e line w (line_done line w)
  unfolding line_done
  line-Done e line w k h l =
      let placed = is_placed o.spam_header_place w.seen_place_header line in
      let p = write_line-Done (line_tag (tag_of o status) w.seen_subj line) placed e line w k h l in
      let d : line_done line w
          ≡ write_line (line_tag (tag_of o status) w.seen_subj line) line (place_done placed e w) =
        rw (write_place_lem e line w (ap eol_or_nl k))
          (ap (λ t. write_line t line (place_done placed e w)) (place_done_subj placed e w line)) in
      rw d (record {
        fpo_lem = p.0;
        eol_lem = p.1;
        text_lem = p.2;
        hadlf_lem = p.3;
        place_lem = p.4;
        subj_lem = p.5;
      })

  -- A line that is written, and what comes after it.
  pub go_on :
      (e line : Bytes) (text : List Bytes) (w : Writing) (next : Writing → Writing)
      → ends_header o (length line) line ≡ false
      → header_line o header stats status (length line, line, text) w next
        ≡ next (line_done line (record w { out = line; text = text }))
  unfolding header_line line_done
  go_on e line text w next end = rw end refl
