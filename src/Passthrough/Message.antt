-- ===== src/Passthrough/Message.antt =====
-- What `write_message` of bogofilter/src/passthrough.c writes for a message.
use bogofilter.Prelude.{
  All, Bool, Bytes, List, Option, [], ap, append-nil, append_assoc, arith, codes, concat, false,
  if◌then◌else◌, length, none, refl, some, suc, sym, true, ℕ, ◌&&◌, ◌++◌, ◌<◌, ◌∙◌, ◌∷◌, ◌≡◌,
}
use bogofilter.Passthrough.{
  Options, Rc, Writing, tag_of, eol_or_nl, spam_info, write_spam_info, write_lines, write_header,
  write_blocks, write_body, add_subject, write_message, ends_with, nl,
}
use bogofilter.Passthrough.Lines.{
  without, tag_subject, insert_info, has_subject, is_some, first_eol, missing_subject, last_ends,
  body_text, remaining_start,
}
use bogofilter.Passthrough.Skip.{NonEmpty}
use bogofilter.Passthrough.Header.{finish}
use bogofilter.Passthrough.Line.{eol_for_start}
use bogofilter.Passthrough.Loop.{runs}
use bogofilter.Passthrough.Follows.{Apart, Follows, IsEnded, IsWithin, positive}

-- The message, as it should be written.
unfoldable pub passed : Options → Bytes → (ℕ → Bytes) → Rc → List Bytes → List Bytes → Bytes → Bytes
unfolding tag_of spam_info without tag_subject insert_info missing_subject body_text
passed o header stats status lines body e =
    let kept = without o.spam_header_name false lines in
    insert_info o.spam_header_place (spam_info o header stats e)
      (tag_subject (tag_of o status) kept)
    ++ (missing_subject (tag_of o status) e kept ++ (e ++ body_text e body))

-- The variables at the beginning of `write_header`.
abbrev start : List Bytes → Writing
start text = record {
  fpo = [];
  eol = none;
  out = [];
  text = text;
  hadlf = true;
  seen_subj = false;
  seen_place_header = false;
}

blocks_cons :
    (text : List Bytes) (fpo out : Bytes) (b : Bool)
    → ◌≡◌ {A = Bytes × Bool} ((fpo ++ out) ++ concat text, b) (fpo ++ (out ++ concat text), b)
blocks_cons text fpo out b i = (append_assoc fpo out (concat text) i, b)

blocks_lem :
    (text : List Bytes) (fpo : Bytes) (hadlf : Bool)
    → All NonEmpty text
    → write_blocks text fpo hadlf ≡ (fpo ++ concat text, last_ends hadlf text)
unfolding write_blocks last_ends
blocks_lem [] fpo hadlf h = λ i. (sym (append-nil fpo) i, hadlf)
blocks_lem (out ∷ text) fpo hadlf h = rw (positive (length out) h.0) (
    blocks_lem text (fpo ++ out) (ends_with nl out) h.1
    ∙ blocks_cons text fpo out (last_ends (ends_with nl out) text))

close_lem :
    (b : Bool) (fpo e t : Bytes)
    → (if b then (fpo ++ e) ++ t else ((fpo ++ e) ++ t) ++ e)
      ≡ fpo ++ (e ++ (t ++ (if b then [] else e)))
close_lem true fpo e t = ground (arith, append_assoc fpo e t, append-nil t)
close_lem false fpo e t = ground (arith, append_assoc (fpo ++ e) t e, append_assoc fpo e (t ++ e))

body_lem :
    (text : List Bytes) (e fpo : Bytes)
    → All NonEmpty text
    → write_body text e fpo ≡ fpo ++ (e ++ body_text e text)
unfolding write_body body_text
body_lem text e fpo h =
    rw (blocks_lem text (fpo ++ e) true h) (close_lem (last_ends true text) fpo e (concat text))

subject_cases :
    (tag : Option Bytes) (seen : Bool) (fpo e : Bytes) (eol : Option Bytes) (lines : List Bytes)
    → eol ≡ some e
    → seen ≡ (is_some tag && has_subject lines)
    → (if seen then fpo else elim tag [
      | none ↦ fpo
      | some tag ↦ fpo ++ (codes "Subject: " ++ (tag ++ eol_or_nl eol))
    ])
      ≡ fpo ++ missing_subject tag e lines
unfolding missing_subject
subject_cases none seen fpo e eol lines k s = ground (arith, append-nil fpo)
subject_cases (some tag) seen fpo e eol lines k s = rw (k, s) (ground (arith, append-nil fpo))

module _ (o : Options) (header : Bytes) (stats : ℕ → Bytes) (status : Rc) where
  subject_lem :
      (w : Writing) (e : Bytes) (lines : List Bytes)
      → w.eol ≡ some e
      → w.seen_subj ≡ (is_some (tag_of o status) && has_subject lines)
      → add_subject o status w ≡ w.fpo ++ missing_subject (tag_of o status) e lines
  unfolding add_subject
  subject_lem w e lines k s = subject_cases (tag_of o status) w.seen_subj w.fpo e w.eol lines k s

  finish_text : (w : Writing) → (finish o header stats status w).text ≡ w.text
  unfolding finish write_spam_info
  finish_text w = ground arith

  finish_subj : (w : Writing) → (finish o header stats status w).seen_subj ≡ w.seen_subj
  unfolding finish write_spam_info
  finish_subj w = ground arith

  -- The header, with what is left of the message.
  record Headed (e : Bytes) (kept body : List Bytes) (w : Writing) : Type 0 where
    fpo_lem :
        w.fpo
        ≡ insert_info o.spam_header_place
            (spam_info o header stats e)
            (tag_subject (tag_of o status) kept)
    eol_lem : w.eol ≡ some e
    text_lem : w.text ≡ body
    subj_lem : w.seen_subj ≡ (is_some (tag_of o status) && has_subject kept)

  header_end :
      (blocks : List Bytes)
      → (write_lines o header stats status (suc (length blocks)) (start blocks)).hadlf ≡ true
      → write_header o header stats status blocks []
        ≡ finish o header stats status
            (write_lines o header stats status (suc (length blocks)) (start blocks))
  unfolding write_header finish
  header_end blocks h = rw h refl

  header-Headed :
      {rest body : List Bytes} (lines : List Bytes)
      → 0 < length o.spam_header_name
      → All NonEmpty lines
      → All IsEnded lines
      → All (IsWithin o) (without o.spam_header_name false lines)
      → Apart o.spam_header_name false lines rest
      → Follows o rest body
      → All NonEmpty body
      → Headed
          (first_eol (lines ++ rest))
          (without o.spam_header_name false lines)
          body
          (write_header o header stats status (lines ++ rest) [])
  header-Headed {rest} lines name ne en wi apart fo nb =
      let blocks = lines ++ rest in
      let w = write_lines o header stats status (suc (length blocks)) (start blocks) in
      let r =
        runs o header stats status (suc (length blocks)) fo name nb (first_eol blocks) lines
          (start blocks) refl ne en wi apart (omega arith) (eol_for_start blocks) (λ q. absurd cc)
          refl in
      let f = finish o header stats status w in
      let q : write_header o header stats status blocks [] ≡ f = header_end blocks r.hadlf_lem in
      rw q (record {
        fpo_lem = r.fpo_lem ∙ remaining_start o.spam_header_place _ (tag_of o status) _;
        eol_lem = r.eol_lem;
        text_lem = finish_text w ∙ r.text_lem;
        subj_lem = finish_subj w ∙ r.subj_lem;
      })

  message_lem :
      (eol : Option Bytes) (blocks : List Bytes)
      → o.passthrough ≡ true
      → write_message o header stats status eol blocks
        ≡ write_body
            (write_header o header stats status blocks []).text
            (eol_or_nl (write_header o header stats status blocks []).eol)
            (add_subject o status (write_header o header stats status blocks []))
  unfolding write_message
  message_lem eol blocks p =
      let w = write_header o header stats status blocks [] in
      ap
        (λ b.
          if b
          then write_body w.text (eol_or_nl w.eol) (add_subject o status w)
          else spam_info o header stats (eol_or_nl eol))
        p

  -- A message of non-empty blocks, with whole lines in its header, is passed through if the spam
  -- header has a name: the fields of that name are taken out of its header, the spam information
  -- stands in front of the first line that begins with the place for it, or behind the header, the
  -- first subject has the tag of the class, or a subject is added, and the body stays as it is but
  -- for an end of its last line. The header ends with the message, or with the first line that ends
  -- a header, which is replaced by an empty one. This line is no field of that name, and if
  -- it begins with a space or a tab, it does not stand directly behind such a field, which it would
  -- be passed over with.
  pub write_message-passed :
      {rest body : List Bytes} (eol : Option Bytes) (lines : List Bytes)
      → o.passthrough ≡ true
      → 0 < length o.spam_header_name
      → All NonEmpty lines
      → All IsEnded lines
      → All (IsWithin o) (without o.spam_header_name false lines)
      → Apart o.spam_header_name false lines rest
      → Follows o rest body
      → All NonEmpty body
      → write_message o header stats status eol (lines ++ rest)
        ≡ passed o header stats status lines body (first_eol (lines ++ rest))
  unfolding passed
  write_message-passed {rest} {body} eol lines p name ne en wi apart fo nb =
      let e = first_eol (lines ++ rest) in
      let kept = without o.spam_header_name false lines in
      let h = header-Headed lines name ne en wi apart fo nb in
      let w = write_header o header stats status (lines ++ rest) [] in
      message_lem eol (lines ++ rest) p
      ∙ (λ i.
          write_body (h.text_lem i) (eol_or_nl (h.eol_lem i))
            (subject_lem w e kept h.eol_lem h.subj_lem i))
      ∙ body_lem body e (w.fpo ++ missing_subject (tag_of o status) e kept) nb
      ∙ ap (λ x. (x ++ missing_subject (tag_of o status) e kept) ++ (e ++ body_text e body))
          h.fpo_lem
      ∙ append_assoc _ (missing_subject (tag_of o status) e kept) (e ++ body_text e body)
