-- ===== src/Passthrough/Loop.antt =====
-- The loop of bogofilter/src/passthrough.c over all lines of a header.
use bogofilter.Prelude.{
  All, All-append, Bool-cases, Bytes, List, Option, [], ap, append_assoc, arith, false,
  if◌then◌else◌, inl, inr, length, length-append, refl, some, subst, suc, sym, true, zero, ℕ, ◌&&◌,
  ◌++◌, ◌<◌, ◌==◌, ◌||◌, ◌∙◌, ◌∷◌, ◌≡◌, ◌≤◌, ◌⊎◌,
}
use bogofilter.Passthrough.{
  Options, Rc, Writing, begins, read_mem, skip_fields, set_eol, tag_of, spam_info, header_line,
  write_lines, eol_or_nl,
}
use bogofilter.Passthrough.Lines.{
  without, remaining, remaining_step, has_subject, has_subject_step, is_placed, line_tag, is_some,
  render,
}
use bogofilter.Passthrough.Skip.{
  skip_line, next_field, stay, length-next_field, All-next_field, NonEmpty,
}
use bogofilter.Passthrough.Header.{Wrote, stop-Wrote, nothing_ends, nothing-Wrote}
use bogofilter.Passthrough.Line.{
  eol_for, set_eol-some, set_eol_lem, go_on, line_done, Done, line-Done,
}
use bogofilter.Passthrough.Follows.{
  Apart, Apart-keep, Apart-drop, Apart-next, Follows, nothing, delimited, eol_for_nil, set_eol_keep,
  positive, NoName, next_field-NoName, next_field-append, IsEnded, IsWithin, without_nil,
  without_keep, without_drop, eol_for-some,
}

module _ (o : Options) (header : Bytes) (stats : ℕ → Bytes) (status : Rc) where
  cons-Wrote :
      (e line : Bytes) (lines blocks : List Bytes) (w w1 w' : Writing)
      → Done o header stats status e line w w1
      → Wrote o header stats status e lines blocks w1 w'
      → Wrote o header stats status e (line ∷ lines) blocks w w'
  cons-Wrote e line lines blocks w w1 w' d r =
      let info = spam_info o header stats e in
      record {
        fpo_lem =
            r.fpo_lem
            ∙ (λ i.
                d.fpo_lem i
                ++ remaining o.spam_header_place info (tag_of o status) (d.place_lem i)
                    (d.subj_lem i) lines)
            ∙ append_assoc w.fpo _ _
            ∙ ap (λ x. w.fpo ++ x)
                (append_assoc
                    (if is_placed o.spam_header_place w.seen_place_header line then info else [])
                    (render (line_tag (tag_of o status) w.seen_subj line) line) _
                  ∙ sym (
                      remaining_step o.spam_header_place info (tag_of o status) w.seen_place_header
                        w.seen_subj line lines));
        eol_lem = r.eol_lem;
        text_lem = r.text_lem;
        hadlf_lem = r.hadlf_lem;
        subj_lem =
            r.subj_lem
            ∙ ap (λ b. b || (is_some (tag_of o status) && has_subject lines)) d.subj_lem
            ∙ has_subject_step (tag_of o status) w.seen_subj line lines;
      }

  -- The loop, from what is read of the blocks on.
  from_read : ℕ → Writing → ℕ × Bytes × List Bytes → Writing
  from_read n w (rd, out, text) =
      let after = skip_fields o.spam_header_name (suc (length text)) (rd, out, text) in
      let w' = record w { out = out; text = text; eol = set_eol w.eol out } in
      if rd == 0
      then record w { out = out; text = text }
      else header_line o header stats status after w'
          (λ w''. write_lines o header stats status n w'')

  read_lem :
      (n : ℕ) (w : Writing) (blocks : List Bytes)
      → w.text ≡ blocks
      → write_lines o header stats status (suc n) w ≡ from_read n w (read_mem w.out blocks)
  unfolding write_lines from_read
  read_lem n w blocks h = ap (λ t. from_read n w (read_mem w.out t)) h

  line_read :
      (n : ℕ) (w : Writing) (line : Bytes) (text : List Bytes)
      → 0 < length line
      → from_read n w (length line, line, text)
        ≡ header_line o header stats status
            (skip_fields o.spam_header_name (suc (length text)) (length line, line, text))
            (record w { out = line; text = text; eol = set_eol w.eol line })
            (λ w''. write_lines o header stats status n w'')
  unfolding from_read
  line_read n w line text h = rw (positive (length line) h) refl

  same-Wrote :
      (e : Bytes) (lines blocks : List Bytes) (w w' : Writing) (out : Bytes) (text : List Bytes)
      (eol : Option Bytes)
      → Wrote o header stats status e lines blocks
          (record w { out = out; text = text; eol = eol })
          w'
      → Wrote o header stats status e lines blocks w w'
  same-Wrote e lines blocks w w' out text eol r = record {
    fpo_lem = r.fpo_lem;
    eol_lem = r.eol_lem;
    text_lem = r.text_lem;
    hadlf_lem = r.hadlf_lem;
    subj_lem = r.subj_lem;
  }

  -- Each header from here on, if there is fuel for its lines.
  abbrev Runs : ℕ → List Bytes → List Bytes → Type 0
  Runs n rest body =
      (e : Bytes) (lines : List Bytes) (w : Writing)
      → w.text ≡ lines ++ rest
      → All NonEmpty lines
      → All IsEnded lines
      → All (IsWithin o) (without o.spam_header_name false lines)
      → Apart o.spam_header_name false lines rest
      → length (lines ++ rest) < n
      → eol_for w.eol (lines ++ rest) ≡ e
      → (w.seen_place_header ≡ true → w.eol ≡ some e)
      → w.hadlf ≡ true
      → Wrote o header stats status e (without o.spam_header_name false lines) body w
          (write_lines o header stats status n w)

  -- From the line on that the loop over the fields stops at.
  after_skip :
      {rest body : List Bytes} (n : ℕ) (e place : Bytes) (lines : List Bytes) (w : Writing)
      → Runs n rest body
      → Follows o rest body
      → NoName o.spam_header_name lines
      → All NonEmpty lines
      → All IsEnded lines
      → All (IsWithin o) (without o.spam_header_name false lines)
      → Apart o.spam_header_name false lines rest
      → length (lines ++ rest) ≤ n
      → (lines ≡ [] ⊎ w.eol ≡ some e)
      → eol_or_nl w.eol ≡ e
      → (w.seen_place_header ≡ true → w.eol ≡ some e)
      → w.hadlf ≡ true
      → Wrote o header stats status e (without o.spam_header_name false lines) body w (
          header_line o header stats status
            (read_mem place (lines ++ rest))
            w
            (λ w''. write_lines o header stats status n w''))
  unfolding read_mem
  after_skip n e place [] w ih nothing first ne en wi apart f c k seen h =
      rw without_nil
        (stop-Wrote o header stats status e place 0 [] w _ (nothing_ends o place) k seen h)
  after_skip n e place [] w ih (delimited line text p a d) first ne en wi apart f c k seen h =
      rw without_nil (stop-Wrote o header stats status e line (length line) text w _ d k seen h)
  after_skip n e place (line ∷ lines) w ih fo first ne en wi apart f (inl c) k seen h = absurd cc
  after_skip {rest} {body} n e place (line ∷ lines) w ih fo first ne en wi apart f (inr c) k seen
        h =
      let kept = without_keep o.spam_header_name line lines first in
      let wi' = subst (All (IsWithin o)) kept wi in
      let w0 = record w { out = line; text = lines ++ rest } in
      let d = line-Done o header stats status e line w0 c h en.0 in
      let w1 = line_done o header stats status line w0 in
      let r =
        ih e lines w1 d.text_lem ne.1 en.1 wi'.1
          (Apart-keep o.spam_header_name line lines rest first apart) (omega arith)
          (ap (λ x. eol_for x (lines ++ rest)) d.eol_lem ∙ eol_for-some e (lines ++ rest))
          (λ _. d.eol_lem) d.hadlf_lem in
      rw (kept, go_on o header stats status e line (lines ++ rest) w _ wi'.0)
        (same-Wrote e (line ∷ without o.spam_header_name false lines) body w _ line (lines ++ rest)
          w.eol (cons-Wrote e line (without o.spam_header_name false lines) body w0 w1 _ d r))

  -- The line that is read is passed over with its field, or it stays.
  from_line :
      {rest body : List Bytes} (n : ℕ) (e line : Bytes) (lines : List Bytes) (w : Writing)
      → Runs n rest body
      → Follows o rest body
      → 0 < length o.spam_header_name
      → All NonEmpty (lines ++ rest)
      → All NonEmpty (line ∷ lines)
      → All IsEnded (line ∷ lines)
      → All (IsWithin o) (without o.spam_header_name false (line ∷ lines))
      → Apart o.spam_header_name false (line ∷ lines) rest
      → suc (length (lines ++ rest)) ≤ n
      → w.eol ≡ some e
      → w.hadlf ≡ true
      → Wrote o header stats status e (without o.spam_header_name false (line ∷ lines)) body w (
          header_line o header stats status
            (skip_fields o.spam_header_name
              (suc (length (lines ++ rest)))
              (length line, line, lines ++ rest))
            w
            (λ w''. write_lines o header stats status n w''))
  from_line {rest} {body} n e line lines w ih fo name all ne en wi apart f c h =
      elim (Bool-cases (begins o.spam_header_name line)) [
        | inl k ↦
            let r = skip_line o.spam_header_name line (lines ++ rest) name all k in
            let ms = next_field o.spam_header_name lines in
            let behind = Apart-drop o.spam_header_name line lines rest k apart in
            let at = r.reached ∙ ap (read_mem r.place) (next_field-append o lines fo behind) in
            let kept = without_drop o.spam_header_name line lines k in
            rw (kept, at)
              (after_skip n e r.place ms w ih fo (next_field-NoName o.spam_header_name lines)
                (All-next_field NonEmpty o.spam_header_name lines ne.1)
                (All-next_field IsEnded o.spam_header_name lines en.1)
                (subst (All (IsWithin o)) kept wi) (Apart-next o.spam_header_name lines rest behind)
                (omega (
                  arith,
                  length-next_field o.spam_header_name lines,
                  length-append lines rest,
                  length-append ms rest,
                ))
                (inr c) (ap eol_or_nl c) (λ _. c) h)
        | inr k ↦
            rw (stay o.spam_header_name (suc (length (lines ++ rest))) line (lines ++ rest) k) (
              unfold read_mem in
              after_skip n e line (line ∷ lines) w ih fo k ne en wi apart (omega arith) (inr c)
                (ap eol_or_nl c) (λ _. c) h)
      ]

  Follows-NonEmpty :
      {rest body : List Bytes} → Follows o rest body → All NonEmpty body → All NonEmpty rest
  Follows-NonEmpty nothing b = tt
  Follows-NonEmpty (delimited line lines p _ _) b = (p, b)

  at_end : (n : ℕ) (w : Writing) → w.text ≡ [] → write_lines o header stats status (suc n) w ≡ w
  unfolding from_read read_mem
  at_end n w t = read_lem n w [] t ∙ (λ i. record w { text = sym t i })

  reading :
      (n : ℕ) (w : Writing) (line : Bytes) (text : List Bytes)
      → w.text ≡ line ∷ text
      → 0 < length line
      → write_lines o header stats status (suc n) w
        ≡ header_line o header stats status
            (skip_fields o.spam_header_name (suc (length text)) (length line, line, text))
            (record w { out = line; text = text; eol = set_eol w.eol line })
            (λ w''. write_lines o header stats status n w'')
  unfolding read_mem
  reading n w line text t h = read_lem n w (line ∷ text) t ∙ line_read n w line text h

  at_line :
      (n : ℕ) (w : Writing) (line : Bytes) (text : List Bytes)
      → begins o.spam_header_name line ≡ false
      → header_line o header stats status
          (skip_fields o.spam_header_name (suc (length text)) (length line, line, text))
          (record w { out = line; text = text; eol = set_eol w.eol line })
          (λ w''. write_lines o header stats status n w'')
        ≡ header_line o header stats status
            (length line, line, text)
            (record w { out = line; text = text; eol = set_eol w.eol line })
            (λ w''. write_lines o header stats status n w'')
  at_line n w line text a = rw (stay o.spam_header_name (suc (length text)) line text a) refl

  -- From the blocks of a header and what follows it, the loop leaves what the reference says.
  pub runs :
      {rest body : List Bytes} (n : ℕ)
      → Follows o rest body
      → 0 < length o.spam_header_name
      → All NonEmpty body
      → Runs n rest body
  runs zero fo name nb e lines w t ne en wi apart f c seen h = absurd (omega arith)
  runs (suc n) nothing name nb e [] w t ne en wi apart f c seen h =
      subst
        (λ b.
          Wrote o header stats status e (without o.spam_header_name false []) b w
            (write_lines o header stats status (suc n) w))
        t
        (rw (without_nil, at_end n w t)
          (nothing-Wrote o header stats status e w (eol_for_nil w.eol ∙ c) seen h))
  runs (suc n) (delimited line text p a d) name nb e [] w t ne en wi apart f c seen h =
      rw (without_nil, reading n w line text t p ∙ at_line n w line text a)
        (same-Wrote e [] text w _ line text (set_eol w.eol line) (
          stop-Wrote o header stats status e line (length line) text _ _ d
            (set_eol_lem w.eol line text ∙ c) (λ q. set_eol_keep w.eol e line (seen q)) h))
  runs {rest} {body} (suc n) fo name nb e (line ∷ lines) w t ne en wi apart f c seen h =
      let eol =
        set_eol-some w.eol line en.0 ∙ ap some (set_eol_lem w.eol line (lines ++ rest) ∙ c) in
      let all = All-append NonEmpty lines rest ne.1 (Follows-NonEmpty fo nb) in
      rw (reading n w line (lines ++ rest) t ne.0) (
        same-Wrote e (without o.spam_header_name false (line ∷ lines)) body w _ line (lines ++ rest)
          (set_eol w.eol line)
          (from_line n e line lines _ (runs n fo name nb) fo name all ne en wi apart (omega arith)
            eol h))
