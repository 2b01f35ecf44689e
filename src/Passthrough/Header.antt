-- ===== src/Passthrough/Header.antt =====
-- The end of the loop of bogofilter/src/passthrough.c over the lines of a header.
use bogofilter.Prelude.{
  Bool, Bool-cases, Bytes, List, [], ap, append-nil, append_assoc, arith, false, if◌then◌else◌, inl,
  inr, not, refl, some, sym, true, ℕ, ◌&&◌, ◌++◌, ◌||◌, ◌∙◌, ◌≡◌,
}
use bogofilter.Passthrough.{
  Options, Rc, Writing, eol_or_nl, tag_of, spam_info, write_spam_info, ends_header, header_line,
}
use bogofilter.Passthrough.Lines.{remaining_nil, has_subject, remaining, is_placed, is_some}
use bogofilter.Passthrough.Line.{or_false, place_done, write_place_lem}

placed_new : (seen b : Bool) → (not seen && b) ≡ true → seen ≡ false
placed_new true b h = sym h
placed_new false b h = refl

module _ (o : Options) (header : Bytes) (stats : ℕ → Bytes) (status : Rc) where
  -- The spam information at the end, if its place was not found.
  unfoldable pub finish : Writing → Writing
  unfolding write_spam_info
  finish w = if w.seen_place_header then w else write_spam_info o header stats w

  -- What is left to write of the header's lines, and what the loop leaves.
  abbrev pub still : Bytes → Writing → List Bytes → Bytes
  still e w lines =
      remaining o.spam_header_place (spam_info o header stats e) (tag_of o status)
        w.seen_place_header w.seen_subj lines

  pub record Wrote (e : Bytes) (lines blocks : List Bytes) (w w' : Writing) : Type 0 where
    pub fpo_lem : (finish w').fpo ≡ w.fpo ++ still e w lines
    pub eol_lem : (finish w').eol ≡ some e
    pub text_lem : w'.text ≡ blocks
    pub hadlf_lem : w'.hadlf ≡ true
    pub subj_lem : w'.seen_subj ≡ (w.seen_subj || (is_some (tag_of o status) && has_subject lines))

  finish_fpo :
      (seen : Bool) (w : Writing)
      → (if seen then w else write_spam_info o header stats w).fpo
        ≡ w.fpo ++ (if seen then [] else spam_info o header stats (eol_or_nl w.eol))
  unfolding write_spam_info
  finish_fpo true w = sym (append-nil w.fpo)
  finish_fpo false w = refl

  finish_eol :
      (seen : Bool) (e : Bytes) (w : Writing)
      → eol_or_nl w.eol ≡ e
      → (seen ≡ true → w.eol ≡ some e)
      → (if seen then w else write_spam_info o header stats w).eol ≡ some e
  unfolding write_spam_info
  finish_eol true e w k h = h refl
  finish_eol false e w k h = ap some k

  place_done-eol_or :
      (placed : Bool) (e : Bytes) (w : Writing)
      → eol_or_nl w.eol ≡ e
      → eol_or_nl (place_done o header stats status placed e w).eol ≡ e
  unfolding place_done
  place_done-eol_or true e w k = refl
  place_done-eol_or false e w k = k

  place_done-eol_seen :
      (placed : Bool) (e : Bytes) (w : Writing)
      → (w.seen_place_header ≡ true → w.eol ≡ some e)
      → (w.seen_place_header || placed) ≡ true
      → (place_done o header stats status placed e w).eol ≡ some e
  unfolding place_done
  place_done-eol_seen true e w seen h = refl
  place_done-eol_seen false e w seen h = seen (or_false w.seen_place_header ∙ h)

  once :
      (placed seen : Bool) (info : Bytes)
      → (placed ≡ true → seen ≡ false)
      → (if placed then info else []) ++ (if seen || placed then [] else info)
        ≡ (if seen then [] else info)
  once true true info h = absurd cc (h refl)
  once true false info h = append-nil info
  once false true info h = refl
  once false false info h = refl

  regroup :
      (placed : Bool) (e : Bytes) (w : Writing)
      → (placed ≡ true → w.seen_place_header ≡ false)
      → (place_done o header stats status placed e w).fpo
          ++ (if (place_done o header stats status placed e w).seen_place_header
              then []
              else spam_info o header stats e)
        ≡ w.fpo ++ (if w.seen_place_header then [] else spam_info o header stats e)
  unfolding place_done
  regroup placed e w new =
      append_assoc w.fpo _ _
      ∙ ap (λ x. w.fpo ++ x) (once placed w.seen_place_header (spam_info o header stats e) new)

  end-Wrote :
      (placed : Bool) (e : Bytes) (w : Writing)
      → eol_or_nl w.eol ≡ e
      → (w.seen_place_header ≡ true → w.eol ≡ some e)
      → (placed ≡ true → w.seen_place_header ≡ false)
      → w.hadlf ≡ true
      → Wrote e [] w.text w (place_done o header stats status placed e w)
  unfolding finish
  end-Wrote placed e w k seen new h =
      let w' = place_done o header stats status placed e w in
      let info = spam_info o header stats e in
      record {
        fpo_lem =
            finish_fpo w'.seen_place_header w'
            ∙ ap (λ x. w'.fpo ++ (if w'.seen_place_header then [] else spam_info o header stats x))
                (place_done-eol_or placed e w k)
            ∙ regroup placed e w new
            ∙ ap (λ x. w.fpo ++ x)
                (sym (
                  remaining_nil o.spam_header_place info (tag_of o status) w.seen_place_header
                    w.seen_subj));
        eol_lem =
            finish_eol w'.seen_place_header e w' (place_done-eol_or placed e w k)
              (unfold place_done in place_done-eol_seen placed e w seen);
        text_lem = unfold place_done in refl;
        hadlf_lem = unfold place_done in h;
        subj_lem = unfold place_done has_subject in ground arith;
      }

  -- The end of the text.
  pub nothing-Wrote :
      (e : Bytes) (w : Writing)
      → eol_or_nl w.eol ≡ e
      → (w.seen_place_header ≡ true → w.eol ≡ some e)
      → w.hadlf ≡ true
      → Wrote e [] w.text w w
  unfolding finish
  nothing-Wrote e w k seen h =
      let info = spam_info o header stats e in
      record {
        fpo_lem =
            finish_fpo w.seen_place_header w
            ∙ ap (λ x. w.fpo ++ (if w.seen_place_header then [] else spam_info o header stats x)) k
            ∙ ap (λ x. w.fpo ++ x)
                (sym (
                  remaining_nil o.spam_header_place info (tag_of o status) w.seen_place_header
                    w.seen_subj));
        eol_lem = finish_eol w.seen_place_header e w k seen;
        text_lem = refl;
        hadlf_lem = h;
        subj_lem = unfold has_subject in ground arith;
      }

  -- The line that the loop stops at, or the last one that was read.
  pub stop-Wrote :
      (e out : Bytes) (rd : ℕ) (text : List Bytes) (w : Writing) (next : Writing → Writing)
      → ends_header o rd out ≡ true
      → eol_or_nl w.eol ≡ e
      → (w.seen_place_header ≡ true → w.eol ≡ some e)
      → w.hadlf ≡ true
      → Wrote e [] text w (header_line o header stats status (rd, out, text) w next)
  unfolding header_line
  stop-Wrote e out rd text w next end k seen h =
      let w1 = record w { out = out; text = text } in
      let placed = is_placed o.spam_header_place w.seen_place_header out in
      let r = end-Wrote placed e w1 k seen (placed_new w.seen_place_header _) h in
      rw (end, write_place_lem o header stats status e out w1 k)
        (record {
          fpo_lem = r.fpo_lem;
          eol_lem = r.eol_lem;
          text_lem = r.text_lem;
          hadlf_lem = r.hadlf_lem;
          subj_lem = r.subj_lem;
        })

pub nothing_ends : (o : Options) (out : Bytes) → ends_header o 0 out ≡ true
unfolding ends_header
nothing_ends o out = elim (Bool-cases o.have_body) [
  | inl e ↦ ground (arith, e)
  | inr e ↦ ground (arith, e)
]
