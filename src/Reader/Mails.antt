-- ===== src/Reader/Mails.antt =====
-- The mails of a mailbox: `mailbox_getline` and `mailbox_next_mail` of bogofilter/src/bogoreader.c
-- together.
use bogofilter.Prelude.{
  Bool, Bool-cases, Bytes, List, [], ap, arith, false, if◌then◌else◌, inl, inr, length, none, refl,
  some, subst, suc, sym, take, true, zero, ℕ, ◌&&◌, ◌+◌, ◌<◌, ◌||◌, ◌∙◌, ◌∷◌, ◌≡◌, ◌≤◌,
}
use bogofilter.Buff.{Buff, Stream, uint_max}
use bogofilter.Buff.Contents.{EndsRight}
use bogofilter.Reader.{Reader, mark_end, mailbox_getline}
use bogofilter.Reader.Pieces.{IsCut}
use bogofilter.Reader.Mbox.{
  is_start, eol, piece_read, mail_lines, text_of, text_of-mark_end, with_stream, Piece, Ends, Left,
  fresh, fresh-Piece, read_lines-end, read_lines-eof, read_lines-line,
}
use bogofilter.Buff.Fgets.{length-fgets_loop}

if-false : {A : Type 0} (x y : A) (t : Bool) → t ≡ false → (if t then x else y) ≡ y
if-false x y true e = absurd cc
if-false x y false e = refl

-- The outcomes for a piece, one by one.
module _ (p : Bytes) (b : Buff) (r : Reader) where
  piece_read-first :
      ((r.firstline || r.emptyline) && is_start r.separator p) ≡ true
      → r.firstline ≡ true
      → piece_read p b r ≡ (some (length p), b, record r { firstline = false; emptyline = eol p })
  unfolding piece_read
  piece_read-first h f = rw h (rw f refl)

  piece_read-next :
      ((r.firstline || r.emptyline) && is_start r.separator p) ≡ true
      → r.firstline ≡ false
      → piece_read p b r
        ≡ (none, b, record r { have_message = true; mailbox_saved = some p; emptyline = false })
  unfolding piece_read
  piece_read-next h f = rw h (if-false _ _ r.firstline f)

  piece_read-inside :
      ((r.firstline || r.emptyline) && is_start r.separator p) ≡ false
      → piece_read p b r ≡ (some (length p), mark_end b, record r { emptyline = eol p })
  unfolding piece_read
  piece_read-inside h = rw h refl

pub mail_lines-nil : (sep : Bytes) (first empty : Bool) → mail_lines sep first empty [] ≡ ([], [])
unfolding mail_lines
mail_lines-nil sep first empty = refl

pub mail_lines-first :
    (sep p : Bytes) (first empty : Bool) (ps : List Bytes)
    → ((first || empty) && is_start sep p) ≡ true
    → first ≡ true
    → mail_lines sep first empty (p ∷ ps)
      ≡ (p ∷ (mail_lines sep false (eol p) ps).0, (mail_lines sep false (eol p) ps).1)
unfolding mail_lines
mail_lines-first sep p first empty ps h f = rw h (rw f refl)

pub mail_lines-next :
    (sep p : Bytes) (first empty : Bool) (ps : List Bytes)
    → ((first || empty) && is_start sep p) ≡ true
    → first ≡ false
    → mail_lines sep first empty (p ∷ ps) ≡ ([], p ∷ ps)
unfolding mail_lines
mail_lines-next sep p first empty ps h f = rw h (if-false _ _ first f)

pub mail_lines-inside :
    (sep p : Bytes) (first empty : Bool) (ps : List Bytes)
    → ((first || empty) && is_start sep p) ≡ false
    → mail_lines sep first empty (p ∷ ps)
      ≡ (p ∷ (mail_lines sep first (eol p) ps).0, (mail_lines sep first (eol p) ps).1)
unfolding mail_lines
mail_lines-inside sep p first empty ps h = rw h refl

module _ (junk : ℕ → Bytes) (block : Bytes) (size : ℕ) (fits : size + 1 ≤ length block)
    (small : size ≤ uint_max) (pos : 0 < size) where
  abbrev pub Ready : Reader → List Bytes → Type 0
  Ready r ps = (r.mailbox_saved ≡ none) × EndsRight r.fpin × IsCut size r.fpin.rest ps

  -- A piece that is delivered is put in front of what the run for the others gives.
  pub delivered :
      (k : ℕ) (r r2 : Reader) (p : Bytes) (b : Buff) (m : List Bytes × List Bytes)
      → mailbox_getline junk (fresh junk block size) r ≡ some (some (length p), b, r2)
      → take (length p) b.text ≡ p
      → r2.separator ≡ r.separator
      → r2.mail_first ≡ r.mail_first
      → Ends junk block size k r2 m
      → Ends junk block size (suc k) r (p ∷ m.0, m.1)
  unfolding Ends
  delivered k r r2 p b m e text sep first (r', run, sep', first', ends, left) = (
    r',
    read_lines-line junk block size k (length p) b r r2 m.0 r' e run
        ∙ ap (λ q. some (q ∷ m.0, r')) text,
    sep' ∙ sep,
    first' ∙ first,
    ends,
    left,
  )

  -- A piece that is kept ends the mail.
  kept :
      (k : ℕ) (r : Reader) (s : Stream) (p : Bytes) (b : Buff) (ps : List Bytes)
      → let r1 = with_stream r s in
        mailbox_getline junk (fresh junk block size) r
          ≡ some (
            none,
            b,
            record r1 { have_message = true; mailbox_saved = some p; emptyline = false },
          )
        → r.firstline ≡ false
        → EndsRight s
        → length p ≤ size
        → IsCut size s.rest ps
        → Ends junk block size (suc k) r ([], p ∷ ps)
  unfolding Ends Left with_stream
  kept k r s p b ps e f ends short cut =
      let r1 = with_stream r s in
      let r2 = record r1 { have_message = true; mailbox_saved = some p; emptyline = false } in
      (
        r2,
        read_lines-eof junk block size k b r r2 e,
        refl,
        refl,
        ends,
        (refl, refl, f, refl, short, cut),
      )

  pub read_lines-Ends :
      (ps : List Bytes) (k : ℕ) (r : Reader)
      → length ps < k
      → Ready r ps
      → Ends junk block size k r (mail_lines r.separator r.firstline r.emptyline ps)
  unfolding Piece with_stream
  read_lines-Ends ps zero r h ready = absurd (omega arith)
  read_lines-Ends [] (suc k) r h (unsaved, ends, e) =
      subst (Ends junk block size (suc k) r)
        (sym (mail_lines-nil r.separator r.firstline r.emptyline))
        (read_lines-end junk block size fits small pos k r unsaved ends e)
  read_lines-Ends (p ∷ ps) (suc k) r h (unsaved, ends, cut) =
      let (b, s, e, holds, cut', ends') =
        fresh-Piece junk block size fits small pos r p ps unsaved ends cut in
      let r1 = with_stream r s in
      let short = subst (λ q. length q ≤ size) cut.1 (length-fgets_loop size r.fpin.rest) in
      let starts = (r.firstline || r.emptyline) && is_start r.separator p in
      elim (Bool-cases starts) [
        | inl t ↦ elim (Bool-cases r.firstline) [
          | inl f ↦
              subst (Ends junk block size (suc k) r)
                (sym (mail_lines-first r.separator p r.firstline r.emptyline ps t f))
                (delivered k r (record r1 { firstline = false; emptyline = eol p }) p b
                  (mail_lines r.separator false (eol p) ps)
                  (e ∙ ap some (piece_read-first p b r1 t f)) (text_of p b holds) refl refl
                  (read_lines-Ends ps k (record r1 { firstline = false; emptyline = eol p })
                    (omega arith) (unsaved, ends', cut')))
          | inr f ↦
              subst (Ends junk block size (suc k) r)
                (sym (mail_lines-next r.separator p r.firstline r.emptyline ps t f))
                (kept k r s p b ps (e ∙ ap some (piece_read-next p b r1 t f)) f ends' short cut')
        ]
        | inr t ↦
            subst (Ends junk block size (suc k) r)
              (sym (mail_lines-inside r.separator p r.firstline r.emptyline ps t))
              (delivered k r (record r1 { emptyline = eol p }) p (mark_end b)
                (mail_lines r.separator r.firstline (eol p) ps)
                (e ∙ ap some (piece_read-inside p b r1 t)) (text_of-mark_end p b holds) refl refl
                (read_lines-Ends ps k (record r1 { emptyline = eol p }) (omega arith)
                  (unsaved, ends', cut')))
      ]
