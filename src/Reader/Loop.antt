-- ===== src/Reader/Loop.antt =====
-- The loop over the mails of a mailbox, as the programs run it with the functions of
-- bogofilter/src/bogoreader.c.
use bogofilter.Prelude.{
  Bool, Bytes, List, Option, [], ap, arith, concat, false, inl, length, none, refl, some, subst,
  suc, sym, take, true, zero, ℕ, ◌%◌, ◌+◌, ◌-◌, ◌<◌, ◌^◌, ◌||◌, ◌∙◌, ◌∷◌, ◌≡◌, ◌≤◌,
}
use bogofilter.Buff.{uint_max, buff_add}
use bogofilter.Buff.Contents.{EndsRight}
use bogofilter.Buff.Edit.{buff_add_lem, in_range}
use bogofilter.Reader.{Reader, mailbox_next_mail, mailbox_getline, mailbox_either}
use bogofilter.Reader.Pieces.{concat-IsCut, pieces, pieces-IsCut, length-pieces}
use bogofilter.Reader.Mbox.{mail_lines, read_lines, Ends, Left, fresh}
use bogofilter.Reader.Mails.{read_lines-Ends, delivered}
use bogofilter.Reader.Split.{
  split, mails_left, split-mail_lines, length-mail_lines, concat-split, RestBegin, split-RestBegin,
  add_front,
}

abbrev pub Run : Type 0
Run = Option (List (List Bytes) × Reader)

with_mail : List Bytes → Run → Run
with_mail lines none = none
with_mail lines (some (mails, r)) = some (lines ∷ mails, r)

after_mail : Option (List Bytes × Reader) → (Reader → Run) → Run
unfolding with_mail
after_mail none next = none
after_mail (some (lines, r)) next = with_mail lines (next r)

after_more : Bool × Reader → (Reader → Run) → Run
after_more (false, r) next = some ([], r)
after_more (true, r) next = next r

add-zero : (n : ℕ) → 0 + n ≡ n
add-zero n = omega arith

suc_pred : (n : ℕ) → 0 < n → suc (n - 1) ≡ n
suc_pred n h = omega arith

or-true : (a b : Bool) → b ≡ true → (a || b) ≡ true
or-true true b e = refl
or-true false b e = e

first_or : (a b : Bool) → a ≡ true → (a || b) ≡ true
first_or true b e = refl
first_or false b e = absurd cc

module _ (junk : ℕ → Bytes) (block : Bytes) (size fuel : ℕ) where
  -- As long as there is another mail, its lines are read.
  pub read_mails : ℕ → Reader → Run
  unfolding after_mail after_more
  read_mails zero r = none
  read_mails (suc k) r =
      after_more (mailbox_next_mail r)
        (λ r'. after_mail (read_lines junk block size fuel r') (λ r''. read_mails k r''))

  next_mail-stops :
      (k : ℕ) (r : Reader)
      → r.mail_first ≡ false
      → r.have_message ≡ false
      → read_mails (suc k) r ≡ some ([], record r { mail_first = false })
  unfolding read_mails mailbox_next_mail
  next_mail-stops k r h f = rw (h, f) refl

  next_mail-reads :
      (k : ℕ) (r r2 r3 : Reader) (lines : List Bytes) (mails : List (List Bytes))
      → (r.mail_first || r.have_message) ≡ true
      → read_lines junk block size fuel (record r { mail_first = false }) ≡ some (lines, r2)
      → read_mails k r2 ≡ some (mails, r3)
      → read_mails (suc k) r ≡ some (lines ∷ mails, r3)
  unfolding read_mails mailbox_next_mail
  next_mail-reads k r r2 r3 lines mails more e f = rw more (rw (e, f) refl)

  -- A run that ends with these mails leaves nothing of the stream, and there is no other mail.
  pub Finishes : ℕ → Reader → List (List Bytes) → Type 0
  Finishes k r mails =
      (r' : Reader) × (read_mails k r ≡ some (mails, r'))
      × (r'.fpin.rest ≡ [])
      × ((mailbox_next_mail r').0 ≡ false)

  module _ (full : (n : ℕ) → length (junk n) ≡ n) (fits : size + 1 ≤ length block)
      (small : size ≤ uint_max) (pos : 0 < size) where
    getline-saved :
        (r : Reader) (p : Bytes)
        → r.mailbox_saved ≡ some p
        → mailbox_getline junk (fresh junk block size) r
          ≡ some (
            some (length p),
            (buff_add junk (fresh junk block size) p).1,
            record r { mailbox_saved = none },
          )
    unfolding mailbox_getline mailbox_either
    getline-saved r p e = ap (λ o. mailbox_either o junk (fresh junk block size) r) e

    saved_text :
        (p : Bytes)
        → length p ≤ size
        → take (length p) (buff_add junk (fresh junk block size) p).1.text ≡ p
    unfolding buff_add
    saved_text p short =
        subst (λ n. take n (buff_add junk (fresh junk block size) p).1.text ≡ p)
          (ap (λ n. n % 2 ^ 32) (add-zero (length p)) ∙ in_range (length p) (omega arith))
          (buff_add_lem junk (fresh junk block size) p full (omega arith, fits) (omega arith)
            (inl (omega arith))).1

    -- After a piece that was kept, a mail is read to its end.
    read_saved :
        (r : Reader) (p : Bytes) (ps : List Bytes)
        → Left junk block size r (p ∷ ps)
        → EndsRight r.fpin
        → (k : ℕ) → length ps < k
        → let m = mail_lines r.separator false false ps in
          Ends junk block size (suc k) r (p ∷ m.0, m.1)
    unfolding Left
    read_saved r p ps (saved, _, first, empty, short, cut) ends k h =
        let r2 = record r { mailbox_saved = none } in
        let m = mail_lines r.separator r.firstline r.emptyline ps in
        let run =
          delivered junk block size fits small pos k r r2 p
            (buff_add junk (fresh junk block size) p).1 m (getline-saved r p saved)
            (saved_text p short) refl refl
            (read_lines-Ends junk block size fits small pos ps k r2 h (refl, ends, cut)) in
        subst
          (λ e.
            let m' = mail_lines r.separator false e ps in
            Ends junk block size (suc k) r (p ∷ m'.0, m'.1))
          empty
          (subst
            (λ f.
              let m' = mail_lines r.separator f r.emptyline ps in
              Ends junk block size (suc k) r (p ∷ m'.0, m'.1))
            first run)

    -- The run after the next mail, whose lines and rest are known.
    one_more :
        (k : ℕ) (r : Reader) (m : List Bytes × List Bytes)
        → (r.mail_first || r.have_message) ≡ true
        → Ends junk block size fuel (record r { mail_first = false }) m
        → ((r2 : Reader)
            → Left junk block size r2 m.1
            → r2.mail_first ≡ false
            → EndsRight r2.fpin
            → Finishes k r2 (mails_left r2.separator m.1))
        → Finishes (suc k) r (m.0 ∷ mails_left r.separator m.1)
    unfolding Finishes Ends
    one_more k r m more (r2, e, sep, first, ends, left) next =
        let (r3, run, rest, stop) = next r2 left first ends in
        (
          r3,
          next_mail-reads k r r2 r3 m.0 (mails_left r.separator m.1) more e
              (run ∙ ap (λ s. some (mails_left s m.1, r3)) sep),
          rest,
          stop,
        )

    -- The mails from what is left of the mailbox.
    Left-mails :
        (k : ℕ) (ps : List Bytes) (r : Reader)
        → Left junk block size r ps
        → r.mail_first ≡ false
        → EndsRight r.fpin
        → length ps < k
        → length ps < fuel
        → Finishes k r (mails_left r.separator ps)
    unfolding Finishes Left mailbox_next_mail
    Left-mails zero ps r left first ends h f = absurd (omega arith)
    Left-mails (suc k) [] r (_, none_more, rest) first ends h f =
        (record r { mail_first = false }, next_mail-stops k r first none_more, rest, none_more)
    Left-mails (suc k) (p ∷ ps) r left first ends h f =
        let m = mail_lines r.separator false false ps in
        let shorter = length-mail_lines r.separator false false ps in
        let ends_mail =
          subst (λ n. Ends junk block size n (record r { mail_first = false }) (p ∷ m.0, m.1))
            (suc_pred fuel (omega arith))
            (read_saved (record r { mail_first = false }) p ps left ends (fuel - 1)
              (omega arith)) in
        subst (Finishes (suc k) r)
          (sym (ap (add_front p) (split-mail_lines r.separator false false ps)))
          (one_more k r (p ∷ m.0, m.1) (or-true r.mail_first r.have_message left.1) ends_mail
            (λ r2 left2 first2 ends2.
              Left-mails k m.1 r2 left2 first2 ends2 (omega arith) (omega arith)))

-- A mailbox that is read with a buffer of some size for each line gives its mails, as the reference
-- splits the pieces that fit: no byte of the stream is lost, added or moved, every mail but the
-- first begins with a separator, and the loop ends with the stream used up and no other mail. The
-- reader is in front of the first mail and has kept no line, the stream ends properly, and there is
-- fuel for as many mails and lines as the stream has bytes.
pub read_mails-split :
    (junk : ℕ → Bytes) (block : Bytes) (size fuel : ℕ) (r : Reader)
    → ((n : ℕ) → length (junk n) ≡ n)
    → size + 1 ≤ length block
    → size ≤ uint_max
    → 0 < size
    → r.mail_first ≡ true
    → r.mailbox_saved ≡ none
    → EndsRight r.fpin
    → length r.fpin.rest + 1 < fuel
    → let mails =
        split r.separator r.firstline r.emptyline (pieces (length r.fpin.rest) size r.fpin.rest) in
      Finishes junk block size fuel fuel r mails
      × (concat (concat mails) ≡ r.fpin.rest)
      × RestBegin r.separator mails
read_mails-split junk block size fuel r full fits small pos first unsaved ends h =
    let s = r.fpin.rest in
    let ps = pieces (length s) size s in
    let cut = pieces-IsCut (length s) size s (omega arith) pos in
    let short = length-pieces (length s) size s in
    let m = mail_lines r.separator r.firstline r.emptyline ps in
    let shorter = length-mail_lines r.separator r.firstline r.emptyline ps in
    let run =
      subst (λ k. Finishes junk block size fuel k r (m.0 ∷ mails_left r.separator m.1))
        (suc_pred fuel (omega arith))
        (one_more junk block size fuel full fits small pos (fuel - 1) r m
          (first_or r.mail_first r.have_message first)
          (read_lines-Ends junk block size fits small pos ps fuel (record r { mail_first = false })
            (omega arith) (unsaved, ends, cut))
          (λ r2 left first2 ends2.
            Left-mails junk block size fuel full fits small pos (fuel - 1) m.1 r2 left first2 ends2
              (omega arith) (omega arith))) in
    (
      subst (Finishes junk block size fuel fuel r)
          (sym (split-mail_lines r.separator r.firstline r.emptyline ps)) run,
      ap concat (concat-split r.separator r.firstline r.emptyline ps) ∙ concat-IsCut size ps s cut,
      split-RestBegin r.separator r.firstline r.emptyline ps,
    )
