-- ===== src/Reader/Mbox.antt =====
-- How `mailbox_getline` of bogofilter/src/bogoreader.c reads the lines of a mailbox into fresh buffers.
use bogofilter.Prelude.{
  Bool, Bool-cases, Bytes, List, Option, [], ap, arith, false, if◌then◌else◌, inl, inr, length,
  length-take, min, none, not, refl, some, subst, suc, sym, take, true, zero, ℕ, ◌&&◌, ◌+◌, ◌-◌,
  ◌<◌, ◌==◌, ◌||◌, ◌∙◌, ◌∷◌, ◌≡◌, ◌≢◌, ◌≤◌,
}
use bogofilter.Buff.{Buff, fgets_loop, Stream, buff_fgetsl, uint_max}
use bogofilter.Buff.Contents.{contents, IsSound, EndsRight, buff_fgetsln-Reads, Reads, read_count}
use bogofilter.Buff.Fgets.{fgets_loop-nil, fgets_loop-there}
use bogofilter.Buff.Edit.{}
use bogofilter.Reader.{
  Reader, GotLine, has_separator, is_eol, mark_end, mailbox_line, mailbox_either, mailbox_unsaved,
  mailbox_getline,
}
use bogofilter.Reader.Pieces.{
  IsCut, has_separator-line, is_eol-line, mark_end-contents, mark_end-leng,
}

-- A piece that begins with the separator, if there is one.
pub is_start : Bytes → Bytes → Bool
is_start sep p = not (length sep == 0) && has_separator sep (some (length p)) p

pub eol : Bytes → Bool
eol p = is_eol p (some (length p))

-- The outcome for a piece that was read.
unfoldable pub piece_read : Bytes → Buff → Reader → Option ℕ × Buff × Reader
piece_read p b r =
    if (r.firstline || r.emptyline) && is_start r.separator p
    then if r.firstline
      then (some (length p), b, record r { firstline = false; emptyline = eol p })
      else (none, b, record r { have_message = true; mailbox_saved = some p; emptyline = false })
    else (some (length p), mark_end b, record r { emptyline = eol p })

unfoldable pub Holds : Bytes → Buff → Type 0
Holds p b = (contents b ≡ p) × (b.leng ≡ length p) × IsSound b

mailbox_line-piece :
    (p : Bytes) (b : Buff) (r : Reader)
    → Holds p b
    → mailbox_line 0 (some (length p)) b r ≡ piece_read p b r
unfolding mailbox_line piece_read is_start eol Holds
mailbox_line-piece p b r (e, n, sound) =
    let text = subst (λ k. take k b.text ≡ p) n e in
    let marked =
      subst (λ k. take k (mark_end b).text ≡ p) (mark_end-leng b ∙ n)
        (mark_end-contents b sound ∙ e) in
    rw
      (
        has_separator-line r.separator b.text p (length p) text,
        is_eol-line b.text p (length p) text,
        is_eol-line (mark_end b).text p (length p) marked,
        text,
      )
      refl

-- A mail: the pieces up to the first one that starts another mail, and those that are left. The flags
-- say that no separator has been read, and that the piece in front was an empty line.
unfoldable pub mail_lines : Bytes → Bool → Bool → List Bytes → List Bytes × List Bytes
mail_lines sep first empty [] = ([], [])
mail_lines sep first empty (p ∷ ps) =
    let after_first = mail_lines sep false (eol p) ps in
    let after = mail_lines sep first (eol p) ps in
    if (first || empty) && is_start sep p
    then if first then (p ∷ after_first.0, after_first.1) else ([], p ∷ ps)
    else (p ∷ after.0, after.1)

with_piece : Bytes → Option (List Bytes × Reader) → Option (List Bytes × Reader)
with_piece p none = none
with_piece p (some (lines, r)) = some (p ∷ lines, r)

-- The client's choice after a line: the mail ends, or it goes on with the next line.
after_line : GotLine → (Reader → Option (List Bytes × Reader)) → Option (List Bytes × Reader)
unfolding with_piece
after_line none next = none
after_line (some (none, b, r)) next = some ([], r)
after_line (some (some n, b, r)) next = with_piece (take n b.text) (next r)

read_count-eq :
    (room : ℕ) (line : Bytes) → 0 < room → line ≢ [] → read_count room line ≡ some (length line)
unfolding read_count
read_count-eq zero line h k = absurd (omega arith)
read_count-eq (suc room) [] h k = absurd (k refl)
read_count-eq (suc room) (c ∷ line) h k = refl

read_count-none : (room : ℕ) → 0 < room → read_count room [] ≡ none
unfolding read_count
read_count-none zero h = absurd (omega arith)
read_count-none (suc room) h = refl

-- The variables of the reader in front of `mailbox_line`.
unfoldable pub with_stream : Reader → Stream → Reader
with_stream r s = record r { fpin = s; have_message = false }

mailbox_line-eof :
    (b : Buff) (r : Reader)
    → mailbox_line 0 none b r ≡ (none, mark_end b, record r { emptyline = false })
unfolding mailbox_line has_separator is_eol
mailbox_line-eof b r = elim (Bool-cases (r.firstline || r.emptyline)) [
  | inl e ↦ elim (Bool-cases (length r.separator == 0)) [
    | inl f ↦ simp (e, f)
    | inr f ↦ simp (e, f)
  ]
  | inr e ↦ simp e
]

pub text_of : (p : Bytes) (b : Buff) → Holds p b → take (length p) b.text ≡ p
unfolding Holds
text_of p b (e, n, sound) = subst (λ k. take k b.text ≡ p) n e

pub text_of-mark_end : (p : Bytes) (b : Buff) → Holds p b → take (length p) (mark_end b).text ≡ p
unfolding Holds
text_of-mark_end p b (e, n, sound) =
    subst (λ k. take k (mark_end b).text ≡ p) (mark_end-leng b ∙ n) (mark_end-contents b sound ∙ e)

module _ (junk : ℕ → Bytes) (block : Bytes) (size : ℕ) where
  abbrev pub fresh : Buff
  fresh = record { text = block; leng = 0; read = 0; size = size }

  -- The lines of a mail, each read into a fresh buffer, until the reader reports the end. No result is
  -- too little fuel, or the abort of the line reader.
  unfoldable pub read_lines : ℕ → Reader → Option (List Bytes × Reader)
  unfolding after_line
  read_lines zero r = none
  read_lines (suc k) r = after_line (mailbox_getline junk fresh r) (λ r'. read_lines k r')

  -- What is left after a mail: nothing, or a piece that was kept and the stream's pieces behind it.
  unfoldable pub Left : Reader → List Bytes → Type 0
  Left r [] = (r.mailbox_saved ≡ none) × (r.have_message ≡ false) × (r.fpin.rest ≡ [])
  Left r (p ∷ ps) =
      (r.mailbox_saved ≡ some p)
      × (r.have_message ≡ true)
      × (r.firstline ≡ false)
      × (r.emptyline ≡ false)
      × (length p ≤ size)
      × IsCut size r.fpin.rest ps

  -- The outcome of a run that gives these lines and leaves these pieces.
  unfoldable pub Ends : ℕ → Reader → List Bytes × List Bytes → Type 0
  Ends k r m =
      (r' : Reader) × (read_lines k r ≡ some (m.0, r'))
      × (r'.separator ≡ r.separator)
      × (r'.mail_first ≡ r.mail_first)
      × EndsRight r'.fpin
      × Left r' m.1

  pub read_lines-eof :
      (k : ℕ) (b : Buff) (r r' : Reader)
      → mailbox_getline junk fresh r ≡ some (none, b, r')
      → read_lines (suc k) r ≡ some ([], r')
  unfolding read_lines
  read_lines-eof k b r r' e = rw e refl

  pub read_lines-line :
      (k n : ℕ) (b : Buff) (r r' : Reader) (lines : List Bytes) (r'' : Reader)
      → mailbox_getline junk fresh r ≡ some (some n, b, r')
      → read_lines k r' ≡ some (lines, r'')
      → read_lines (suc k) r ≡ some (take n b.text ∷ lines, r'')
  unfolding read_lines
  read_lines-line k n b r r' lines r'' e f = rw (e, f) refl

  module _ (fits : size + 1 ≤ length block) (small : size ≤ uint_max) (pos : 0 < size) where
    fresh-IsSound : IsSound fresh
    fresh-IsSound = (omega arith, fits)

    -- What a fresh buffer gets.
    Line : Reader → Bytes × Bytes → Option ℕ → Type 0
    Line r line count =
        (b : Buff) × (s : Stream) × (buff_fgetsl fresh r.fpin ≡ some (count, (b, s)))
        × Holds line.0 b
        × (s.rest ≡ line.1)
        × EndsRight s

    room_eq : min (size - 0) uint_max ≡ size
    room_eq = omega arith

    -- Reading into the fresh buffer, with the whole of its size as room.
    fresh-Reads :
        (r : Reader) → EndsRight r.fpin → Reads fresh r.fpin size (buff_fgetsl fresh r.fpin)
    fresh-Reads r ends =
        subst (λ n. Reads fresh r.fpin n (buff_fgetsl fresh r.fpin)) room_eq
          (buff_fgetsln-Reads fresh r.fpin uint_max fresh-IsSound ends)

    fresh-Line :
        (r : Reader)
        → EndsRight r.fpin
        → Line r (fgets_loop size r.fpin.rest) (read_count size (fgets_loop size r.fpin.rest).0)
    unfolding Holds Line
    fresh-Line r ends =
        let (b, s, e, text, rest, sound, ends', _, _) = fresh-Reads r ends in
        let measured = ap length text in
        (
          b,
          s,
          e,
          (text, omega (arith, measured, length-take b.leng b.text, sound.0, sound.1), sound),
          rest,
          ends',
        )

    read_unsaved :
        (r : Reader) (count : Option ℕ) (b : Buff) (s : Stream)
        → buff_fgetsl fresh r.fpin ≡ some (count, (b, s))
        → mailbox_either none junk fresh r ≡ some (mailbox_line 0 count b (with_stream r s))
    unfolding mailbox_either mailbox_unsaved with_stream
    read_unsaved r count b s e = rw e refl

    pub getline-unsaved :
        (r : Reader) (count : Option ℕ) (b : Buff) (s : Stream)
        → r.mailbox_saved ≡ none
        → buff_fgetsl fresh r.fpin ≡ some (count, (b, s))
        → mailbox_getline junk fresh r ≡ some (mailbox_line 0 count b (with_stream r s))
    unfolding mailbox_getline
    getline-unsaved r count b s h e =
        ap (λ o. mailbox_either o junk fresh r) h ∙ read_unsaved r count b s e

    -- A piece that is there is read into the fresh buffer.
    unfoldable pub Piece : Reader → Bytes → List Bytes → Type 0
    Piece r p ps =
        (b : Buff) × (s : Stream) × (mailbox_getline junk fresh r
          ≡ some (piece_read p b (with_stream r s)))
        × Holds p b
        × IsCut size s.rest ps
        × EndsRight s

    pub fresh-Piece :
        (r : Reader) (p : Bytes) (ps : List Bytes)
        → r.mailbox_saved ≡ none
        → EndsRight r.fpin
        → IsCut size r.fpin.rest (p ∷ ps)
        → Piece r p ps
    unfolding Line Piece
    fresh-Piece r p ps unsaved ends (there, e, cut) =
        let (b, s, e1, holds, rest, ends') = fresh-Line r ends in
        let held = subst (λ q. Holds q b) e holds in
        let count : (read_count size (fgets_loop size r.fpin.rest).0 ≡ some (length p)) =
          ap (read_count size) e
          ∙ read_count-eq size p pos
              (subst (λ q. q ≢ []) e (fgets_loop-there size r.fpin.rest pos there)) in
        (
          b,
          s,
          getline-unsaved r (some (length p)) b s unsaved (e1 ∙ ap (λ c. some (c, (b, s))) count)
              ∙ ap some (mailbox_line-piece p b (with_stream r s) held),
          held,
          subst (λ t. IsCut size t ps) (sym rest) cut,
          ends',
        )

    pub read_lines-end :
        (k : ℕ) (r : Reader)
        → r.mailbox_saved ≡ none
        → EndsRight r.fpin
        → r.fpin.rest ≡ []
        → Ends (suc k) r ([], [])
    unfolding Ends Left Line with_stream
    read_lines-end k r unsaved ends e =
        let (b, s, e1, holds, rest, ends') = fresh-Line r ends in
        let nothing = ap (fgets_loop size) e ∙ fgets_loop-nil size in
        let count : (read_count size (fgets_loop size r.fpin.rest).0 ≡ none) =
          ap (λ l. read_count size l.0) nothing ∙ read_count-none size pos in
        (
          record (with_stream r s) { emptyline = false },
          read_lines-eof k (mark_end b) r (record (with_stream r s) { emptyline = false })
              (getline-unsaved r none b s unsaved (e1 ∙ ap (λ c. some (c, (b, s))) count)
                ∙ ap some (mailbox_line-eof b (with_stream r s))),
          refl,
          refl,
          ends',
          (unsaved, refl, rest ∙ ap (λ l. l.1) nothing),
        )
