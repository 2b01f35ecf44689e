-- ===== src/Reader/Split.antt =====
-- A mailbox as the list of its mails, to which the reader of bogofilter/src/bogoreader.c is compared.
use bogofilter.Prelude.{
  All, Bool, Bool-cases, Bytes, List, [], ap, arith, concat, false, if◌then◌else◌, inl, inr, length,
  refl, true, ◌&&◌, ◌||◌, ◌∙◌, ◌∷◌, ◌≡◌, ◌≤◌,
}
use bogofilter.Reader.Mbox.{is_start, eol, mail_lines}
use bogofilter.Reader.Mails.{mail_lines-nil, mail_lines-first, mail_lines-next, mail_lines-inside}

-- The piece becomes the first of the first mail.
abbrev pub add_front : Bytes → List (List Bytes) → List (List Bytes)
add_front p [] = (p ∷ []) ∷ []
add_front p (m ∷ ms) = (p ∷ m) ∷ ms

-- The mails: one ends in front of a separator that follows an empty line. The first separator ends
-- none, but it is looked for in every piece, and only behind it do the empty lines count.
unfoldable pub split : Bytes → Bool → Bool → List Bytes → List (List Bytes)
split sep first empty [] = [] ∷ []
split sep first empty (p ∷ ps) =
    let at_start = split sep false (eol p) ps in
    let kept = split sep false false ps in
    let inside = split sep first (eol p) ps in
    if (first || empty) && is_start sep p
    then if first then add_front p at_start else [] ∷ add_front p kept
    else add_front p inside

-- The mails from a piece that was kept on.
abbrev pub mails_left : Bytes → List Bytes → List (List Bytes)
mails_left sep [] = []
mails_left sep (p ∷ ps) = add_front p (split sep false false ps)

pub split-mail_lines :
    (sep : Bytes) (first empty : Bool) (ps : List Bytes)
    → let m = mail_lines sep first empty ps in split sep first empty ps ≡ m.0 ∷ mails_left sep m.1
unfolding split
split-mail_lines sep first empty [] = rw (mail_lines-nil sep first empty) refl
split-mail_lines sep first empty (p ∷ ps) = elim (Bool-cases ((first || empty) && is_start sep p)) [
  | inl h ↦ elim (Bool-cases first) [
    | inl f ↦
        rw (mail_lines-first sep p first empty ps h f)
          (rw h (rw f (ap (add_front p) (split-mail_lines sep false (eol p) ps))))
    | inr f ↦ rw (mail_lines-next sep p first empty ps h f) (rw h (rw f refl))
  ]
  | inr h ↦
      rw (mail_lines-inside sep p first empty ps h)
        (rw h (ap (add_front p) (split-mail_lines sep first (eol p) ps)))
]

pub length-mail_lines :
    (sep : Bytes) (first empty : Bool) (ps : List Bytes)
    → length (mail_lines sep first empty ps).1 ≤ length ps
length-mail_lines sep first empty [] = rw (mail_lines-nil sep first empty) (omega arith)
length-mail_lines sep first empty (p ∷ ps) =
    elim (Bool-cases ((first || empty) && is_start sep p)) [
      | inl h ↦ elim (Bool-cases first) [
        | inl f ↦
            rw (mail_lines-first sep p first empty ps h f)
              (omega (arith, length-mail_lines sep false (eol p) ps))
        | inr f ↦ rw (mail_lines-next sep p first empty ps h f) (omega arith)
      ]
      | inr h ↦
          rw (mail_lines-inside sep p first empty ps h)
            (omega (arith, length-mail_lines sep first (eol p) ps))
    ]

-- The pieces of all mails are those of the mailbox.
concat-add_front : (p : Bytes) (ms : List (List Bytes)) → concat (add_front p ms) ≡ p ∷ concat ms
concat-add_front p [] = refl
concat-add_front p (m ∷ ms) = refl

pub concat-split :
    (sep : Bytes) (first empty : Bool) (ps : List Bytes) → concat (split sep first empty ps) ≡ ps
unfolding split
concat-split sep first empty [] = refl
concat-split sep first empty (p ∷ ps) = elim (Bool-cases ((first || empty) && is_start sep p)) [
  | inl h ↦ elim (Bool-cases first) [
    | inl f ↦
        rw (h, f)
          (concat-add_front p (split sep false (eol p) ps)
            ∙ ap (◌∷◌ p) (concat-split sep false (eol p) ps))
    | inr f ↦
        rw (h, f)
          (concat-add_front p (split sep false false ps)
            ∙ ap (◌∷◌ p) (concat-split sep false false ps))
  ]
  | inr h ↦ rw h (
      concat-add_front p (split sep first (eol p) ps)
      ∙ ap (◌∷◌ p) (concat-split sep first (eol p) ps))
]

-- The mail's first piece is a separator.
abbrev pub BeginsMail : Bytes → List Bytes → Type 0
BeginsMail sep [] = Bool.false ≡ true
BeginsMail sep (p ∷ ps) = is_start sep p ≡ true

-- All mails but the first begin with a separator.
abbrev pub RestBegin : Bytes → List (List Bytes) → Type 0
RestBegin sep [] = Unit
RestBegin sep (m ∷ ms) = All (BeginsMail sep) ms

RestBegin-add_front :
    (sep p : Bytes) (ms : List (List Bytes)) → RestBegin sep ms → RestBegin sep (add_front p ms)
RestBegin-add_front sep p [] h = tt
RestBegin-add_front sep p (m ∷ ms) h = h

All-add_front :
    (sep p : Bytes) (ms : List (List Bytes))
    → is_start sep p ≡ true
    → RestBegin sep ms
    → All (BeginsMail sep) (add_front p ms)
All-add_front sep p [] s h = (s, tt)
All-add_front sep p (m ∷ ms) s h = (s, h)

and-right : (a b : Bool) → (a && b) ≡ true → b ≡ true
and-right true b e = e
and-right false b e = absurd cc

pub split-RestBegin :
    (sep : Bytes) (first empty : Bool) (ps : List Bytes) → RestBegin sep (split sep first empty ps)
unfolding split
split-RestBegin sep first empty [] = tt
split-RestBegin sep first empty (p ∷ ps) = elim (Bool-cases ((first || empty) && is_start sep p)) [
  | inl h ↦ elim (Bool-cases first) [
    | inl f ↦
        rw (h, f)
          (RestBegin-add_front sep p (split sep false (eol p) ps)
            (split-RestBegin sep false (eol p) ps))
    | inr f ↦
        rw (h, f)
          (All-add_front sep p (split sep false false ps)
            (and-right (first || empty) (is_start sep p) h) (split-RestBegin sep false false ps))
  ]
  | inr h ↦ rw h (
      RestBegin-add_front sep p (split sep first (eol p) ps) (split-RestBegin sep first (eol p) ps))
]
