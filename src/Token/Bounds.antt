-- ===== src/Token/Bounds.antt =====
-- Prefixes and tags of tokens in bogofilter/src/token.c.
use bogofilter.WordLists.SameBytes.{same_bytes_sound}
use bogofilter.Prelude.{
  Bool, Bool-cases, Bytes, List, Option, [], ap, arith, false, get_or, inl, inr, leb, leb-false,
  leb→le, length, length-append, length-take, none, refl, some, subst, sym, take,
  take-append_length, take_all, true, ℕ, ◌*◌, ◌++◌, ◌+◌, ◌-◌, ◌<◌, ◌==◌, ◌∷◌, ◌≡◌, ◌≢◌, ◌≤◌, ◌⊎◌,
}
use bogofilter.Mime.{MimePart}
use bogofilter.Mime.Header.{tolower}
use bogofilter.WordLists.{same_bytes}
use bogofilter.Token.{
  w_subj, w_mime, w_recv, w_from, w_head, w_rtrn, w_to, Tokens, TokenPrefix, prefix_text,
  build_prefixed_token, set_tag, clr_tag, in_message, is_message, tag_prefix, with_prefix,
  same_prefix,
}

-- The text with its prefix is smaller than the buffer, which has room for twice the prefix. It
-- begins with the prefix, and it is the prefix and the whole token unless these do not fit.
pub build_prefixed_token-fits :
    (prefix token : Bytes) (temp_size : ℕ)
    → 2 * length prefix + 1 ≤ temp_size
    → (length (build_prefixed_token prefix token temp_size) < temp_size)
      × (take (length prefix) (build_prefixed_token prefix token temp_size) ≡ prefix)
      × ((temp_size ≤ length prefix + length token)
          ⊎ (build_prefixed_token prefix token temp_size ≡ prefix ++ token))
unfolding build_prefixed_token
build_prefixed_token-fits prefix token temp_size h =
    elim (Bool-cases (leb temp_size (length token + length prefix))) [
      | inl e ↦
          let cut = temp_size - length prefix - 1 - length prefix in
          rw e (
            omega (arith, length-append prefix (take cut token), length-take cut token),
            take-append_length prefix (take cut token),
            inl (omega (arith, leb→le temp_size (length token + length prefix) e)),
          )
      | inr e ↦
          let whole = length token + length prefix - length prefix in
          rw e (
            omega (
              arith,
              length-append prefix (take whole token),
              length-take whole token,
              leb-false temp_size (length token + length prefix) e,
            ),
            take-append_length prefix (take whole token),
            inr (ap (◌++◌ prefix) (take_all whole token (omega arith))),
          )
    ]

-- The letters that a tag may begin with.
abbrev pub IsTagLetter : ℕ → Type 0
IsTagLetter c = (c ≡ b'c') ⊎ ((c ≡ b't') ⊎ ((c ≡ b'f') ⊎ ((c ≡ b'h') ⊎ ((c ≡ b'r') ⊎ (c ≡ b's')))))

-- The prefix that the first and the third letter of a tag stand for, on the outermost part or on
-- another one.
pub data StandsFor : ℕ → ℕ → Bool → TokenPrefix → Type 0 where
  copies : {third : ℕ} {top : Bool} → StandsFor b'c' third top w_to
  to : {third : ℕ} {top : Bool} → StandsFor b't' third top w_to
  from : {third : ℕ} {top : Bool} → StandsFor b'f' third top w_from
  head : {third : ℕ} → StandsFor b'h' third true w_head
  mime : {third : ℕ} → StandsFor b'h' third false w_mime
  return_path : {top : Bool} → StandsFor b'r' b't' top w_rtrn
  received : {third : ℕ} {top : Bool} → third ≢ b't' → StandsFor b'r' third top w_recv
  subject : {third : ℕ} {top : Bool} → StandsFor b's' third top w_subj

abbrev pub Announces : Bytes → Bool → TokenPrefix → Type 0
Announces text top new = StandsFor (tolower (get_or text 0 0)) (tolower (get_or text 2 0)) top new

abbrev first_letter : Bytes → ℕ
first_letter text = tolower (get_or text 0 0)

at_letter :
    (text : Bytes) (top : Bool) (c : ℕ) (new : TokenPrefix)
    → first_letter text ≡ c
    → StandsFor c (tolower (get_or text 2 0)) top new
    → Announces text top new
at_letter text top c new e a =
    subst (λ x. StandsFor x (tolower (get_or text 2 0)) top new) (sym e) a

not_t : (c : ℕ) → (c == b't') ≡ false → c ≢ b't'
not_t c h e = ground (arith, h, e)

return_letter :
    (text : Bytes) (top : Bool)
    → first_letter text ≡ b'r'
    → (new : TokenPrefix) × (tag_prefix text top ≡ some new) × Announces text top new
unfolding tag_prefix
return_letter text top e = elim (Bool-cases (tolower (get_or text 2 0) == b't')) [
  | inl k ↦
      let third : tolower (get_or text 2 0) ≡ b't' = ground (arith, k) in
      (
        w_rtrn,
        rw (e, third) refl,
        at_letter text top b'r' w_rtrn e
            (subst (λ x. StandsFor b'r' x top w_rtrn) (sym third) return_path),
      )
  | inr k ↦ (
    w_recv,
    rw (e, k) refl,
    at_letter text top b'r' w_recv e (received (not_t (tolower (get_or text 2 0)) k)),
  )
]

head_letter :
    (text : Bytes) (top : Bool)
    → first_letter text ≡ b'h'
    → (new : TokenPrefix) × (tag_prefix text top ≡ some new) × Announces text top new
unfolding tag_prefix
head_letter text true e = (w_head, rw e refl, at_letter text true b'h' w_head e head)
head_letter text false e = (w_mime, rw e refl, at_letter text false b'h' w_mime e mime)

known_letter :
    (text : Bytes) (top : Bool)
    → IsTagLetter (first_letter text)
    → (new : TokenPrefix) × (tag_prefix text top ≡ some new) × Announces text top new
unfolding tag_prefix
known_letter text top (inl e) = (w_to, rw e refl, at_letter text top b'c' w_to e copies)
known_letter text top (inr (inl e)) = (w_to, rw e refl, at_letter text top b't' w_to e to)
known_letter text top (inr (inr (inl e))) =
    (w_from, rw e refl, at_letter text top b'f' w_from e from)
known_letter text top (inr (inr (inr (inl e)))) = head_letter text top e
known_letter text top (inr (inr (inr (inr (inl e))))) = return_letter text top e
known_letter text top (inr (inr (inr (inr (inr e))))) =
    (w_subj, rw e refl, at_letter text top b's' w_subj e subject)

unknown_letter :
    (text : Bytes) (top : Bool)
    → ((tag_prefix text top ≡ none) × ¬ IsTagLetter (first_letter text))
      ⊎ IsTagLetter (first_letter text)
unfolding tag_prefix
unknown_letter text top = ground arith

tag_prefix-letter :
    (text : Bytes) (top : Bool)
    → ((tag_prefix text top ≡ none) × ¬ IsTagLetter (first_letter text))
      ⊎ ((new : TokenPrefix) × (tag_prefix text top ≡ some new) × Announces text top new)
tag_prefix-letter text top = elim (unknown_letter text top) [
  | inl u ↦ inl u
  | inr k ↦ inr (known_letter text top k)
]

in_message-cases :
    (stack : List MimePart) (p : MimePart) (parents : List MimePart)
    → stack ≡ p ∷ parents
    → (in_message stack ≡ some true) ⊎ (in_message stack ≡ some false)
unfolding in_message
in_message-cases [] p parents e = absurd cc
in_message-cases (p ∷ []) p' parents e = inr refl
in_message-cases (p ∷ q ∷ rest) p' parents e = elim (Bool-cases (is_message q.mime_type)) [
  | inl f ↦ inl (ap some f)
  | inr f ↦ inr (ap some f)
]

-- The prefix stays, or the words that were stored are not joined any more.
KeepsOrDrops : {L : Type 0} → TokenPrefix → Tokens L → Tokens L → Type 0
KeepsOrDrops new s s' =
    (s'.tok_count ≡ 0)
    ⊎ ((s'.tok_count ≡ s.tok_count)
        × ((s.token_prefix ≡ none)
            ⊎ ((old : TokenPrefix) × (s.token_prefix ≡ some old)
                × (prefix_text old ≡ prefix_text new))))

module _ {L : Type 0} where
  -- The outcomes of a tag: none inside of a message, the exit for an unknown letter, or a prefix.
  pub Tagged : Bytes → Tokens L → Option (Tokens L) → Type 0
  Tagged text s r =
      ((s' : Tokens L) × (in_message s.msg_state ≡ some true)
        × (r ≡ some s')
        × (s'.token_prefix ≡ none)
        × (s'.tok_count ≡ 0))
      ⊎ (((in_message s.msg_state ≡ some false)
            × (r ≡ none)
            × ¬ IsTagLetter (tolower (get_or text 0 0)))
          ⊎ ((new : TokenPrefix) × (s' : Tokens L) × (in_message s.msg_state ≡ some false)
              × Announces text (length s.msg_state == 1) new
              × (r ≡ some s')
              × (s'.token_prefix ≡ some new)
              × KeepsOrDrops new s s'))

  set_tag-cleared :
      (text : Bytes) (s : Tokens L)
      → s.header_line_markup ≡ true
      → in_message s.msg_state ≡ some true
      → set_tag text s ≡ some (clr_tag s)
  unfolding set_tag
  set_tag-cleared text s markup e = simp (markup, e)

  set_tag-unknown :
      (text : Bytes) (s : Tokens L)
      → s.header_line_markup ≡ true
      → in_message s.msg_state ≡ some false
      → tag_prefix text (length s.msg_state == 1) ≡ none
      → set_tag text s ≡ none
  unfolding set_tag
  set_tag-unknown text s markup e f = simp (markup, e, f)

  set_tag-known :
      (text : Bytes) (s : Tokens L) (new : TokenPrefix)
      → s.header_line_markup ≡ true
      → in_message s.msg_state ≡ some false
      → tag_prefix text (length s.msg_state == 1) ≡ some new
      → set_tag text s ≡ some (with_prefix s.token_prefix new s)
  unfolding set_tag
  set_tag-known text s new markup e f = simp (markup, e, f)

  with_prefix-set :
      (old : Option TokenPrefix) (new : TokenPrefix) (s : Tokens L)
      → (with_prefix old new s).token_prefix ≡ some new
  unfolding with_prefix
  with_prefix-set none new s = refl
  with_prefix-set (some old) new s = refl

  with_prefix-KeepsOrDrops :
      (old : Option TokenPrefix) (new : TokenPrefix) (s : Tokens L)
      → s.token_prefix ≡ old
      → KeepsOrDrops new s (with_prefix old new s)
  unfolding with_prefix KeepsOrDrops same_prefix
  with_prefix-KeepsOrDrops none new s e = inr (refl, inl e)
  with_prefix-KeepsOrDrops (some old) new s e =
      elim (Bool-cases (same_bytes (prefix_text old) (prefix_text new))) [
        | inl f ↦
            inr (rw f refl, inr (old, e, same_bytes_sound (prefix_text old) (prefix_text new) f))
        | inr f ↦ inl (rw f refl)
      ]

  -- With markup on, and on a stack that is not empty: inside of a message the tag is cleared and
  -- the stored words are dropped. Elsewhere a text with another first letter than the six known
  -- ones, in upper or lower case, ends the program, and any other sets the prefix that its letters
  -- stand for: `c` and `t` the one of receivers, `f` of senders, `h` of the header or of a MIME
  -- header below the outermost part, `r` of the return path if the third letter is a `t` and of
  -- `Received` otherwise, `s` of the subject. The stored words stay only if there was no prefix or
  -- one of the same text.
  pub set_tag-Tagged :
      (text : Bytes) (s : Tokens L) (p : MimePart) (parents : List MimePart)
      → s.header_line_markup ≡ true
      → s.msg_state ≡ p ∷ parents
      → Tagged text s (set_tag text s)
  unfolding Tagged clr_tag
  set_tag-Tagged text s p parents markup e = elim (in_message-cases s.msg_state p parents e) [
    | inl inside ↦ inl (clr_tag s, inside, set_tag-cleared text s markup inside, refl, refl)
    | inr outside ↦ elim (tag_prefix-letter text (length s.msg_state == 1)) [
      | inl (f, unknown) ↦ inr (inl (outside, set_tag-unknown text s markup outside f, unknown))
      | inr (new, f, letter) ↦ inr (
          inr (
            new,
            with_prefix s.token_prefix new s,
            outside,
            letter,
            set_tag-known text s new markup outside f,
            with_prefix-set s.token_prefix new s,
            with_prefix-KeepsOrDrops s.token_prefix new s refl,
          ))
    ]
  ]
