-- ===== src/Format/Shown.antt =====
-- What the conversions of bogofilter/src/format.c show is what they should show.
use bogofilter.Prelude.{
  Bool, Bool-cases, Bytes, Option, [], ap, false, if◌then◌else◌, inl, inr, length, ltb, ltb-false,
  none, not, refl, some, sym, take, take_all, true, ℕ, ◌&&◌, ◌==◌, ◌||◌, ◌∙◌, ◌∷◌, ◌≡◌,
}
use bogofilter.Mime.Header.{c_string}
use bogofilter.Format.{
  Spec, no_spec, Values, Source, percent, time, unknown, whole, cut, cut_to, flips, is_spam,
  or_unknown, source,
}
use bogofilter.Format.Expansion.{
  spec_of, limited, turned, is_spam_class, Shows, percent_sign, sender, class, complement, today,
  message_id, queue, exponential, fixed, general, octal, header_name, log_tag, spamicity, run_type,
  user_name, words, messages, program,
}
use bogofilter.Passthrough.{Rc, rc_spam, rc_ham, rc_unsure, rc_ok, rc_more}
use bogofilter.Format.Steps.{number_from, option_spec, prec_spec, flipped_by}

-- The text of a source, without a limit.
unfoldable pub shown : Bytes → Spec → Source → Option Bytes
unfolding cut_to c_string
shown date s percent = some (b'%' ∷ [])
shown date s time = some date
shown date s unknown = none
shown date s (whole text) = some (cut_to false 0 text)
shown date s (cut text) = some (cut_to s.f_prec s.prec text)

one_option :
    (a b f : Bool) (s : Spec)
    → ((if a then record s { f_zero = true } else if b then record s { f_delta = f } else s).prec
        ≡ s.prec)
      × ((if a
            then record s { f_zero = true }
            else if b
            then record s { f_delta = f }
            else s).f_prec
          ≡ s.f_prec)
one_option true b f s = (refl, refl)
one_option false true f s = (refl, refl)
one_option false false f s = (refl, refl)

-- Options leave the precision as it is.
pub option_spec-keeps :
    (v : Values) (options : Bytes) (s : Spec)
    → ((option_spec v s options).prec ≡ s.prec) × ((option_spec v s options).f_prec ≡ s.f_prec)
unfolding option_spec
option_spec-keeps v [] s = (refl, refl)
option_spec-keeps v (c ∷ options) s =
    let one = one_option (c == b'0') (c == b'#') (s.f_delta || is_spam v.status) s in
    let more = option_spec-keeps v options _ in (more.0 ∙ one.0, more.1 ∙ one.1)

prec_spec-prec : (digits : Bytes) (s : Spec) → (prec_spec s digits).prec ≡ number_from s.prec digits
unfolding prec_spec number_from
prec_spec-prec [] s = refl
prec_spec-prec (c ∷ digits) s = prec_spec-prec digits _

prec_spec-f_prec :
    (digits : Bytes) (s : Spec) → s.f_prec ≡ true → (prec_spec s digits).f_prec ≡ true
unfolding prec_spec
prec_spec-f_prec [] s h = h
prec_spec-f_prec (c ∷ digits) s h = prec_spec-f_prec digits _ refl

cut_to-none : (prec : ℕ) (text : Bytes) → cut_to false prec text ≡ c_string text
unfolding cut_to
cut_to-none prec text = refl

cut_to-take : (prec : ℕ) (text : Bytes) → cut_to true prec text ≡ take prec (c_string text)
unfolding cut_to
cut_to-take prec text = elim (Bool-cases (ltb prec (length (c_string text)))) [
  | inl e ↦ rw e refl
  | inr e ↦ rw e (sym (take_all prec (c_string text) (ltb-false prec (length (c_string text)) e)))
]

digits_limit :
    (s : Spec) (c : ℕ) (digits text : Bytes)
    → s.prec ≡ 0
    → cut_to (prec_spec s (c ∷ digits)).f_prec (prec_spec s (c ∷ digits)).prec text
      ≡ take (number_from 0 (c ∷ digits)) (c_string text)
unfolding prec_spec
digits_limit s c digits text z =
    ap (λ f. cut_to f (prec_spec s (c ∷ digits)).prec text) (prec_spec-f_prec digits _ refl)
    ∙ ap (λ n. cut_to true n text)
        (prec_spec-prec (c ∷ digits) s ∙ ap (λ n. number_from n (c ∷ digits)) z)
    ∙ cut_to-take (number_from 0 (c ∷ digits)) text

-- The precision of a directive is that of its digits.
pub cut_to-limited :
    (v : Values) (options : Bytes) (digits : Option Bytes) (text : Bytes)
    → cut_to (spec_of v options digits).f_prec (spec_of v options digits).prec text
      ≡ limited digits text
unfolding limited prec_spec
cut_to-limited v options none text =
    ap (λ f. cut_to f (option_spec v no_spec options).prec text)
      (option_spec-keeps v options no_spec).1
    ∙ cut_to-none (option_spec v no_spec options).prec text
cut_to-limited v options (some []) text =
    ap (λ f. cut_to f (option_spec v no_spec options).prec text)
      (option_spec-keeps v options no_spec).1
    ∙ cut_to-none (option_spec v no_spec options).prec text
cut_to-limited v options (some (c ∷ digits)) text =
    digits_limit (option_spec v no_spec options) c digits text
      (option_spec-keeps v options no_spec).0

class_lem : (r : Rc) → is_spam r ≡ is_spam_class r
unfolding is_spam is_spam_class
class_lem rc_spam = refl
class_lem rc_ham = refl
class_lem rc_unsure = refl
class_lem rc_ok = refl
class_lem rc_more = refl

pub turned_lem : (v : Values) (flipped : Bool) (c : ℕ) → flipped_by v flipped c ≡ turned v flipped c
unfolding turned flips
turned_lem v flipped c =
    ap (λ s. if (c == b'd') && s then not flipped else flipped) (class_lem v.status)

pub Shows-shown :
    (v : Values) (flipped : Bool) (digits : Option Bytes) (s : Spec) (c : ℕ) (t : Bytes)
    → ((text : Bytes) → cut_to s.f_prec s.prec text ≡ limited digits text)
    → Shows v flipped digits s c t
    → shown v.date s (source v flipped s c) ≡ some t
unfolding shown source cut_to
Shows-shown v flipped digits s c t lim percent_sign = refl
Shows-shown v flipped digits s c t lim sender = ap some (lim (or_unknown v.msg_addr))
Shows-shown v flipped digits s c t lim class = ap some (lim (v.spamicity_tags v.status))
Shows-shown v flipped digits s c t lim complement = refl
Shows-shown v flipped digits s c t lim today = refl
Shows-shown v flipped digits s c t lim message_id = ap some (lim (or_unknown v.msg_id))
Shows-shown v flipped digits s c t lim queue = ap some (lim (or_unknown v.queue_id))
Shows-shown v flipped digits s c t lim exponential = refl
Shows-shown v flipped digits s c t lim fixed = refl
Shows-shown v flipped digits s c t lim general = refl
Shows-shown v flipped digits s c t lim octal = refl
Shows-shown v flipped digits s c t lim header_name = ap some (lim v.spam_header_name)
Shows-shown v flipped digits s c t lim log_tag = ap some (lim v.logtag)
Shows-shown v flipped digits s c t lim spamicity = refl
Shows-shown v flipped digits s c t lim run_type = refl
Shows-shown v flipped digits s c t lim user_name = ap some (lim v.user)
Shows-shown v flipped digits s c t lim words = refl
Shows-shown v flipped digits s c t lim messages = refl
Shows-shown v flipped digits s c t lim program = ap some (lim v.version)
