-- ===== src/Format/Directives.antt =====
-- What the machine of bogofilter/src/format.c writes for a format, piece by piece.
use bogofilter.Prelude.{
  All, Bool, Bytes, List, Option, [], ap, append-nil, append_assoc, arith, false, if◌then◌else◌,
  length, length-append, ltb, none, refl, some, subst, suc, sym, true, zero, ℕ, ◌*◌, ◌++◌, ◌+◌, ◌-◌,
  ◌<◌, ◌==◌, ◌^◌, ◌∙◌, ◌∷◌, ◌≡◌,
}
use bogofilter.Datastore.{done}
use bogofilter.Format.{
  s_default, s_flags, s_dot, s_prec, s_conv, Spec, no_spec, Values, Machine, Source, percent, time,
  unknown, whole, cut, cut_to, format_string, format_date, convert, source, step, run,
  convert_format_to_string, start,
}
use bogofilter.Format.Expansion.{with_prec, spec_of, turned, Expansion, nothing, byte, value}
use bogofilter.Format.Shown.{shown, option_spec-keeps, cut_to-limited, turned_lem, Shows-shown}
use bogofilter.Format.Total.{rank, work}
use bogofilter.Format.Steps.{
  number_from-le, IsNumber, number_from, Steps-run, Steps-append, option_step, digit_step,
  flags_step, min_step, dot_step, prec_step, conv_step, Steps, here, next, at, IsOption, IsDigit,
  IsConversion, Piece, directive, spell_prec, spell, IsPiece, option_spec, prec_spec, flipped_by,
}

fits_lem :
    (room : ℕ) (a b : Bytes)
    → some a ≡ some b
    → length b + 1 < room
    → (if ltb (length a + 1) room then some a else none) ≡ some b
fits_lem room a b e l = ground (arith, e)

date_lem :
    (room : ℕ) (date text : Bytes)
    → some date ≡ some text
    → length text + 1 < room
    → some (format_date room date) ≡ some text
unfolding format_date
date_lem room date text e l = ground (arith, e)

convert-shown :
    (room : ℕ) (date : Bytes) (s : Spec) (src : Source) (text : Bytes)
    → shown date s src ≡ some text
    → length text + 1 < room
    → convert room date s src ≡ some text
unfolding shown convert format_string
convert-shown room date s percent text e l = e
convert-shown room date s time text e l = date_lem room date text e l
convert-shown room date s unknown text e l = absurd cc
convert-shown room date s (whole t) text e l = fits_lem room (cut_to false 0 t) text e l
convert-shown room date s (cut t) text e l = fits_lem room (cut_to s.f_prec s.prec t) text e l

-- The option that is at the machine, with no conversion yet.
options-Steps :
    (v : Values) (size : ℕ) (options rest : Bytes) (s : Spec) (flipped : Bool) (out : Bytes)
    → length out < size
    → All IsOption options
    → Steps v size
        (options ++ rest)
        (record { state = s_flags; spec = s; flipped = flipped; out = out })
        rest
        (record { state = s_flags; spec = option_spec v s options; flipped = flipped; out = out })
unfolding option_spec
options-Steps v size [] rest s flipped out l h = here
options-Steps v size (c ∷ options) rest s flipped out l h =
    next true _ (ground (arith, h.0)) l (option_step v size c s flipped out h.0)
      (options-Steps v size options rest _ flipped out l h.1)

digits-Steps :
    (v : Values) (size : ℕ) (digits rest : Bytes) (s : Spec) (flipped : Bool) (out : Bytes)
    → length out < size
    → All IsDigit digits
    → number_from s.prec digits < 2 ^ 31
    → Steps v size
        (digits ++ rest)
        (record { state = s_prec; spec = s; flipped = flipped; out = out })
        rest
        (record { state = s_prec; spec = prec_spec s digits; flipped = flipped; out = out })
unfolding prec_spec number_from
digits-Steps v size [] rest s flipped out l h small = here
digits-Steps v size (c ∷ digits) rest s flipped out l h small =
    let bound = number_from-le (s.prec * 10 + (c - b'0')) digits in
    next true _ (ground (arith, h.0)) l
      (digit_step v size c s flipped out h.0 (omega (arith, bound)))
      (digits-Steps v size digits rest _ flipped out l h.1 small)

abbrev pub IsDigits : Option Bytes → Type 0
IsDigits none = Unit
IsDigits (some digits) = IsNumber digits

dot_used :
    (v : Values) (size : ℕ) (s : Spec) (flipped : Bool) (out : Bytes)
    → step v size s_dot b'.' (at s_dot s flipped out) ≡ some (true, at s_prec s flipped out)
unfolding step
dot_used v size s flipped out = refl

percent_step :
    (v : Values) (size : ℕ) (flipped : Bool) (out : Bytes)
    → step v size s_default b'%' (at s_default no_spec flipped out)
      ≡ some (true, at s_flags no_spec flipped out)
unfolding step
percent_step v size flipped out = refl

pub byte_step :
    (v : Values) (size c : ℕ) (flipped : Bool) (out : Bytes)
    → (c == b'%') ≡ false
    → step v size s_default c (at s_default no_spec flipped out)
      ≡ some (true, at s_default no_spec flipped (out ++ c ∷ []))
unfolding step
byte_step v size c flipped out h = rw h refl

piece_parts :
    (options : Bytes) (digits : Option Bytes) (c : ℕ)
    → IsPiece (directive options digits c)
    → All IsOption options × IsDigits digits × IsConversion c
piece_parts options none c h = (h.0, tt, h.1)
piece_parts options (some digits) c h = (h.0, h.1, h.2)

unfoldable pub spell_all : List Piece → Bytes
unfolding spell
spell_all [] = []
spell_all (p ∷ pieces) = spell p ++ spell_all pieces

spelled :
    (options : Bytes) (digits : Option Bytes) (c : ℕ) (rest : Bytes)
    → b'%' ∷ (options ++ (spell_prec digits ++ (c ∷ rest)))
      ≡ spell (directive options digits c) ++ rest
unfolding spell
spelled options digits c rest =
    ap (λ x. b'%' ∷ x)
      (ap (λ x. options ++ x) (sym (append_assoc (spell_prec digits) (c ∷ []) rest))
        ∙ sym (append_assoc options (spell_prec digits ++ c ∷ []) rest))

-- From the options of a directive to its conversion.
prec-Steps :
    (v : Values) (size : ℕ) (digits : Option Bytes) (c : ℕ) (rest : Bytes) (s : Spec)
    (flipped : Bool) (out : Bytes)
    → length out < size
    → s.prec ≡ 0
    → IsDigits digits
    → IsConversion c
    → Steps v size
        (spell_prec digits ++ (c ∷ rest))
        (at s_flags s flipped out)
        (c ∷ rest)
        (at s_conv (with_prec s digits) flipped out)
prec-Steps v size none c rest s flipped out l no_prec d (o, p, z) =
    next false _ z l (flags_step v size c s flipped out o) (
      next false _ z l (min_step v size c s flipped out o)
        (next false _ z l (dot_step v size c s flipped out p) here))
prec-Steps v size (some digits) c rest s flipped out l no_prec d (o, p, z) =
    next false _ refl l (flags_step v size b'.' s flipped out refl) (
      next false _ refl l (min_step v size b'.' s flipped out refl) (
        next true (at s_prec s flipped out) refl l (dot_used v size s flipped out) (
          Steps-append
            (digits-Steps v size digits (c ∷ rest) s flipped out l d.0
              (subst (λ n. number_from n digits < 2 ^ 31) (sym no_prec) d.1))
            (next false _ z l (prec_step v size c (prec_spec s digits) flipped out o) here))))

directive-Steps :
    (v : Values) (size : ℕ) (options : Bytes) (digits : Option Bytes) (c : ℕ) (t rest : Bytes)
    (flipped : Bool) (out : Bytes)
    → length out + length t + 1 < size
    → All IsOption options
    → IsDigits digits
    → IsConversion c
    → shown v.date
        (spec_of v options digits)
        (source v (flipped_by v flipped c) (spec_of v options digits) c)
      ≡ some t
    → Steps v size
        (b'%' ∷ (options ++ (spell_prec digits ++ (c ∷ rest))))
        (at s_default no_spec flipped out)
        rest
        (at s_default no_spec (flipped_by v flipped c) (out ++ t))
directive-Steps v size options digits c t rest flipped out l o d (oc, p, z) e =
    let room : length out < size = omega arith in
    next true (at s_flags no_spec flipped out) refl room (percent_step v size flipped out) (
      Steps-append
        (options-Steps v size options (spell_prec digits ++ (c ∷ rest)) no_spec flipped out room o)
        (Steps-append
          (prec-Steps v size digits c rest (option_spec v no_spec options) flipped out room
            (option_spec-keeps v options no_spec).0 d (oc, p, z))
          (next true _ z room
            (conv_step v size c (spec_of v options digits) flipped out t (
              convert-shown (size - length out) v.date (spec_of v options digits) _ t e
                (omega arith)))
            here)))

-- The pieces leave the text behind what was there.
record Leaves (v : Values) (size : ℕ) (format : Bytes) (m : Machine) (text : Bytes) : Type 0 where
  last : Machine
  steps : Steps v size format m [] last
  out_lem : last.out ≡ m.out ++ text

Expansion-Leaves :
    (v : Values) (size : ℕ) (pieces : List Piece) (text : Bytes) (flipped : Bool) (out : Bytes)
    → Expansion v flipped pieces text
    → All IsPiece pieces
    → length out + length text + 1 < size
    → Leaves v size (spell_all pieces) (at s_default no_spec flipped out) text
unfolding spell_all
Expansion-Leaves v size pieces text flipped out nothing h l = record {
  last = at s_default no_spec flipped out;
  steps = here;
  out_lem = sym (append-nil out);
}
Expansion-Leaves v size pieces text flipped out (byte {text = t} c x) (p, h) l =
    let r =
      Expansion-Leaves v size _ t flipped (out ++ c ∷ []) x h
        (omega (arith, length-append out (c ∷ []))) in
    record {
      last = r.last;
      steps = next true _ p.0 (omega arith) (byte_step v size c flipped out p.1) r.steps;
      out_lem = r.out_lem ∙ append_assoc out (c ∷ []) t;
    }
Expansion-Leaves v size pieces text flipped out
      (value {pieces = ps} {text = u} options digits c t shows x) (p, h) l =
    let turn = sym (turned_lem v flipped c) in
    let spec = spec_of v options digits in
    let e =
      subst (λ f. shown v.date spec (source v f spec c) ≡ some t) turn
        (Shows-shown v (turned v flipped c) digits spec c t (cut_to-limited v options digits)
          shows) in
    let q = piece_parts options digits c p in
    let r =
      Expansion-Leaves v size ps u (turned v flipped c) (out ++ t) x h
        (omega (arith, length-append out t, length-append t u)) in
    record {
      last = r.last;
      steps =
          subst (λ f. Steps v size f (at s_default no_spec flipped out) [] r.last)
            (spelled options digits c (spell_all ps))
            (Steps-append
              (subst
                (λ f.
                  Steps v size (b'%' ∷ (options ++ (spell_prec digits ++ (c ∷ spell_all ps))))
                    (at s_default no_spec flipped out) (spell_all ps)
                    (at s_default no_spec f (out ++ t)))
                (turned_lem v flipped c)
                (directive-Steps v size options digits c t (spell_all ps) flipped out
                  (omega (arith, length-append t u)) q.0 q.1 q.2 e))
              r.steps);
      out_lem = r.out_lem ∙ append_assoc out t u;
    }

run_end : (v : Values) (size n : ℕ) (m : Machine) → 0 < n → run v size n [] m ≡ done m
unfolding run
run_end v size zero m h = absurd (omega arith)
run_end v size (suc n) m h = refl

pub expanded_as :
    (v : Values) (size : ℕ) (format : Bytes) (m : Machine)
    → run v size (4 * length format + 4) format start ≡ done m
    → convert_format_to_string v size format ≡ done m.out
unfolding convert_format_to_string
expanded_as v size format m e = rw (e, convert_format_to_string) refl

-- A format that is spelled from pieces, with precisions that an int can hold, expands to the texts
-- of its pieces, one after the other, if they fit the buffer with a byte to spare: a directive
-- shows the value that its letter stands for, a string up to the precision that it gives, a width
-- has no effect, and each `%d` for spam changes the spamicity that it and the later directives
-- show.
pub convert_format_to_string-Expansion :
    (v : Values) (size : ℕ) (pieces : List Piece) (text : Bytes)
    → Expansion v false pieces text
    → All IsPiece pieces
    → length text + 1 < size
    → convert_format_to_string v size (spell_all pieces) ≡ done text
convert_format_to_string-Expansion v size pieces text x h l =
    let format = spell_all pieces in
    let r = Expansion-Leaves v size pieces text false [] x h (omega arith) in
    let (n, w, e) = Steps-run (4 * length format + 4) r.steps (unfold work rank in omega arith) in
    expanded_as v size format r.last (e ∙ run_end v size n r.last (omega (arith, w)))
    ∙ ap done r.out_lem
