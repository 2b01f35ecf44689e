-- ===== src/Format/Steps.antt =====
-- The iterations of the machine of bogofilter/src/format.c, one by one and in sequence.
use bogofilter.Prelude.{
  All, Bool, Bytes, Option, [], arith, false, if◌then◌else◌, length, lt→ltb, none, not, refl, some,
  subst, suc, true, zero, ℕ, ◌*◌, ◌++◌, ◌+◌, ◌-◌, ◌<◌, ◌==◌, ◌^◌, ◌||◌, ◌∙◌, ◌∷◌, ◌≡◌, ◌≤◌,
}
use bogofilter.Mime.Header.{}
use bogofilter.Datastore.{}
use bogofilter.BogoUtil.{is_digit}
use bogofilter.Format.{
  States, s_default, s_flags, s_min, s_dot, s_prec, s_conv, Spec, no_spec, Values, Machine, convert,
  source, flips, is_spam, step, run, left,
}
use bogofilter.Format.Total.{rank_le, Good, uses, stays, stops, step-Good, work}

-- Some iterations, each within the buffer.
pub data Steps (v : Values) (size : ℕ) : Bytes → Machine → Bytes → Machine → Type 0 where
  here : {f : Bytes} {m : Machine} → Steps v size f m f m
  next :
      {c : ℕ} {f g : Bytes} {m k : Machine} (used : Bool) (m' : Machine)
      → (c == 0) ≡ false
      → length m.out < size
      → step v size m.state c m ≡ some (used, m')
      → Steps v size (left used c f) m' g k
      → Steps v size (c ∷ f) m g k

pub run_next :
    (v : Values) (size n c : ℕ) (f : Bytes) (m m' : Machine) (used : Bool)
    → (c == 0) ≡ false
    → length m.out < size
    → step v size m.state c m ≡ some (used, m')
    → run v size (suc n) (c ∷ f) m ≡ run v size n (left used c f) m'
unfolding run
run_next v size n c f m m' used z l e = rw (z, lt→ltb _ _ l, e) refl

-- The work that is left after an iteration.
abbrev Below : ℕ → ℕ → Bytes → Option (Bool × Machine) → Type 0
Below n c f none = Unit
Below n c f (some (used, m')) = work (length (left used c f)) m'.state < n

pub Good-Below :
    (size c : ℕ) (f : Bytes) (st : States) (o : Option (Bool × Machine))
    → Good size st o
    → Below (work (length (c ∷ f)) st) c f o
unfolding work
Good-Below size c f st o stops = tt
Good-Below size c f st o (uses m' l) = omega (arith, rank_le m'.state)
Good-Below size c f st o (stays m' r l) = omega arith

pub work-falls :
    (v : Values) (size : ℕ) (c : ℕ) (f : Bytes) (m m' : Machine) (used : Bool)
    → length m.out < size
    → step v size m.state c m ≡ some (used, m')
    → work (length (left used c f)) m'.state < work (length (c ∷ f)) m.state
work-falls v size c f m m' used l e =
    subst (Below (work (length (c ∷ f)) m.state) c f) e
      (Good-Below size c f m.state (step v size m.state c m) (step-Good v size m.state c m l))

pub Steps-run :
    {v : Values} {size : ℕ} {f g : Bytes} {m k : Machine} (n : ℕ)
    → Steps v size f m g k
    → work (length f) m.state < n
    → (n' : ℕ) × (work (length g) k.state < n') × (run v size n f m ≡ run v size n' g k)
Steps-run n here w = (n, w, refl)
Steps-run zero (next used m' z l e s) w = absurd (omega arith)
Steps-run {v} {size} (suc n) (next {c} {f} {g} {m} used m' z l e s) w =
    let fall = work-falls v size c f m m' used l e in
    let (n', w', r) = Steps-run n s (omega (arith, fall)) in
    (n', w', run_next v size n c f m m' used z l e ∙ r)

pub Steps-append :
    {v : Values} {size : ℕ} {f g h : Bytes} {m k j : Machine}
    → Steps v size f m g k
    → Steps v size g k h j
    → Steps v size f m h j
Steps-append here t = t
Steps-append (next used m' z l e s) t = next used m' z l e (Steps-append s t)

-- A byte that stands for an option.
abbrev pub is_option : ℕ → Bool
is_option c = is_digit c || (c == b'-' || c == b'#')

abbrev pub IsOption : ℕ → Type 0
IsOption c = is_option c ≡ true

abbrev pub IsDigit : ℕ → Type 0
IsDigit c = is_digit c ≡ true

-- A conversion is none of the bytes in front of it.
abbrev pub IsConversion : ℕ → Type 0
IsConversion c = (is_option c ≡ false) × ((c == b'.') ≡ false) × ((c == 0) ≡ false)

-- A piece of a format: a byte, or a directive with its options and the digits behind a dot.
pub data Piece : Type 0 where
  literal : ℕ → Piece
  directive : Bytes → Option Bytes → ℕ → Piece

abbrev pub spell_prec : Option Bytes → Bytes
spell_prec none = []
spell_prec (some digits) = b'.' ∷ digits

unfoldable pub spell : Piece → Bytes
spell (literal c) = c ∷ []
spell (directive options digits c) = b'%' ∷ (options ++ (spell_prec digits ++ c ∷ []))

-- The number that the digits spell, after the digits in front of them.
unfoldable pub number_from : ℕ → Bytes → ℕ
number_from n [] = n
number_from n (c ∷ digits) = number_from (n * 10 + (c - b'0')) digits

pub number_from-le : (n : ℕ) (digits : Bytes) → n ≤ number_from n digits
unfolding number_from
number_from-le n [] = omega arith
number_from-le n (c ∷ digits) = omega (arith, number_from-le (n * 10 + (c - b'0')) digits)

-- Digits of a number that an int can hold.
abbrev pub IsNumber : Bytes → Type 0
IsNumber digits = All IsDigit digits × (number_from 0 digits < 2 ^ 31)

abbrev pub IsPiece : Piece → Type 0
IsPiece (literal c) = ((c == 0) ≡ false) × ((c == b'%') ≡ false)
IsPiece (directive options none c) = All IsOption options × IsConversion c
IsPiece (directive options (some digits) c) =
    All IsOption options × IsNumber digits × IsConversion c

-- The options set two flags; a width sets nothing.
unfoldable pub option_spec : Values → Spec → Bytes → Spec
option_spec v s [] = s
option_spec v s (c ∷ options) =
    option_spec v
      (if c == b'0'
        then record s { f_zero = true }
        else if c == b'#'
        then record s { f_delta = s.f_delta || is_spam v.status }
        else s)
      options

unfoldable pub prec_spec : Spec → Bytes → Spec
prec_spec s [] = s
prec_spec s (c ∷ digits) =
    prec_spec (record s { prec = s.prec * 10 + (c - b'0'); f_prec = true }) digits

abbrev pub at : States → Spec → Bool → Bytes → Machine
at st s flipped out = record { state = st; spec = s; flipped = flipped; out = out }

pub option_step :
    (v : Values) (size c : ℕ) (s : Spec) (flipped : Bool) (out : Bytes)
    → IsOption c
    → step v size s_flags c (at s_flags s flipped out)
      ≡ some (
        true,
        at s_flags
            (if c == b'0'
              then record s { f_zero = true }
              else if c == b'#'
              then record s { f_delta = s.f_delta || is_spam v.status }
              else s)
            flipped
            out,
      )
unfolding step
option_step v size c s flipped out h = ground (arith, h)

pub digit_step :
    (v : Values) (size c : ℕ) (s : Spec) (flipped : Bool) (out : Bytes)
    → IsDigit c
    → s.prec * 10 + (c - b'0') < 2 ^ 31
    → step v size s_prec c (at s_prec s flipped out)
      ≡ some (
        true,
        at s_prec (record s { prec = s.prec * 10 + (c - b'0'); f_prec = true }) flipped out,
      )
unfolding step
digit_step v size c s flipped out h small = rw (h, lt→ltb _ _ small) refl

-- A byte that is no option is left for the next state.
pub flags_step :
    (v : Values) (size c : ℕ) (s : Spec) (flipped : Bool) (out : Bytes)
    → is_option c ≡ false
    → step v size s_flags c (at s_flags s flipped out) ≡ some (false, at s_min s flipped out)
unfolding step
flags_step v size c s flipped out h = ground (arith, h)

pub min_step :
    (v : Values) (size c : ℕ) (s : Spec) (flipped : Bool) (out : Bytes)
    → is_option c ≡ false
    → step v size s_min c (at s_min s flipped out) ≡ some (false, at s_dot s flipped out)
unfolding step
min_step v size c s flipped out h = ground (arith, h)

pub dot_step :
    (v : Values) (size c : ℕ) (s : Spec) (flipped : Bool) (out : Bytes)
    → (c == b'.') ≡ false
    → step v size s_dot c (at s_dot s flipped out) ≡ some (false, at s_conv s flipped out)
unfolding step
dot_step v size c s flipped out h = rw h refl

pub prec_step :
    (v : Values) (size c : ℕ) (s : Spec) (flipped : Bool) (out : Bytes)
    → is_option c ≡ false
    → step v size s_prec c (at s_prec s flipped out) ≡ some (false, at s_conv s flipped out)
unfolding step
prec_step v size c s flipped out h = ground (arith, h)

-- The spamicity after a conversion.
abbrev pub flipped_by : Values → Bool → ℕ → Bool
flipped_by v flipped c = if flips v c then not flipped else flipped

pub conv_step :
    (v : Values) (size c : ℕ) (s : Spec) (flipped : Bool) (out text : Bytes)
    → convert (size - length out) v.date s (source v (flipped_by v flipped c) s c) ≡ some text
    → step v size s_conv c (at s_conv s flipped out)
      ≡ some (true, at s_default no_spec (flipped_by v flipped c) (out ++ text))
unfolding step
conv_step v size c s flipped out text e = rw e refl
