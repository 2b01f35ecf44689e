-- ===== src/Format/Total.antt =====
-- The machine of bogofilter/src/format.c always ends, and the room that it takes.
use bogofilter.Prelude.{
  Bool, Bool-cases, Bytes, Option, [], arith, false, if◌then◌else◌, inl, inr, leb, length,
  length-append, ltb, ltb→lt, none, not, refl, some, suc, true, zero, ℕ, ◌&&◌, ◌*◌, ◌++◌, ◌+◌, ◌-◌,
  ◌<◌, ◌==◌, ◌>>=◌, ◌||◌, ◌∷◌, ◌≡◌, ◌≤◌,
}
use bogofilter.Mime.Header.{}
use bogofilter.Datastore.{Outcome, done, exits, spins}
use bogofilter.Format.{
  States, s_default, s_flags, s_min, s_dot, s_prec, s_conv, Spec, no_spec, Values, Machine, Source,
  percent, time, unknown, whole, cut, format_string, format_date, convert, step, run,
  convert_format_to_string, left, source, flips, is_spam, start,
}

-- How many iterations there may be without a byte that is used up.
unfoldable pub rank : States → ℕ
rank s_default = 0
rank s_flags = 3
rank s_min = 2
rank s_dot = 1
rank s_prec = 1
rank s_conv = 0

pub rank_le : (st : States) → rank st ≤ 3
unfolding rank
rank_le s_default = omega arith
rank_le s_flags = omega arith
rank_le s_min = omega arith
rank_le s_dot = omega arith
rank_le s_prec = omega arith
rank_le s_conv = omega arith

-- An iteration takes from the work that is left, and stays within the buffer.
pub data Good (size : ℕ) (st : States) : Option (Bool × Machine) → Type 0 where
  stops : Good size st none
  uses : (m : Machine) → length m.out ≤ size → Good size st (some (true, m))
  stays :
      (m : Machine) → rank m.state < rank st → length m.out ≤ size → Good size st (some (false, m))

Good-if :
    {size : ℕ} {st : States} (b : Bool) {x y : Option (Bool × Machine)}
    → Good size st x
    → Good size st y
    → Good size st (if b then x else y)
Good-if true p q = p
Good-if false p q = q

-- What is written fits the room.
abbrev Fits : ℕ → Option Bytes → Type 0
Fits room none = Unit
Fits room (some text) = length text ≤ room

Fits-if :
    (room : ℕ) (b : Bool) (text : Bytes)
    → (b ≡ true → length text ≤ room)
    → Fits room (if b then some text else none)
Fits-if room true text h = h refl
Fits-if room false text h = tt

format_string-Fits :
    (room prec : ℕ) (src : Bytes) (f_prec : Bool) → Fits room (format_string room src prec f_prec)
unfolding format_string
format_string-Fits room prec src f_prec = Fits-if room _ _ (λ h. ground (arith, h))

format_date-le : (room : ℕ) (date : Bytes) → length (format_date room date) ≤ room
unfolding format_date
format_date-le room date = ground arith

convert-Fits :
    (room : ℕ) (date : Bytes) (spec : Spec) (src : Source)
    → 0 < room
    → Fits room (convert room date spec src)
unfolding convert
convert-Fits room date spec percent h = omega arith
convert-Fits room date spec time h = format_date-le room date
convert-Fits room date spec unknown h = tt
convert-Fits room date spec (whole text) h = format_string-Fits room 0 text false
convert-Fits room date spec (cut text) h = format_string-Fits room spec.prec text spec.f_prec

conv-Good :
    (size : ℕ) (flipped : Bool) (out : Bytes) (text : Option Bytes)
    → length out < size
    → Fits (size - length out) text
    → Good size s_conv (
        text >>= λ t.
        some
          (true, record { state = s_default; spec = no_spec; flipped = flipped; out = out ++ t }))
conv-Good size flipped out none l h = stops
conv-Good size flipped out (some t) l h = uses _ (omega (arith, length-append out t))

pub step-Good :
    (v : Values) (size : ℕ) (st : States) (c : ℕ) (m : Machine)
    → length m.out < size
    → Good size st (step v size st c m)
unfolding step rank
step-Good v size s_default c m l =
    Good-if _ (uses _ (omega arith)) (uses _ (omega (arith, length-append m.out (c ∷ []))))
step-Good v size s_flags c m l =
    let stay : Good size s_flags (some (false, record m { state = s_min })) =
      stays _ (omega arith) (omega arith) in
    let zero : (x : Spec) → Good size s_flags (some (true, record m { spec = x })) =
      λ x. uses _ (omega arith) in
    Good-if (leb b'1' c && leb c b'9' || c == b'-') (zero m.spec) (
      Good-if (c == b'0') (zero (record m.spec { f_zero = true })) (
        Good-if (c == b'#') (zero (record m.spec { f_delta = m.spec.f_delta || is_spam v.status }))
          stay))
step-Good v size s_min c m l =
    Good-if _ (Good-if _ (uses _ (omega arith)) stops) (stays _ (omega arith) (omega arith))
step-Good v size s_dot c m l =
    Good-if _ (uses _ (omega arith)) (stays _ (omega arith) (omega arith))
step-Good v size s_prec c m l =
    Good-if _ (Good-if _ (uses _ (omega arith)) stops) (stays _ (omega arith) (omega arith))
step-Good v size s_conv c m l = conv-Good size _ m.out _ l (
    convert-Fits (size - length m.out) v.date m.spec
      (source v (if flips v c then not m.flipped else m.flipped) m.spec c) (omega arith))

-- The machine ended within the buffer, or it stopped at an overflow or the end of the program.
pub data Ended (size : ℕ) : Outcome Machine → Type 0 where
  stopped : Ended size exits
  ended : (m : Machine) → length m.out ≤ size → Ended size (done m)

-- How much work is left.
unfoldable pub work : ℕ → States → ℕ
work n st = 4 * n + rank st

after-Ended :
    (v : Values) (size n c : ℕ) (format : Bytes) (m : Machine) (o : Option (Bool × Machine))
    → Good size m.state o
    → work (length (c ∷ format)) m.state < suc n
    → ((f : Bytes) (m' : Machine)
        → work (length f) m'.state < n
        → length m'.out ≤ size
        → Ended size (run v size n f m'))
    → Ended size (elim o [ none ↦ exits | some (used, m') ↦ run v size n (left used c format) m' ])
unfolding work
after-Ended v size n c format m o stops w ih = stopped
after-Ended v size n c format m o (uses m' l) w ih =
    ih format m' (omega (arith, rank_le m'.state)) l
after-Ended v size n c format m o (stays m' r l) w ih = ih (c ∷ format) m' (omega arith) l

run-Ended :
    (v : Values) (size n : ℕ) (format : Bytes) (m : Machine)
    → work (length format) m.state < n
    → length m.out ≤ size
    → Ended size (run v size n format m)
unfolding work run
run-Ended v size zero format m w l = absurd (omega arith)
run-Ended v size (suc n) [] m w l = ended m l
run-Ended v size (suc n) (c ∷ format) m w l = elim (Bool-cases (c == 0)) [
  | inl e ↦ rw e (ended m l)
  | inr e ↦ elim (Bool-cases (ltb (length m.out) size)) [
    | inl k ↦
        rw (e, k)
          (after-Ended v size n c format m (step v size m.state c m)
            (step-Good v size m.state c m (ltb→lt _ _ k)) w
            (λ f m' w' l'. run-Ended v size n f m' w' l'))
    | inr k ↦ rw (e, k) (ended m l)
  ]
]

-- How an expansion ends: it ends the program or overflows an int, or it leaves a text that is no
-- longer than the buffer, with its NUL behind it.
pub data Expands (size : ℕ) : Outcome Bytes → Type 0 where
  refused : Expands size exits
  expanded : (text : Bytes) → length text ≤ size → Expands size (done text)

run-Expands :
    {size : ℕ} {o : Outcome Machine}
    → Ended size o
    → Expands size (elim o [ done m ↦ done m.out | exits ↦ exits | spins ↦ spins ])
run-Expands stopped = refused
run-Expands (ended m l) = expanded m.out l

-- The expansion of any format returns, ends the program, or stops at a width or a precision that an
-- int cannot hold. A text that it returns, without its NUL, is never longer than the buffer.
pub convert_format_to_string-Expands :
    (v : Values) (size : ℕ) (format : Bytes) → Expands size (convert_format_to_string v size format)
unfolding convert_format_to_string
convert_format_to_string-Expands v size format = run-Expands (
    run-Ended v size (4 * length format + 4) format start (unfold work rank in omega arith)
      (omega arith))
