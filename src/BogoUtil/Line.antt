-- ===== src/BogoUtil/Line.antt =====
-- A line of a dump of bogofilter/src/bogoutil.c, as the load reads it.
use bogofilter.Prelude.{
  ==_iff, All, All-append, Bool, Bool-cases, Bytes, [], ap, append-nil, append_assoc, arith, false,
  if◌then◌else◌, inl, inr, length, length-append, ltb, not, refl, subst, sym, true, ℕ, ◌&&◌, ◌++◌,
  ◌<◌, ◌==◌, ◌^◌, ◌∙◌, ◌∷◌, ◌≡◌, ◌≤◌,
}
use bogofilter.Word.{Word}
use bogofilter.Mime.Header.{c_string}
use bogofilter.Datastore.{Dsv}
use bogofilter.BogoUtil.{
  decimal, is_space, atoi, count_of, split_word, spanword, dump_line, Setup, entry, parse_line,
}
use bogofilter.BogoUtil.Numbers.{
  IsDigit, NoDigit, cons, decimal-IsDigit, Starts, starts, decimal-Starts, atoi-decimal,
}

-- A byte of a token that a line can hold: neither a NUL nor a space.
abbrev pub is_plain : ℕ → Bool
is_plain c = not (c == 0) && not (is_space c)

abbrev pub IsPlain : ℕ → Type 0
IsPlain c = is_plain c ≡ true

pub c_string-plain : (w rest : Bytes) → All IsPlain w → c_string (w ++ rest) ≡ w ++ c_string rest
unfolding c_string
c_string-plain [] rest h = refl
c_string-plain (c ∷ w) rest h = ground (arith, h.0, c_string-plain w rest h.1)

IsDigit-IsPlain : (w : Bytes) → All IsDigit w → All IsPlain w
IsDigit-IsPlain [] h = tt
IsDigit-IsPlain (c ∷ w) h = (ground (arith, h.0), IsDigit-IsPlain w h.1)

pub decimal-IsPlain : (n : ℕ) → All IsPlain (decimal n)
decimal-IsPlain n = IsDigit-IsPlain (decimal n) (decimal-IsDigit n)

split_word-plain :
    (w rest : Bytes) (c : ℕ)
    → All IsPlain w
    → is_space c ≡ true
    → split_word (w ++ (c ∷ rest)) ≡ (w, rest)
unfolding split_word
split_word-plain [] rest c h s = rw s refl
split_word-plain (x ∷ w) rest c h s = ground (arith, h.0, split_word-plain w rest c h.1 s)

-- A word in front of a space.
spanword-plain :
    (w rest : Bytes) (c : ℕ)
    → 0 < length w
    → All IsPlain w
    → is_space c ≡ true
    → spanword (w ++ (c ∷ rest)) ≡ (w, rest)
unfolding spanword
spanword-plain [] rest c l h s = absurd (omega arith)
spanword-plain (x ∷ w) rest c l h s = ground (arith, h.0, split_word-plain (x ∷ w) rest c h s)

Starts-length : {t : Bytes} → Starts t → 0 < length t
Starts-length (starts c t h) = omega arith

length-decimal_pos : (n : ℕ) → 0 < length (decimal n)
length-decimal_pos n =
    subst (λ t. 0 < length t) (append-nil (decimal n)) (Starts-length (decimal-Starts n []))

spanword-decimal :
    (n : ℕ) (rest : Bytes) (c : ℕ)
    → is_space c ≡ true
    → spanword (decimal n ++ (c ∷ rest)) ≡ (decimal n, rest)
spanword-decimal n rest c s =
    spanword-plain (decimal n) rest c (length-decimal_pos n) (decimal-IsPlain n) s

-- The token is not too long.
abbrev pub FitsToken : Setup → Word → Type 0
FitsToken o word = (not (o.max_token_len == 0) && ltb o.max_token_len (length word)) ≡ false

parse_fields :
    (o : Setup) (today : ℕ) (line word p p1 p2 : Bytes)
    → spanword line ≡ (word, p)
    → (spanword p).1 ≡ p1
    → (spanword p1).1 ≡ p2
    → (spanword p2).1 ≡ []
    → 4 ≤ length line
    → FitsToken o word
    → parse_line o today line
      ≡ entry word
          (count_of (atoi p))
          (count_of (atoi p1))
          (if atoi p2 == 0 then today else atoi p2)
unfolding parse_line
parse_fields o today line word p p1 p2 e e1 e2 e3 l f =
    let l' : ltb (length line) 4 ≡ false = ground arith in rw (e, e1, e2, e3, l', f) refl

-- What is behind the counts.
date_text : ℕ → Bytes
date_text date = (if date == 0 then [] else b' ' ∷ decimal date) ++ b'\n' ∷ []

-- What is left behind the second count.
date_rest : ℕ → Bytes
date_rest date = if date == 0 then [] else decimal date ++ b'\n' ∷ []

spanword-date_text : (n date : ℕ) → (spanword (decimal n ++ date_text date)).1 ≡ date_rest date
unfolding date_text date_rest
spanword-date_text n date = elim (Bool-cases (date == 0)) [
  | inl e ↦ rw e (ap (λ r. r.1) (spanword-decimal n [] b'\n' refl))
  | inr e ↦ rw e (ap (λ r. r.1) (spanword-decimal n (decimal date ++ b'\n' ∷ []) b' ' refl))
]

date_text-NoDigit : (date : ℕ) → NoDigit (date_text date)
unfolding date_text
date_text-NoDigit date = elim (Bool-cases (date == 0)) [
  | inl e ↦ rw e (cons b'\n' [] refl)
  | inr e ↦ rw e (cons b' ' _ refl)
]

spanword-nil : (spanword []).1 ≡ []
unfolding spanword
spanword-nil = refl

spanword-date_rest : (date : ℕ) → (spanword (date_rest date)).1 ≡ []
unfolding date_rest
spanword-date_rest date = elim (Bool-cases (date == 0)) [
  | inl e ↦ rw e spanword-nil
  | inr e ↦ rw e (ap (λ r. r.1) (spanword-decimal date [] b'\n' refl))
]

atoi-nil : atoi [] ≡ 0
unfolding atoi
atoi-nil = refl

atoi-date_rest : (date : ℕ) → date < 2 ^ 31 → atoi (date_rest date) ≡ date
unfolding date_rest
atoi-date_rest date h = elim (Bool-cases (date == 0)) [
  | inl e ↦ rw e (atoi-nil ∙ sym ((==_iff date 0).0 e))
  | inr e ↦ rw e (atoi-decimal date (b'\n' ∷ []) h (cons b'\n' [] refl))
]

-- The line of a token, without its end.
dump_line_lem :
    (w : Word) (v : Dsv)
    → All IsPlain w
    → dump_line w v
      ≡ w ++ (b' ' ∷ (decimal v.spamcount ++ (b' ' ∷ (decimal v.goodcount ++ date_text v.date))))
unfolding dump_line date_text
dump_line_lem w v h =
    ap
      (λ t.
        t ++ (b' ' ∷ (decimal v.spamcount ++ (b' ' ∷ (decimal v.goodcount ++ date_text v.date)))))
      (ap c_string (sym (append-nil w)) ∙ c_string-plain w [] h ∙ append-nil w)

date_text-pos : (date : ℕ) → 0 < length (date_text date)
unfolding date_text
date_text-pos date =
    ground (arith, length-append (if date == 0 then [] else b' ' ∷ decimal date) (b'\n' ∷ []))

count_lem : (x n : ℕ) → x ≡ n → n < 2 ^ 31 → count_of x ≡ n
count_lem x n e h = ground arith

-- The line that is dumped for a token is read back as its entry, where the date of the day stands
-- for no date.
pub parse_line-dump_line :
    (o : Setup) (today : ℕ) (w : Word) (v : Dsv)
    → 0 < length w
    → All IsPlain w
    → FitsToken o w
    → v.spamcount < 2 ^ 31
    → v.goodcount < 2 ^ 31
    → v.date < 2 ^ 31
    → parse_line o today (dump_line w v)
      ≡ entry w v.spamcount v.goodcount (if v.date == 0 then today else v.date)
parse_line-dump_line o today w v l h f a b c =
    let p1 = decimal v.goodcount ++ date_text v.date in
    let p = decimal v.spamcount ++ (b' ' ∷ p1) in
    let line = w ++ (b' ' ∷ p) in
    let spam : atoi p ≡ v.spamcount = atoi-decimal v.spamcount (b' ' ∷ p1) a (cons b' ' p1 refl) in
    let good : atoi p1 ≡ v.goodcount =
      atoi-decimal v.goodcount (date_text v.date) b (date_text-NoDigit v.date) in
    let date = atoi-date_rest v.date c in
    let fields =
      parse_fields o today line w p p1 (date_rest v.date) (spanword-plain w p b' ' l h refl)
        (ap (λ r. r.1) (spanword-decimal v.spamcount p1 b' ' refl))
        (spanword-date_text v.goodcount v.date) (spanword-date_rest v.date)
        (omega (
          arith,
          length-append w (b' ' ∷ p),
          length-append (decimal v.spamcount) (b' ' ∷ p1),
          length-append (decimal v.goodcount) (date_text v.date),
          length-decimal_pos v.spamcount,
          length-decimal_pos v.goodcount,
        ))
        f in
    rw (dump_line_lem w v h) (
      fields ∙ λ i.
      entry w (count_lem (atoi p) v.spamcount spam a i) (count_lem (atoi p1) v.goodcount good b i)
        (if date i == 0 then today else date i))

-- A byte within a line.
abbrev pub is_line : ℕ → Bool
is_line c = not (c == 0) && not (c == b'\n')

abbrev pub IsLine : ℕ → Type 0
IsLine c = is_line c ≡ true

IsPlain-IsLine : (w : Bytes) → All IsPlain w → All IsLine w
IsPlain-IsLine [] h = tt
IsPlain-IsLine (c ∷ w) h = (ground (arith, h.0), IsPlain-IsLine w h.1)

-- The line without its end.
unfoldable pub dump_body : Word → Dsv → Bytes
dump_body w v =
    w
    ++ (b' '
        ∷ (decimal v.spamcount
            ++ (b' '
                ∷ (decimal v.goodcount ++ (if v.date == 0 then [] else b' ' ∷ decimal v.date)))))

pub dump_line-dump_body :
    (w : Word) (v : Dsv) → All IsPlain w → dump_line w v ≡ dump_body w v ++ b'\n' ∷ []
unfolding dump_body
dump_line-dump_body w v h =
    dump_line_lem w v h
    ∙ (unfold date_text in
        ground (
          arith,
          append_assoc w
              (b' '
                ∷ (decimal v.spamcount
                    ++ (b' '
                        ∷ (decimal v.goodcount
                            ++ (if v.date == 0 then [] else b' ' ∷ decimal v.date)))))
              (b'\n' ∷ []),
          append_assoc (decimal v.spamcount)
              (b' ' ∷ (decimal v.goodcount ++ (if v.date == 0 then [] else b' ' ∷ decimal v.date)))
              (b'\n' ∷ []),
          append_assoc (decimal v.goodcount) (if v.date == 0 then [] else b' ' ∷ decimal v.date)
              (b'\n' ∷ []),
        ))

decimal-IsLine : (n : ℕ) → All IsLine (decimal n)
decimal-IsLine n = IsPlain-IsLine (decimal n) (decimal-IsPlain n)

date-IsLine : (date : ℕ) → All IsLine (if date == 0 then [] else b' ' ∷ decimal date)
date-IsLine date = elim (Bool-cases (date == 0)) [
  | inl e ↦ rw e tt
  | inr e ↦ rw e (refl, decimal-IsLine date)
]

pub dump_body-IsLine : (w : Word) (v : Dsv) → All IsPlain w → All IsLine (dump_body w v)
unfolding dump_body
dump_body-IsLine w v h = All-append IsLine w _ (IsPlain-IsLine w h) (
  refl,
  All-append IsLine (decimal v.spamcount) _ (decimal-IsLine v.spamcount) (
    refl,
    All-append IsLine (decimal v.goodcount) _ (decimal-IsLine v.goodcount) (date-IsLine v.date),
  ),
)
