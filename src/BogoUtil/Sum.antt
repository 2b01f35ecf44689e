-- ===== src/BogoUtil/Sum.antt =====
-- What the load of a dump in bogofilter/src/bogoutil.c asks of an entry, and what it adds up.
use bogofilter.Prelude.{
  All, Bool, Bool-cases, Bytes, List, [], ap, append_assoc, arith, false, if◌then◌else◌, inl, inr,
  length, length-append, refl, subst, suc, true, zero, ℕ, ◌%◌, ◌++◌, ◌+◌, ◌<◌, ◌==◌, ◌^◌, ◌∙◌, ◌∷◌,
  ◌≡◌, ◌≤◌,
}
use bogofilter.Word.{Word}
use bogofilter.WordHash.{same_word}
use bogofilter.Mime.Header.{c_string}
use bogofilter.Buff.{fgets_loop}
use bogofilter.Datastore.{Dsv}
use bogofilter.Datastore.Healthy.{SameCounts}
use bogofilter.BogoUtil.{dump_line, dump_wordlist, ds_dump_hook, Setup, is_count}
use bogofilter.BogoUtil.Line.{IsPlain, IsLine, FitsToken, dump_body, dump_line-dump_body}

-- A line that fits the buffer is read whole.
fgets-line :
    (n : ℕ) (text rest : Bytes)
    → All IsLine text
    → length text < n
    → fgets_loop n (text ++ (b'\n' ∷ rest)) ≡ (text ++ b'\n' ∷ [], rest)
unfolding fgets_loop
fgets-line zero text rest h l = absurd (omega arith)
fgets-line (suc n) [] rest h l = refl
fgets-line (suc n) (c ∷ text) rest h l = ground (arith, h.0, fgets-line n text rest h.1)

c_string-line :
    (text : Bytes) → All IsLine text → c_string (text ++ b'\n' ∷ []) ≡ text ++ b'\n' ∷ []
unfolding c_string
c_string-line [] h = refl
c_string-line (c ∷ text) h = ground (arith, h.0, c_string-line text h.1)

pub whole_line :
    (line text rest : Bytes)
    → line ≡ text ++ b'\n' ∷ []
    → All IsLine text
    → length text < 511
    → (fgets_loop 511 (line ++ rest) ≡ (line, rest))
      × ((c_string line ≡ line) × ((length line == 0) ≡ false))
whole_line line text rest e h l = rw e (
  ap (fgets_loop 511) (append_assoc text (b'\n' ∷ []) rest) ∙ fgets-line 511 text rest h l,
  (c_string-line text h, ground (arith, length-append text (b'\n' ∷ []))),
)

-- What is asked of an entry: the load takes the token, its line fits the buffer, and an int holds
-- its numbers.
pub record Loadable (o : Setup) (item : Word × Dsv) : Type 0 where
  pub filled : 0 < length item.0
  pub plain : All IsPlain item.0
  pub fits_token : FitsToken o item.0
  pub counted : is_count item.0 ≡ true
  pub fits_line : length (dump_body item.0 item.1) < 511
  pub spam_int : item.1.spamcount < 2 ^ 31
  pub good_int : item.1.goodcount < 2 ^ 31
  pub date_int : item.1.date < 2 ^ 31

-- The sum of two values; the date does not matter.
unfoldable pub add_value : Dsv → Dsv → Dsv
add_value e v = record v {
  spamcount = (v.spamcount + e.spamcount) % 2 ^ 32;
  goodcount = (v.goodcount + e.goodcount) % 2 ^ 32;
}

-- The value of a word after a load, from the value that it had.
unfoldable pub loaded : List (Word × Dsv) → Word → Dsv → Dsv
unfolding add_value
loaded [] u v = v
loaded ((w, e) ∷ items) u v = loaded items u (if same_word w u then add_value e v else v)

add_value_congr : (e v v' : Dsv) → SameCounts v v' → SameCounts (add_value e v) (add_value e v')
unfolding add_value
add_value_congr e v v' h = ground arith

pub loaded_congr :
    (items : List (Word × Dsv)) (u : Word) (v v' : Dsv)
    → SameCounts v v'
    → SameCounts (loaded items u v) (loaded items u v')
unfolding loaded
loaded_congr [] u v v' h = h
loaded_congr ((w, e) ∷ items) u v v' h =
    loaded_congr items u _ _ (elim (Bool-cases (same_word w u)) [
      | inl k ↦ rw k (add_value_congr e v v' h)
      | inr k ↦ rw k h
    ])

pub choose :
    (t : Bool) (x v v' z z' : Dsv)
    → SameCounts x (if t then v else z)
    → (t ≡ true → v ≡ v')
    → z ≡ z'
    → SameCounts x (if t then v' else z')
choose true x v v' z z' h e e' = subst (SameCounts x) (e refl) h
choose false x v v' z z' h e e' = subst (SameCounts x) e' h

-- The options of a dump and a load that take every token as it is.
abbrev pub TakesAll : Setup → Type 0
TakesAll o = (o.maintain ≡ false) × (o.maintenance.replace_nonascii_characters ≡ false)

pub hook_lem : (o : Setup) (w : Word) (e : Dsv) → TakesAll o → ds_dump_hook o w e ≡ dump_line w e
unfolding ds_dump_hook
hook_lem o w e (m, r) = rw (m, r) refl

-- A line takes a byte at least.
pub length-dump_wordlist :
    (o : Setup) (items : List (Word × Dsv))
    → TakesAll o
    → All (Loadable o) items
    → length items ≤ length (dump_wordlist o items)
unfolding dump_wordlist
length-dump_wordlist o [] p l = omega arith
length-dump_wordlist o ((w, e) ∷ items) p l =
    let line = hook_lem o w e p ∙ dump_line-dump_body w e l.0.plain in
    omega (
      arith,
      length-dump_wordlist o items p l.1,
      ap length line,
      length-append (ds_dump_hook o w e) (dump_wordlist o items),
      length-append (dump_body w e) (b'\n' ∷ []),
    )
