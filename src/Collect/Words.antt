-- ===== src/Collect/Words.antt =====
-- The table that `collect_words` of bogofilter/src/collect.c makes of the tokens of a message.
use bogofilter.Prelude.{
  Bool, Bool-cases, Bytes, List, Option, [], ap, arith, false, if◌then◌else◌, inl, inr, length,
  none, refl, some, suc, true, zero, ℕ, ◌<◌, ◌||◌, ◌∙◌, ◌∷◌, ◌≡◌,
}
use bogofilter.Word.{Word}
use bogofilter.WordHash.{WordHash, WordCnts, Item, node_at, same_word, wordhash_standard_insert}
use bogofilter.WordHash.Bins.{same_word_sound, IsTable}
use bogofilter.WordHash.Insert.{or_fresh, standard_insert-Inserted}
use bogofilter.WordHash.View.{data_at, set_data, set_data_lem, view}
use bogofilter.WordHash.Counts.{WordProp, wordprop_init}
use bogofilter.WordHash.Counts.Add.{insert_normal}
use bogofilter.Token.{Tokens, TokenClass, Limits, Scan, scanned}
use bogofilter.Token.Parse.{is_none, get_token}
use bogofilter.Collect.{
  change_prop, is_count_line, collect_word, collect_token, after_token, after_insert, collect_words,
}

-- One of the words is the same.
abbrev pub is_among : List Bytes → Word → Bool
is_among [] u = false
is_among (t ∷ ts) u = let rest = is_among ts u in same_word t u || rest

module _ {P : Type 0} (zero_prob : P) where
  -- The data of a word that a message has.
  abbrev pub once : Option (WordProp P) → Option (WordProp P)
  once o = some (record (or_fresh o (wordprop_init zero_prob)) { freq = 1 })

  change_found :
      (wh : WordHash (WordProp P)) (n : ℕ) (d : WordProp P) (f : WordProp P → WordProp P)
      (g : WordCnts → WordCnts)
      → data_at wh.store n ≡ some d
      → change_prop (wh, node_at n) f g ≡ set_data wh n (f d)
  unfolding change_prop
  change_found wh n d f g e = rw (e, change_prop) refl

  pub collect_word_lem :
      (wh : WordHash (WordProp P)) (t : Word)
      → IsTable wh
      → IsTable (collect_word zero_prob wh t)
        × ((u : Word)
            → view (collect_word zero_prob wh t) u
              ≡ (if same_word t u then once (view wh t) else view wh u))
  unfolding collect_word
  collect_word_lem wh t v =
      let fresh = wordprop_init zero_prob in
      let r = wordhash_standard_insert wh t fresh in
      let ins = standard_insert-Inserted wh t fresh v in
      let d = or_fresh (view wh t) fresh in
      let f = λ (wp : WordProp P). record wp { freq = 1 } in
      let (table, maps) = set_data_lem r.0 t r.1 (f d) ins.table ins.at_node in
      let step =
        ap (λ (x : WordHash (WordProp P) × Item). change_prop x f (λ c. c))
          (insert_normal zero_prob wh t fresh v.normal)
        ∙ change_found r.0 r.1 d f (λ c. c) ins.returned in
      rw step (table, λ u. maps u ∙ ground (arith, ins.maps u))

  -- Once is enough.
  once_twice : (o : Option (WordProp P)) → once (once o) ≡ once o
  unfolding or_fresh
  once_twice none = refl
  once_twice (some d) = refl

  same_view :
      (wh : WordHash (WordProp P)) (t u : Word)
      → (if same_word t u then once (view wh t) else view wh u)
        ≡ (if same_word t u then once (view wh u) else view wh u)
  same_view wh t u = elim (Bool-cases (same_word t u)) [
    | inl h ↦ rw h (ap (λ x. once (view wh x)) (same_word_sound t u h))
    | inr h ↦ rw h refl
  ]

  -- The map after one word more in front of the others.
  two_steps :
      (a b : Bool) (o : Option (WordProp P))
      → (if b then once (if a then once o else o) else if a then once o else o)
        ≡ (if a || b then once o else o)
  two_steps true true o = once_twice o
  two_steps true false o = refl
  two_steps false b o = refl

  pub among_step :
      (wh wh1 : WordHash (WordProp P)) (t u : Word) (ts : List Bytes)
      → view wh1 u ≡ (if same_word t u then once (view wh t) else view wh u)
      → (if is_among ts u then once (view wh1 u) else view wh1 u)
        ≡ (if is_among (t ∷ ts) u then once (view wh u) else view wh u)
  among_step wh wh1 t u ts e =
      ap (λ x. if is_among ts u then once x else x) (e ∙ same_view wh t u)
      ∙ two_steps (same_word t u) (is_among ts u) (view wh u)

module _ {Lexer : Type 0} (l : Limits) (yylex : Tokens Lexer → TokenClass × Bytes × Tokens Lexer)
    (fuel : ℕ) where
  -- The calls of `get_token` give these words, none of them a line of counts, and then the end.
  unfoldable pub Gives : Tokens Lexer → List Bytes → Tokens Lexer → Type 0
  Gives s [] s' =
      (token : Bytes) × (cls : TokenClass) × (get_token l yylex fuel s ≡ scanned (cls, token, s'))
      × (is_none cls ≡ true)
  Gives s (t ∷ ts) s' =
      (s1 : Tokens Lexer) × (cls : TokenClass) × (get_token l yylex fuel s ≡ scanned (cls, t, s1))
      × (is_none cls ≡ false)
      × (is_count_line cls ≡ false)
      × Gives s1 ts s'

module _ {P : Type 0} (zero_prob : P) (atoi : Bytes → ℕ) (msgs_good msgs_bad : ℕ) {Lexer : Type 0}
    (l : Limits) (yylex : Tokens Lexer → TokenClass × Bytes × Tokens Lexer) (fuel : ℕ) where
  abbrev run :
      ℕ → WordHash (WordProp P) → Tokens Lexer → Scan (WordHash (WordProp P) × Tokens Lexer)
  run k wh s = collect_words zero_prob atoi msgs_good msgs_bad l yylex fuel k wh s

  run-end :
      (k : ℕ) (wh : WordHash (WordProp P)) (s s' : Tokens Lexer) (cls : TokenClass) (token : Bytes)
      → get_token l yylex fuel s ≡ scanned (cls, token, s')
      → is_none cls ≡ true
      → run (suc k) wh s ≡ scanned (wh, s')
  unfolding collect_words after_token
  run-end k wh s s' cls token e f = rw (e, f) refl

  run-word :
      (k : ℕ) (wh : WordHash (WordProp P)) (s s1 : Tokens Lexer) (cls : TokenClass) (token : Bytes)
      → get_token l yylex fuel s ≡ scanned (cls, token, s1)
      → is_none cls ≡ false
      → is_count_line cls ≡ false
      → run (suc k) wh s ≡ run k (collect_word zero_prob wh token) s1
  unfolding collect_words after_token collect_token after_insert
  run-word k wh s s1 cls token e f g = rw (e, f) (rw g refl)

  -- A message whose words come before the end of the lexer's tokens, with fuel for one call more
  -- than there are words, and a table of words. The loop ends; each word of the message is in the
  -- table with frequency one, however often it came, with its other data unchanged or zero; and no
  -- other word has changed.
  pub collect_words-once :
      (ts : List Bytes) (k : ℕ) (wh : WordHash (WordProp P)) (s s' : Tokens Lexer)
      → Gives l yylex fuel s ts s'
      → length ts < k
      → IsTable wh
      → (wh' : WordHash (WordProp P)) × (run k wh s ≡ scanned (wh', s'))
        × IsTable wh'
        × ((u : Word)
            → view wh' u ≡ (if is_among ts u then once zero_prob (view wh u) else view wh u))
  unfolding Gives
  collect_words-once ts zero wh s s' g h v = absurd (omega arith)
  collect_words-once [] (suc k) wh s s' (token, cls, e, f) h v =
      (wh, run-end k wh s s' cls token e f, v, λ u. refl)
  collect_words-once (t ∷ ts) (suc k) wh s s' (s1, cls, e, f, c, g) h v =
      let (v1, maps) = collect_word_lem zero_prob wh t v in
      let (wh', r, v', maps') =
        collect_words-once ts k (collect_word zero_prob wh t) s1 s' g (omega arith) v1 in
      (
        wh',
        run-word k wh s s1 cls t e f c ∙ r,
        v',
        λ u. maps' u ∙ among_step zero_prob wh (collect_word zero_prob wh t) t u ts (maps u),
      )
