-- ===== src/Collect.antt =====
-- `collect_words` of bogofilter/src/collect.c: the words of a message, from the tokens to the
-- table. `atoi` is an argument, and so are the counts of messages that bogofilter/src/msgcounts.c
-- keeps.
pub mod Words
use bogofilter.Prelude.{
  Bool, Bytes, Option, drop, false, if◌then◌else◌, none, some, suc, take, true, zero, ℕ, ◌+◌, ◌==◌,
  ◌>>=◌,
}
use bogofilter.WordHash.{
  WordHash, WordCnts, Item, node_at, cnts_at, props_at, wordhash_insert, wh_cnts,
}
use bogofilter.WordHash.Counts.{WordProp, wordprop_init}
use bogofilter.WordHash.View.{data_at, set_data}
use bogofilter.Token.{
  Tokens, TokenClass, Limits, Scan, scanned, faults, runs_on, none_class, bogo_lex_line,
}
use bogofilter.Token.Switch.{find_first}
use bogofilter.Token.Parse.{is_none, get_token}

-- A change of the data that `wp` points to; the entry of an array of counts is only its counts.
unfoldable pub change_prop :
    {P : Type 0}
    → WordHash (WordProp P) × Item
    → (WordProp P → WordProp P)
    → (WordCnts → WordCnts)
    → WordHash (WordProp P)
unfolding data_at set_data
change_prop (wh, node_at n) f g = elim (data_at wh.store n) [
  | none ↦ wh
  | some d ↦ set_data wh n (f d)
]
change_prop (wh, cnts_at n) f g = record wh {
  cnts = λ i. if i == n then g (wh.cnts i) else wh.cnts i;
}
change_prop (wh, props_at n) f g = wh

-- The word between the quotes of a line of counts, and the two counts behind it; no result is a
-- failed assertion.
unfoldable pub parse_count_line : (Bytes → ℕ) → Bytes → Option (Bytes × ℕ × ℕ)
unfolding find_first
parse_count_line atoi text = do
  leng ← find_first b'"' (drop 1 text)
  let s = drop (leng + 2) text
  space ← find_first b' ' (drop 1 s)
  some (take leng (drop 1 text), atoi s, atoi (drop (space + 2) s))

unfoldable pub is_count_line : TokenClass → Bool
is_count_line bogo_lex_line = true
is_count_line _ = false

module _ {P : Type 0} (zero_prob : P) where
  -- A word of a message counts once.
  unfoldable pub collect_word : WordHash (WordProp P) → Bytes → WordHash (WordProp P)
  unfolding change_prop wordprop_init
  collect_word wh token =
      change_prop (wordhash_insert wh token (wordprop_init zero_prob))
        (λ wp. record wp { freq = 1 }) (λ c. c)

module _ {P : Type 0} (zero_prob : P) (atoi : Bytes → ℕ) (msgs_good msgs_bad : ℕ) where
  -- A line of a file of counts.
  unfoldable pub collect_counts : WordHash (WordProp P) → Bytes × ℕ × ℕ → WordHash (WordProp P)
  unfolding change_prop wordprop_init
  collect_counts wh (token, bad, good) =
      let cnts : WordCnts = record {
        good = good;
        bad = bad;
        msgs_good = msgs_good;
        msgs_bad = msgs_bad;
      } in
      change_prop (wordhash_insert wh token (wordprop_init zero_prob))
        (λ wp. record wp { freq = 1; cnts = cnts }) (λ c. cnts)

  unfoldable pub collect_token :
      WordHash (WordProp P) → TokenClass → Bytes → Option (WordHash (WordProp P))
  unfolding is_count_line parse_count_line collect_word collect_counts
  collect_token wh cls token =
      if is_count_line cls
      then elim (parse_count_line atoi token) [
        | none ↦ none
        | some line ↦ some (collect_counts wh line)
      ]
      else some (collect_word zero_prob wh token)

  module _ {Lexer : Type 0} (l : Limits) (yylex : Tokens Lexer → TokenClass × Bytes × Tokens Lexer)
      (fuel : ℕ) where
    abbrev pub Collected : Type 0
    Collected = Scan (WordHash (WordProp P) × Tokens Lexer)

    abbrev pub Collector : Type 0
    Collector = WordHash (WordProp P) → Tokens Lexer → Collected

    -- The loop goes on with the table that the token was added to.
    unfoldable pub after_insert :
        Option (WordHash (WordProp P)) → Tokens Lexer → Collector → Collected
    after_insert none s next = faults
    after_insert (some wh) s next = next wh s

    -- The rest of the loop's body, for the outcome of `get_token`.
    unfoldable pub after_token :
        WordHash (WordProp P) → Scan (TokenClass × Bytes × Tokens Lexer) → Collector → Collected
    unfolding after_insert collect_token is_none
    after_token wh faults next = faults
    after_token wh runs_on next = runs_on
    after_token wh (scanned (cls, token, s)) next =
        if is_none cls then scanned (wh, s) else after_insert (collect_token wh cls token) s next

    -- On fuel for the tokens of the message.
    unfoldable pub collect_words : ℕ → Collector
    unfolding after_token
    collect_words zero wh s = runs_on
    collect_words (suc k) wh s =
        after_token wh (get_token l yylex fuel s) (λ wh' s'. collect_words k wh' s')
