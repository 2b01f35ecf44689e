-- ===== src/Tests/Collecting.antt =====
-- A message of two equal words.
use bogofilter.Prelude.{Bytes, [], arith, codes, if◌then◌else◌, refl, ℕ, ◌∷◌, ◌≡◌}
use bogofilter.WordHash.{WordHash, wh_normal, wordhash_init}
use bogofilter.WordHash.Bins.{IsTable, wordhash_init-IsTable}
use bogofilter.WordHash.View.{view}
use bogofilter.WordHash.Counts.{WordProp}
use bogofilter.Token.{Tokens, none_class, token_class, scanned}
use bogofilter.Collect.{collect_words, is_count_line}
use bogofilter.Collect.Words.{Gives, once, is_among, collect_words-once}
use bogofilter.Tests.Words.{Words, limits, start, next_word}
use bogofilter.Token.Parse.{is_none, get_token}
use bogofilter.Mime.{mime_init}

abbrev words_left : Words → Tokens Words
words_left words = record start { lexer = words; multi_token_count = 1 }

abbrev twice : Words
twice = codes "spam" ∷ codes "spam" ∷ []

abbrev no_words : WordHash (WordProp ℕ)
no_words = wordhash_init wh_normal 0

twice-Gives : Gives limits next_word 3 (words_left twice) twice (words_left [])
unfolding Gives get_token is_none is_count_line mime_init
twice-Gives = (
  words_left (codes "spam" ∷ []),
  token_class,
  refl,
  refl,
  refl,
  (words_left [], token_class, refl, refl, refl, ([], none_class, refl, refl)),
)

collect_words-once_example :
    (wh' : WordHash (WordProp ℕ)) × (collect_words 0
        (λ s. 0)
        0
        0
        limits
        next_word
        3
        3
        no_words
        (words_left twice)
      ≡ scanned (wh', words_left []))
    × IsTable wh'
    × ((u : Bytes)
        → view wh' u ≡ (if is_among twice u then once 0 (view no_words u) else view no_words u))
collect_words-once_example =
    collect_words-once 0 (λ s. 0) 0 0 limits next_word 3 twice 3 no_words (words_left twice)
      (words_left []) twice-Gives (omega arith) (wordhash_init-IsTable 0)
