-- ===== src/Tests/Words.antt =====
-- Tokens from a lexer that is a list of words.
use bogofilter.Prelude.{
  Bytes, List, [], arith, codes, false, length, none, refl, take, true, ◌<◌, ◌∷◌, ◌≡◌, ◌≤◌, ◌⊎◌,
}
use bogofilter.Mime.{mime_init}
use bogofilter.Token.{
  Tokens, Limits, TokenClass, token_class, none_class, scanned, add_token_to_array,
  build_prefixed_token, set_tag,
}
use bogofilter.Token.Parse.{prefixed, get_token, parse_new_token, is_single}
use bogofilter.Token.Multi.{
  Remembers, Remembers-nil, get_token-joined, get_token-Remembers, add_token_to_array-Remembers,
}
use bogofilter.Token.Bounds.{build_prefixed_token-fits, Tagged, set_tag-Tagged}
use bogofilter.Mime.Header.{c_string}

abbrev pub Words : Type 0
Words = List Bytes

abbrev pub limits : Limits
limits = record {
  min_token_len = 3;
  max_token_len = 30;
  max_multi_token_len = 98;
  yylval_text_size = 118;
  block_on_subnets = false;
  ip_prefix = true;
  mbox_mode = false;
  replace_nonascii_characters = false;
  casefold_table = λ c. c;
  unmask = λ text. text;
}

abbrev pub start : Tokens Words
start = record {
  lexer = codes "more" ∷ [];
  msg_state = mime_init [] ∷ [];
  tok_count = 0;
  init_token = 1;
  w_token_array = λ i. [];
  token_prefix = none;
  save_class = none_class;
  ipsave = [];
  msg_addr = [];
  msg_id = [];
  queue_id = [];
  header_line_markup = true;
  multi_token_count = 3;
  msg_count_file = false;
  msg_count_lexer = false;
  msgcount_more = false;
}

abbrev pub next_word : Tokens Words → TokenClass × Bytes × Tokens Words
next_word s = elim s.lexer [
  | [] ↦ (none_class, [], s)
  | w ∷ words ↦ (token_class, w, record s { lexer = words })
]

abbrev two_words : Tokens Words
two_words = add_token_to_array (codes "spam") (add_token_to_array (codes "buy") start)

abbrev buy_spam : List Bytes
buy_spam = codes "spam" ∷ codes "buy" ∷ []

two_words-Remembers : Remembers two_words buy_spam
unfolding add_token_to_array
two_words-Remembers =
    add_token_to_array-Remembers (add_token_to_array (codes "buy") start) (codes "buy" ∷ [])
      (codes "spam") (omega arith)
      (add_token_to_array-Remembers start [] (codes "buy") (omega arith) (Remembers-nil start refl))

get_token-joined_example :
    (get_token limits next_word 1 two_words
      ≡ scanned (
        token_class,
        prefixed limits (record two_words { init_token = 2 }) (codes "buy*spam"),
        record two_words { init_token = 2 },
      ))
    × Remembers (record two_words { init_token = 2 }) buy_spam
unfolding add_token_to_array c_string is_single
get_token-joined_example =
    get_token-joined limits next_word 0 two_words buy_spam two_words-Remembers (refl, (refl, tt))
      refl

one_word-parsed :
    parse_new_token limits next_word 1 start
    ≡ scanned (token_class, codes "more", record start { lexer = [] })
unfolding parse_new_token mime_init
one_word-parsed = refl

get_token-Remembers_example :
    (get_token limits next_word 2 start
      ≡ scanned (
        token_class,
        prefixed limits
            (add_token_to_array (codes "more") (record start { lexer = [] }))
            (codes "more"),
        add_token_to_array (codes "more") (record start { lexer = [] }),
      ))
    × Remembers
        (add_token_to_array (codes "more") (record start { lexer = [] }))
        (codes "more" ∷ [])
    × ((add_token_to_array (codes "more") (record start { lexer = [] })).init_token ≡ 1)
unfolding is_single prefixed add_token_to_array
get_token-Remembers_example =
    get_token-Remembers limits next_word 1 start (record start { lexer = [] }) token_class
      (codes "more") [] refl one_word-parsed (omega arith)
      (Remembers-nil (record start { lexer = [] }) refl) (omega arith)

build_prefixed_token-fits_example :
    (length (build_prefixed_token (codes "to:") (codes "someone") 20) < 20)
    × (take 3 (build_prefixed_token (codes "to:") (codes "someone") 20) ≡ codes "to:")
    × ((20 ≤ 10) ⊎ (build_prefixed_token (codes "to:") (codes "someone") 20 ≡ codes "to:someone"))
build_prefixed_token-fits_example =
    build_prefixed_token-fits (codes "to:") (codes "someone") 20 (omega arith)

set_tag-Tagged_example : Tagged (codes "Subject") start (set_tag (codes "Subject") start)
set_tag-Tagged_example = set_tag-Tagged (codes "Subject") start (mime_init []) [] refl refl
