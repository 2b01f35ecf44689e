-- ===== src/Token.antt =====
-- bogofilter/src/token.c: the tokens that the lexer finds, their prefixes, and tokens of several
-- words. The generated lexer is an argument, which gives a class and a text and may change all
-- variables. A text ends in front of the NUL that follows it. `yylval` is only a buffer here, and
-- so is `p_multi_buff`.
pub mod Switch
pub mod Parse
pub mod Multi
pub mod Bounds
use bogofilter.Prelude.{
  Bool, Bytes, List, Option, [], codes, false, get_or, if◌then◌else◌, leb, length, min, none, not,
  some, suc, take, true, zero, ℕ, ◌%◌, ◌*◌, ◌++◌, ◌+◌, ◌-◌, ◌==◌, ◌>>=◌, ◌||◌, ◌∷◌,
}
use bogofilter.WordLists.{same_bytes}
use bogofilter.Mime.{MimePart, MimeType, mime_message}
use bogofilter.Mime.Header.{c_string, tolower}

-- `token_t` of bogofilter/src/lexer.h
pub data TokenClass : Type 0 where
  none_class token_class money headkey eoh boundary queue_id_class message_id message_addr :
      TokenClass
  ipaddr verp msg_count_line bogo_lex_line : TokenClass

-- The words that `token_prefix` points to, and the two for addresses.
pub data TokenPrefix : Type 0 where
  w_to w_from w_rtrn w_subj w_recv w_head w_mime w_ip w_url : TokenPrefix

abbrev pub prefix_text : TokenPrefix → Bytes
prefix_text w_to = codes "to:"
prefix_text w_from = codes "from:"
prefix_text w_rtrn = codes "rtrn:"
prefix_text w_subj = codes "subj:"
prefix_text w_recv = codes "rcvd:"
prefix_text w_head = codes "head:"
prefix_text w_mime = codes "mime:"
prefix_text w_ip = codes "ip:"
prefix_text w_url = codes "url:"

-- What does not change. `unmask` is the text that `sscanf` and `sprintf` make of an address.
pub record Limits : Type 0 where
  pub min_token_len : ℕ
  pub max_token_len : ℕ
  pub max_multi_token_len : ℕ
  pub yylval_text_size : ℕ
  pub block_on_subnets : Bool
  pub ip_prefix : Bool
  pub mbox_mode : Bool
  pub replace_nonascii_characters : Bool
  pub casefold_table : ℕ → ℕ
  pub unmask : Bytes → Bytes

-- The variables. `lexer` is the state of the generated lexer, and `msg_state` the stack of MIME parts.
pub record Tokens (Lexer : Type 0) : Type 0 where
  pub lexer : Lexer
  pub msg_state : List MimePart
  pub tok_count : ℕ
  pub init_token : ℕ
  pub w_token_array : ℕ → Bytes
  pub token_prefix : Option TokenPrefix
  pub save_class : TokenClass
  pub ipsave : Bytes
  pub msg_addr : Bytes
  pub msg_id : Bytes
  pub queue_id : Bytes
  pub header_line_markup : Bool
  pub multi_token_count : ℕ
  pub msg_count_file : Bool
  pub msg_count_lexer : Bool
  pub msgcount_more : Bool

-- A result, a read or write outside of the memory, or too little fuel.
pub data Scan (A : Type 0) : Type 0 where
  scanned : A → Scan A
  faults : Scan A
  runs_on : Scan A

same_prefix : TokenPrefix → TokenPrefix → Bool
unfolding same_bytes
same_prefix a b = same_bytes (prefix_text a) (prefix_text b)

is_message : MimeType → Bool
is_message mime_message = true
is_message _ = false

-- The part inside of which there are no tags. An empty stack is a null pointer.
pub in_message : List MimePart → Option Bool
unfolding is_message
in_message [] = none
in_message (p ∷ []) = some false
in_message (p ∷ q ∷ parents) = some (is_message q.mime_type)

-- The prefix for a tag, or none for the exit with a message.
pub tag_prefix : Bytes → Bool → Option TokenPrefix
tag_prefix text top =
    let c = tolower (get_or text 0 0) in
    if c == b'c' || c == b't'
    then some w_to
    else if c == b'f'
    then some w_from
    else if c == b'h'
    then some (if top then w_head else w_mime)
    else if c == b'r'
    then some (if tolower (get_or text 2 0) == b't' then w_rtrn else w_recv)
    else if c == b's'
    then some w_subj
    else none

-- The bytes that are copied with so much room.
pub token_copy_leng : Bytes → ℕ → Bytes
unfolding c_string
token_copy_leng str leng = take (min leng (length (c_string str))) (c_string str)

module _ {Lexer : Type 0} where
  unfoldable pub clr_tag : Tokens Lexer → Tokens Lexer
  clr_tag s = record s { token_prefix = none; tok_count = 0 }

  -- Tokens of another prefix are not joined with those that follow.
  pub with_prefix : Option TokenPrefix → TokenPrefix → Tokens Lexer → Tokens Lexer
  unfolding same_prefix
  with_prefix none new s = record s { token_prefix = some new }
  with_prefix (some old) new s = record s {
    token_prefix = some new;
    tok_count = if same_prefix old new then s.tok_count else 0;
  }

  -- `none` is the exit with a message, or the fault of a null `msg_state`.
  unfoldable pub set_tag : Bytes → Tokens Lexer → Option (Tokens Lexer)
  unfolding clr_tag in_message tag_prefix with_prefix
  set_tag text s = if not s.header_line_markup then some s else elim (in_message s.msg_state) [
    | none ↦ none
    | some true ↦ some (clr_tag s)
    | some false ↦ elim (tag_prefix text (length s.msg_state == 1)) [
      | none ↦ none
      | some new ↦ some (with_prefix s.token_prefix new s)
    ]
  ]

  -- `max_msg_id_len` is three times the length of a token.
  unfoldable pub set_msg_id : ℕ → Bytes → Tokens Lexer → Tokens Lexer
  set_msg_id max_token_len text s = record s { msg_id = take (3 * max_token_len) text }

  unfoldable pub token_clear : Tokens Lexer → Tokens Lexer
  token_clear s = record s { msg_addr = []; msg_id = []; queue_id = [] }

  abbrev pub wrap : Tokens Lexer → ℕ → ℕ
  wrap s n = n % s.multi_token_count

  unfoldable pub add_token_to_array : Bytes → Tokens Lexer → Tokens Lexer
  add_token_to_array token s = record s {
    w_token_array = λ i. if i == wrap s s.tok_count then token else s.w_token_array i;
    tok_count = s.tok_count + 1;
    init_token = 1;
  }

  -- The word that was stored `tok` calls before the last one.
  abbrev pub word_back : Tokens Lexer → ℕ → Bytes
  word_back s tok = s.w_token_array (wrap s (s.tok_count - 1 - tok))

  -- The sum of the lengths, from the word `tok` calls back to the last.
  pub sum_lengths : Tokens Lexer → ℕ → ℕ
  unfolding c_string
  sum_lengths s zero = length (c_string (word_back s 0))
  sum_lengths s (suc tok) = length (c_string (word_back s (suc tok))) + sum_lengths s tok

  -- The loop with the separator and the word, from the word `tok` calls back to the last.
  pub join_words : Tokens Lexer → ℕ → Bytes → ℕ → Bytes
  unfolding token_copy_leng
  join_words s zero sep leng =
      let a = token_copy_leng sep leng in a ++ token_copy_leng (word_back s 0) (leng - length a)
  join_words s (suc tok) sep leng =
      let a = token_copy_leng sep leng in
      let b = token_copy_leng (word_back s (suc tok)) (leng - length a) in
      a ++ (b ++ join_words s tok (codes "*") (leng - length a - length b))

  unfoldable pub build_token_from_array : ℕ → Tokens Lexer → Bytes × Tokens Lexer
  unfolding sum_lengths join_words
  build_token_from_array max_multi_token_len s =
      let leng = min max_multi_token_len (s.init_token + sum_lengths s s.init_token) in
      (join_words s s.init_token [] leng, record s { init_token = s.init_token + 1 })

-- The prefix in front of the token. A text that does not fit is cut by more than it is too long.
unfoldable pub build_prefixed_token : Bytes → Bytes → ℕ → Bytes
build_prefixed_token prefix token temp_size =
    let whole = length token + length prefix in
    let len = if leb temp_size whole then temp_size - length prefix - 1 else whole in
    prefix ++ take (len - length prefix) token
