-- ===== src/Token/Parse.antt =====
-- `parse_new_token` and `get_token` of bogofilter/src/token.c, on fuel for the calls of the lexer.
use bogofilter.Token.Switch.{Seen, continues, breaks, finishes, returns, crashes, see, xmemrchr}
use bogofilter.Prelude.{
  Bool, Bytes, Option, [], false, get_or, if◌then◌else◌, leb, length, ltb, map, none, some, suc,
  take, true, zero, ℕ, ◌&&◌, ◌-◌, ◌==◌, ◌||◌, ◌∷◌,
}
use bogofilter.Token.{
  Tokens, TokenClass, Limits, Scan, scanned, faults, runs_on, prefix_text, w_ip, w_url,
  add_token_to_array, build_token_from_array, build_prefixed_token, none_class, token_class, ipaddr,
  TokenPrefix,
}

-- A blank at the end is taken off as long as another byte stands in front of it.
strip_end : Bytes → Bytes
strip_end [] = []
strip_end (c ∷ t) = let rest = strip_end t in if length rest == 0 && c == b' ' then [] else c ∷ rest

unfoldable pub trim_blanks : Bytes → Bytes
unfolding strip_end
trim_blanks [] = []
trim_blanks (c ∷ t) = c ∷ strip_end t

-- A colon at the end, behind another byte.
unfoldable pub drop_colon : Bytes → Bytes
drop_colon token =
    let n = length token in
    if ltb 1 n && get_or token (n - 1) 0 == b':' then take (n - 1) token else token

unfoldable pub is_none : TokenClass → Bool
is_none none_class = true
is_none _ = false

-- The prefix of a token: addresses have their own.
unfoldable pub prefix_of : Bool → TokenPrefix → TokenClass → Bytes
prefix_of ip_prefix p ipaddr = prefix_text (if ip_prefix then w_ip else w_url)
prefix_of ip_prefix p _ = prefix_text p

module _ {Lexer : Type 0} where
  unfoldable pub is_single : Tokens Lexer → Bool
  is_single s =
      ltb s.tok_count 2 || leb s.tok_count s.init_token || leb s.multi_token_count s.init_token

  -- The token goes into the array if there are tokens of several words.
  unfoldable pub remember : Bytes → Tokens Lexer → Tokens Lexer
  unfolding add_token_to_array
  remember token s = if ltb 1 s.multi_token_count then add_token_to_array token s else s

  unfoldable pub has_prefix : Tokens Lexer → Bool
  has_prefix s = elim s.token_prefix [ none ↦ false | some p ↦ true ]

module _ {Lexer : Type 0} (l : Limits) where
  -- What the loop makes of the outcome of the switch: long words are eaten.
  unfoldable pub after_seen :
      TokenClass
      → Seen Lexer
      → (Tokens Lexer → Scan (TokenClass × Bool × Bytes × Tokens Lexer))
      → Scan (TokenClass × Bool × Bytes × Tokens Lexer)
  after_seen cls (continues s) next = next s
  after_seen cls (breaks token s) next =
      if leb (length token) l.max_token_len then scanned (cls, true, token, s) else next s
  after_seen cls (finishes token s) next = scanned (cls, true, token, s)
  after_seen cls (returns token s) next = scanned (cls, false, token, s)
  after_seen cls crashes next = faults

  -- The loop over the tokens that the lexer gives. The flag says that the function does not return early.
  unfoldable pub parse_loop :
      (Tokens Lexer → TokenClass × Bytes × Tokens Lexer)
      → ℕ
      → Tokens Lexer
      → Scan (TokenClass × Bool × Bytes × Tokens Lexer)
  unfolding after_seen see is_none
  parse_loop yylex zero s = runs_on
  parse_loop yylex (suc fuel) s =
      let (cls, text, s1) = yylex s in
      let next = λ (s2 : Tokens Lexer). parse_loop yylex fuel s2 in
      if is_none cls then scanned (cls, true, text, s1) else after_seen cls (see l cls text s1) next

  -- What is done to a token at the end.
  unfoldable pub clean_token : Tokens Lexer → Bytes → Bytes
  unfolding trim_blanks drop_colon
  clean_token s token =
      let trimmed = drop_colon (trim_blanks token) in
      if s.msg_count_file
      then token
      else if l.replace_nonascii_characters
      then map l.casefold_table trimmed
      else trimmed

  clean_scanned :
      Scan (TokenClass × Bool × Bytes × Tokens Lexer) → Scan (TokenClass × Bytes × Tokens Lexer)
  unfolding clean_token
  clean_scanned (scanned (cls, true, token, s)) = scanned (cls, clean_token s token, s)
  clean_scanned (scanned (cls, false, token, s)) = scanned (cls, token, s)
  clean_scanned faults = faults
  clean_scanned runs_on = runs_on

  -- The address that was saved, without its last octet.
  saved_address : Tokens Lexer → Option Bytes
  unfolding xmemrchr
  saved_address s = elim s.save_class [
    | ipaddr ↦ elim (xmemrchr s.ipsave b'.') [ none ↦ none | some t ↦ some (take t s.ipsave) ]
    | _ ↦ none
  ]

  -- An address without a dot is not saved any more.
  forget_address : Tokens Lexer → Tokens Lexer
  forget_address s =
      if l.block_on_subnets
      then record s { save_class = elim s.save_class [ ipaddr ↦ none_class | c ↦ c ] }
      else s

  unfoldable pub parse_new_token :
      (Tokens Lexer → TokenClass × Bytes × Tokens Lexer)
      → ℕ
      → Tokens Lexer
      → Scan (TokenClass × Bytes × Tokens Lexer)
  unfolding parse_loop clean_scanned saved_address forget_address
  parse_new_token yylex fuel s =
      let fresh = clean_scanned (parse_loop yylex fuel (forget_address s)) in
      if l.block_on_subnets
      then elim (saved_address s) [
        | none ↦ fresh
        | some address ↦
            clean_scanned (scanned (ipaddr, true, address, record s { ipsave = address }))
      ]
      else fresh

  unfoldable pub prefixed : Tokens Lexer → Bytes → Bytes
  unfolding prefix_of build_prefixed_token
  prefixed s token = elim s.token_prefix [
    | none ↦ token
    | some p ↦ build_prefixed_token (prefix_of l.ip_prefix p s.save_class) token l.yylval_text_size
  ]

  -- A new token with its prefix. If the prefix makes it too long, the next one is taken.
  unfoldable pub single_token :
      Scan (TokenClass × Bytes × Tokens Lexer)
      → (Tokens Lexer → Scan (TokenClass × Bytes × Tokens Lexer))
      → Scan (TokenClass × Bytes × Tokens Lexer)
  unfolding prefixed remember has_prefix
  single_token (scanned (cls, token, s)) next =
      let s' = remember token s in
      let token' = prefixed s' token in
      if has_prefix s' && ltb l.max_token_len (length token')
      then next s'
      else scanned (cls, token', s')
  single_token faults next = faults
  single_token runs_on next = runs_on

  unfoldable pub multi_token : Tokens Lexer → Scan (TokenClass × Bytes × Tokens Lexer)
  unfolding build_token_from_array prefixed
  multi_token s =
      let built = build_token_from_array l.max_multi_token_len s in
      scanned (token_class, prefixed built.1 built.0, built.1)

  -- Each call of the lexer, and each token that is passed over, takes fuel.
  unfoldable pub get_token :
      (Tokens Lexer → TokenClass × Bytes × Tokens Lexer)
      → ℕ
      → Tokens Lexer
      → Scan (TokenClass × Bytes × Tokens Lexer)
  unfolding single_token multi_token is_single parse_new_token
  get_token yylex zero s = runs_on
  get_token yylex (suc fuel) s =
      let next = λ (s' : Tokens Lexer). get_token yylex fuel s' in
      if is_single s then single_token (parse_new_token yylex fuel s) next else multi_token s
