-- ===== src/Token/Switch.antt =====
-- The switch over the classes of tokens in `parse_new_token` of bogofilter/src/token.c.
use bogofilter.Prelude.{
  Bool, Bytes, Option, [], codes, drop, false, get_or, if◌then◌else◌, leb, length, ltb, min, none,
  not, some, suc, take, true, ℕ, ◌&&◌, ◌++◌, ◌-◌, ◌==◌, ◌||◌, ◌∷◌,
}
use bogofilter.WordLists.{same_bytes}
use bogofilter.Mime.{
  MimeType, mime_message, mime_text, mime_text_html, mime_text_plain, mime_multipart,
  mime_add_child,
}
use bogofilter.Mime.Header.{c_string}
use bogofilter.Token.{
  Tokens, TokenClass, Limits, w_recv, none_class, token_class, money, headkey, eoh, boundary,
  queue_id_class, message_id, message_addr, ipaddr, verp, msg_count_line, bogo_lex_line,
}

-- `isspace` in the C locale
is_space : ℕ → Bool
is_space c = c == b' ' || leb 9 c && leb c 13

-- The text behind the blanks that it begins with; no blank is a NUL.
skip_space : Bytes → Bytes
unfolding is_space
skip_space [] = []
skip_space (c ∷ t) = let rest = skip_space t in if is_space c then rest else c ∷ t

-- The text from its first blank on. Without one the loop runs over the end.
find_space : Bytes → Option Bytes
unfolding is_space
find_space [] = none
find_space (c ∷ t) = let rest = find_space t in if is_space c then some (c ∷ t) else rest

abbrev pub later_place : Option ℕ → Option ℕ
later_place none = none
later_place (some i) = some (suc i)

-- The places of the first and the last byte of its kind.
unfoldable pub find_first : ℕ → Bytes → Option ℕ
find_first b [] = none
find_first b (c ∷ t) = let rest = later_place (find_first b t) in if c == b then some 0 else rest

unfoldable pub xmemrchr : Bytes → ℕ → Option ℕ
xmemrchr [] b = none
xmemrchr (c ∷ t) b = elim (xmemrchr t b) [
  | some i ↦ some (suc i)
  | none ↦ if c == b then some 0 else none
]

-- The text of a return path without what stands between its first and its last dash.
unfoldable pub verp_text : Bytes → Bytes
unfolding c_string find_first xmemrchr
verp_text text =
    let st = c_string text in
    elim (find_first b'-' st) [
      | none ↦ text
      | some fst ↦ elim (xmemrchr st b'-') [
        | none ↦ text
        | some lst ↦ if ltb 3 (lst - fst) then take fst st ++ (codes "-#" ++ drop lst st) else text
      ]
    ]

-- The steps of `QUEUE_ID`. An empty text is read in front of its beginning.
unfoldable pub queue_text : Bytes → Option Bytes
unfolding skip_space same_bytes
queue_text text =
    let a = skip_space text in
    let b = skip_space (if same_bytes (take 2 a) (codes "id") then drop 2 a else a) in
    let c = if get_or b 0 0 == b'<' then drop 1 b else b in
    let n = length c in
    if n == 0 then none else some (if get_or c (n - 1) 0 == b'>' then take (n - 1) c else c)

-- The types of parts whose words count.
reads_type : MimeType → Bool
reads_type mime_text = true
reads_type mime_text_html = true
reads_type mime_text_plain = true
reads_type mime_multipart = true
reads_type _ = false

-- What the switch does with a token: the next one is read, the token is given, also if it is long, or the
-- function returns.
pub data Seen (Lexer : Type 0) : Type 0 where
  continues : Tokens Lexer → Seen Lexer
  breaks : Bytes → Tokens Lexer → Seen Lexer
  finishes : Bytes → Tokens Lexer → Seen Lexer
  returns : Bytes → Tokens Lexer → Seen Lexer
  crashes : Seen Lexer

module _ {Lexer : Type 0} (l : Limits) where
  see_eoh : Bytes → Tokens Lexer → Seen Lexer
  see_eoh text s =
      let next =
        λ (s' : Tokens Lexer). if length text == 1 then continues s' else finishes text s' in
      if ltb l.max_token_len (length text) then continues s else elim s.msg_state [
        | [] ↦ crashes
        | p ∷ parents ↦ elim p.mime_type [
          | mime_message ↦ next (record s { msg_state = mime_add_child (p ∷ parents) })
          | _ ↦ next s
        ]
      ]

  -- The case of money, which the other words fall into.
  see_money : Bytes → Tokens Lexer → Seen Lexer
  unfolding reads_type
  see_money text s =
      if ltb l.max_token_len (length text) then continues s else elim s.token_prefix [
        | some _ ↦ breaks text s
        | none ↦ elim s.msg_state [
          | [] ↦ crashes
          | p ∷ parents ↦ if reads_type p.mime_type then breaks text s else continues s
        ]
      ]

  see_token : Bytes → Tokens Lexer → Seen Lexer
  unfolding see_money
  see_token text s = if ltb (length text) l.min_token_len then continues s else see_money text s

  -- A header's name, in front of its colon.
  see_headkey : Bytes → Tokens Lexer → Seen Lexer
  unfolding see_token find_first c_string
  see_headkey text s =
      if not s.header_line_markup || get_or text 0 0 == 0
      then continues s
      else elim (find_first b':' (c_string text)) [
        | none ↦ crashes
        | some leng ↦ if ltb l.max_token_len leng then continues s else see_token (take leng text) s
      ]

  see_message_id : Bytes → Tokens Lexer → Seen Lexer
  unfolding find_space skip_space
  see_message_id text s =
      if ltb (length text) l.max_token_len
      then elim (find_space text) [
        | none ↦ crashes
        | some t ↦ continues (record s { msg_id = skip_space t })
      ]
      else continues s

  see_queue_id : Bytes → Tokens Lexer → Seen Lexer
  unfolding queue_text
  see_queue_id text s =
      if get_or s.queue_id 0 0 == 0 && ltb (length text) l.max_token_len
      then elim (queue_text text) [
        | none ↦ crashes
        | some t ↦ continues (record s { queue_id = take (min l.max_token_len (length t)) t })
      ]
      else continues s

  see_address : Bytes → Tokens Lexer → Seen Lexer
  unfolding c_string
  see_address text s =
      let masked = c_string (l.unmask text) in
      if l.block_on_subnets
      then returns masked (record s { ipsave = masked; save_class = ipaddr })
      else breaks text s

  -- The first address at the top is kept.
  keep_address : Bytes → Tokens Lexer → Option (Tokens Lexer)
  unfolding c_string same_bytes
  keep_address text s = elim s.token_prefix [
    | some w_recv ↦ elim s.msg_state [
      | [] ↦ none
      | p ∷ [] ↦
          if get_or s.msg_addr 0 0 == 0 && not (same_bytes (c_string text) (codes "127.0.0.1"))
          then if ltb l.max_token_len (length text)
            then none
            else some (record s { msg_addr = text })
          else some s
      | _ ↦ some s
    ]
    | _ ↦ some s
  ]

  see_message_addr : Bytes → Tokens Lexer → Seen Lexer
  unfolding keep_address see_address
  see_message_addr text s =
      let inner = take (length text - 2) (drop 1 text) in
      if ltb (length text) 2
      then crashes
      else elim (keep_address inner s) [ none ↦ crashes | some s' ↦ see_address inner s' ]

  see_count_line : Tokens Lexer → Tokens Lexer
  see_count_line s = record s {
    msg_count_file = true;
    multi_token_count = 1;
    header_line_markup = false;
    token_prefix = none;
    msg_count_lexer = true;
    msgcount_more = s.msgcount_more || l.mbox_mode;
  }

  -- The switch.
  unfoldable pub see : TokenClass → Bytes → Tokens Lexer → Seen Lexer
  unfolding see_eoh verp_text see_headkey see_token see_money see_message_id see_queue_id
      see_message_addr see_address see_count_line
  see eoh text s = see_eoh text s
  see boundary text s = continues s
  see verp text s = breaks (verp_text text) s
  see headkey text s = see_headkey text s
  see token_class text s = see_token text s
  see money text s = see_money text s
  see message_id text s = see_message_id text s
  see queue_id_class text s = see_queue_id text s
  see message_addr text s = see_message_addr text s
  see ipaddr text s = see_address text s
  see none_class text s = breaks text s
  see msg_count_line text s = continues (see_count_line s)
  see bogo_lex_line text s = finishes text s
