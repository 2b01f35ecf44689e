-- ===== src/Token/Multi.antt =====
-- Tokens of several words, in terms of the words that were stored before.
use bogofilter.Prelude.{
  All, Bool, Bytes, List, [], ap, arith, codes, false, get_or, length, length-append, ltb, lt→ltb,
  min, refl, suc, sym, take, true, zero, ℕ, ◌%◌, ◌&&◌, ◌++◌, ◌+◌, ◌-◌, ◌<◌, ◌==◌, ◌∙◌, ◌∷◌, ◌≡◌,
  ◌≢◌, ◌≤◌,
}
use native.Mathlib.Nat.{div-add-mod}
use bogofilter.Mime.Header.{c_string}
use bogofilter.Buff.Contents.{}
use bogofilter.Token.{
  Tokens, Limits, scanned, add_token_to_array, build_token_from_array, join_words, sum_lengths,
  token_copy_leng, word_back, wrap, token_class, TokenClass,
}
use bogofilter.Token.Parse.{
  prefixed, multi_token, get_token, is_single, parse_new_token, single_token, remember, has_prefix,
}

-- Two numbers that differ by less than the modulus have different remainders.
mod_apart : (a d n : ℕ) → 0 < d → d < n → a % n ≢ (a + d) % n
mod_apart a d n pos less e = grind (arith, div-add-mod a n, div-add-mod (a + d) n, e)

-- The array holds the words that were stored last, the youngest of all first.
pub Remembers : {L : Type 0} → Tokens L → List Bytes → Type 0
Remembers s words =
    (s.tok_count ≡ length words)
    × ((i : ℕ) → i < s.multi_token_count → i < length words → word_back s i ≡ get_or words i [])

pub Remembers-nil : {L : Type 0} (s : Tokens L) → s.tok_count ≡ 0 → Remembers s []
unfolding Remembers
Remembers-nil s e = (e, λ i h k. absurd (omega arith))

-- The word at one place back, an asterisk, and so on to the youngest word.
abbrev pub join_back : List Bytes → ℕ → Bytes
join_back words zero = get_or words 0 []
join_back words (suc i) = get_or words (suc i) [] ++ (codes "*" ++ join_back words i)

minus-zero : (n : ℕ) → n ≡ n - 0
minus-zero n = omega arith

minus-suc : (n m : ℕ) → n - m ≡ suc n - suc m
minus-suc n m = omega arith

min-zero_left : (n : ℕ) → min 0 n ≡ 0
min-zero_left n = omega arith

min-zero_right : (n : ℕ) → min n 0 ≡ 0
min-zero_right n = omega arith

take-append_both :
    (n : ℕ) (xs ys : Bytes) → take n (xs ++ ys) ≡ take n xs ++ take (n - length (take n xs)) ys
take-append_both zero xs ys = refl
take-append_both (suc n) [] ys = ap (λ k. take k ys) (minus-zero (suc n))
take-append_both (suc n) (x ∷ xs) ys =
    ap (◌∷◌ x) (
      take-append_both n xs ys
      ∙ ap (λ k. take n xs ++ take k ys) (minus-suc n (length (take n xs))))

min-suc-suc : (n m : ℕ) → min (suc n) (suc m) ≡ suc (min n m)
min-suc-suc n m = omega arith

take-min : (n : ℕ) (xs : Bytes) → take (min n (length xs)) xs ≡ take n xs
take-min zero xs = ap (λ k. take k xs) (min-zero_left (length xs))
take-min (suc n) [] = ap (λ k. take {A = ℕ} k []) (min-zero_right (suc n))
take-min (suc n) (x ∷ xs) =
    ap (λ k. take k (x ∷ xs)) (min-suc-suc n (length xs)) ∙ ap (◌∷◌ x) (take-min n xs)

token_copy_leng-take :
    (str : Bytes) (leng : ℕ) → token_copy_leng str leng ≡ take leng (c_string str)
unfolding token_copy_leng
token_copy_leng-take str leng = take-min leng (c_string str)

c_string-star : c_string (codes "*") ≡ codes "*"
unfolding c_string
c_string-star = refl

module _ {L : Type 0} (s : Tokens L) (words : List Bytes) where
  -- The words from one place back on are those of the list, without a NUL.
  Plain : ℕ → Type 0
  Plain tok = (i : ℕ) → i ≤ tok → c_string (word_back s i) ≡ get_or words i []

  join_words-take :
      (tok : ℕ) (sep : Bytes) (leng : ℕ)
      → c_string sep ≡ sep
      → Plain tok
      → join_words s tok sep leng ≡ take leng (sep ++ join_back words tok)
  unfolding join_words Plain
  join_words-take zero sep leng e h =
      rw (token_copy_leng-take sep leng, e)
        (rw
          (token_copy_leng-take (word_back s 0) (leng - length (take leng sep)), h 0 (omega arith))
          (sym (take-append_both leng sep (get_or words 0 []))))
  join_words-take (suc tok) sep leng e h =
      let w = get_or words (suc tok) [] in
      let room = leng - length (take leng sep) in
      let rest = codes "*" ++ join_back words tok in
      rw (token_copy_leng-take sep leng, e)
        (rw (token_copy_leng-take (word_back s (suc tok)) room, h (suc tok) (omega arith))
          (ap (λ t. take leng sep ++ (take room w ++ t))
              (join_words-take tok (codes "*") (room - length (take room w)) c_string-star
                (λ i k. h i (omega arith)))
            ∙ ap (◌++◌ (take leng sep)) (sym (take-append_both room w rest))
            ∙ sym (take-append_both leng sep (w ++ rest))))

  sum_lengths-join : (tok : ℕ) → Plain tok → tok + sum_lengths s tok ≡ length (join_back words tok)
  unfolding sum_lengths Plain
  sum_lengths-join zero h = omega (arith, ap length (h 0 (omega arith)))
  sum_lengths-join (suc tok) h = omega (
    arith,
    ap length (h (suc tok) (omega arith)),
    sum_lengths-join tok (λ i k. h i (omega arith)),
    length-append (get_or words (suc tok) []) (codes "*" ++ join_back words tok),
  )

same_place : (n : ℕ) → n + 1 - 1 - 0 ≡ n
same_place n = omega arith

further_place : (n j : ℕ) → n + 1 - 1 - suc j ≡ n - 1 - j
further_place n j = omega arith

==_refl : (n : ℕ) → (n == n) ≡ true
==_refl n = ground arith

==_apart : (a b : ℕ) → a ≢ b → (a == b) ≡ false
==_apart a b h = ground arith

together : (n j : ℕ) → j < n → n ≡ n - 1 - j + suc j
together n j h = omega arith

apart_test : (n j m : ℕ) → j < n → suc j < m → ((n - 1 - j) % m == n % m) ≡ false
apart_test n j m h k =
    ==_apart ((n - 1 - j) % m) (n % m)
      (λ e. mod_apart (n - 1 - j) (suc j) m (omega arith) k (e ∙ ap (λ i. i % m) (together n j h)))

module _ {L : Type 0} where
  -- The word that was added is the youngest, and the others are one place further back.
  added_back :
      (s : Tokens L) (words : List Bytes) (w : Bytes) (i : ℕ)
      → Remembers s words
      → i < s.multi_token_count
      → i < suc (length words)
      → word_back (add_token_to_array w s) i ≡ get_or (w ∷ words) i []
  unfolding Remembers add_token_to_array
  added_back s words w zero (count, held) h k =
      rw (same_place s.tok_count) (rw (==_refl (wrap s s.tok_count)) refl)
  added_back s words w (suc j) (count, held) h k = rw (further_place s.tok_count j) (
      rw (apart_test s.tok_count j s.multi_token_count (omega arith) h)
        (held j (omega arith) (omega arith)))

  pub add_token_to_array-Remembers :
      (s : Tokens L) (words : List Bytes) (w : Bytes)
      → 0 < s.multi_token_count
      → Remembers s words
      → Remembers (add_token_to_array w s) (w ∷ words)
  unfolding Remembers add_token_to_array
  add_token_to_array-Remembers s words w pos (count, held) =
      (omega arith, λ i h k. added_back s words w i (count, held) h k)

-- No word has a NUL.
abbrev pub NoNul : Bytes → Type 0
NoNul w = c_string w ≡ w

All-get_or :
    (words : List Bytes) → All NoNul words → (i : ℕ) → i < length words → NoNul (get_or words i [])
All-get_or [] h i k = absurd (omega arith)
All-get_or (w ∷ words) (h, hs) zero k = h
All-get_or (w ∷ words) (h, hs) (suc i) k = All-get_or words hs i (omega arith)

c_string-nil : c_string [] ≡ []
unfolding c_string
c_string-nil = refl

and-false : (a b : Bool) → b ≡ false → (a && b) ≡ false
and-false true b e = e
and-false false b e = refl

not_ltb : (a b : ℕ) → b ≤ a → ltb a b ≡ false
not_ltb a b h = ground arith

module _ {L : Type 0} where
  -- The state after a token of several words.
  next_longer : Tokens L → Tokens L
  next_longer s = record s { init_token = s.init_token + 1 }

  build-join :
      (limit : ℕ) (s : Tokens L) (words : List Bytes)
      → Remembers s words
      → All NoNul words
      → s.init_token < s.tok_count
      → s.init_token < s.multi_token_count
      → build_token_from_array limit s ≡ (take limit (join_back words s.init_token), next_longer s)
  unfolding build_token_from_array Remembers next_longer Plain
  build-join limit s words (count, held) plain h k =
      let all : Plain s words s.init_token = λ i below.
        ap c_string (held i (omega arith) (omega arith)) ∙ All-get_or words plain i (omega arith) in
      let joined = join_back words s.init_token in
      let leng = min limit (s.init_token + sum_lengths s s.init_token) in
      ap (λ t. (t, next_longer s))
        (join_words-take s words s.init_token [] leng c_string-nil all
          ∙ ap (λ n. take (min limit n) joined) (sum_lengths-join s words s.init_token all)
          ∙ take-min limit joined)

  not_single :
      (s : Tokens L)
      → is_single s ≡ false
      → (s.init_token < s.tok_count) × (s.init_token < s.multi_token_count)
  unfolding is_single
  not_single s e = ground arith

  -- The words in the array stand in the list, the youngest first, and have no NUL. When no single
  -- token is due, the next one is the words from `init_token` places back up to the youngest,
  -- joined by asterisks and cut at the limit, with its prefix; the lexer is not called, the words
  -- stay, and the next token has one more.
  pub get_token-joined :
      (l : Limits) (yylex : Tokens L → TokenClass × Bytes × Tokens L) (fuel : ℕ) (s : Tokens L)
      (words : List Bytes)
      → Remembers s words
      → All NoNul words
      → is_single s ≡ false
      → let s' = record s { init_token = s.init_token + 1 } in
        (get_token l yylex (suc fuel) s
          ≡ scanned (
            token_class,
            prefixed l s' (take l.max_multi_token_len (join_back words s.init_token)),
            s',
          ))
        × Remembers s' words
  unfolding get_token multi_token next_longer Remembers
  get_token-joined l yylex fuel s words (count, held) plain e =
      let (h, k) = not_single s e in
      let built = build-join l.max_multi_token_len s words (count, held) plain h k in
      (rw e (ap (λ b. scanned (token_class, prefixed l b.1 b.0, b.1)) built), (count, held))

  remembered :
      (token : Bytes) (s : Tokens L)
      → 1 < s.multi_token_count
      → remember token s ≡ add_token_to_array token s
  unfolding remember
  remembered token s h = rw (lt→ltb 1 s.multi_token_count h) refl

  -- A token was parsed with tokens of several words switched on, in a state whose array holds the
  -- words of the list, and with its prefix it is not too long. It is returned with its prefix, it
  -- is the youngest word from then on, and the words that stood in the array are one place further
  -- back; joining starts again from pairs.
  pub get_token-Remembers :
      (l : Limits) (yylex : Tokens L → TokenClass × Bytes × Tokens L) (fuel : ℕ) (s s1 : Tokens L)
      (cls : TokenClass) (token : Bytes) (words : List Bytes)
      → is_single s ≡ true
      → parse_new_token l yylex fuel s ≡ scanned (cls, token, s1)
      → 1 < s1.multi_token_count
      → Remembers s1 words
      → length (prefixed l (add_token_to_array token s1) token) ≤ l.max_token_len
      → let s' = add_token_to_array token s1 in
        (get_token l yylex (suc fuel) s ≡ scanned (cls, prefixed l s' token, s'))
        × Remembers s' (token ∷ words)
        × (s'.init_token ≡ 1)
  unfolding get_token single_token add_token_to_array
  get_token-Remembers l yylex fuel s s1 cls token words single parsed several held short =
      let s' = add_token_to_array token s1 in
      let enough =
        and-false (has_prefix s') (ltb l.max_token_len (length (prefixed l s' token)))
          (not_ltb l.max_token_len (length (prefixed l s' token)) short) in
      (
        rw (single, parsed) (rw (remembered token s1 several) (rw enough refl)),
        add_token_to_array-Remembers s1 words token (omega arith) held,
        refl,
      )
