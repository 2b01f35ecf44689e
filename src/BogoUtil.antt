-- ===== src/BogoUtil.antt =====
-- bogofilter/src/bogoutil.c, the dump of a word list and its load. `fgets` reads as the loop of
-- bogofilter/src/fgetsl.c does, and its end is a read of nothing; an error of a file is left out.
-- `atoi` and the printing of numbers are those of the C library, where a number that a long cannot
-- hold is the greatest long.
pub mod Numbers
pub mod Line
pub mod Sum
pub mod Load
use bogofilter.Prelude.{
  Bool, Bytes, List, Option, [], false, get_or, if◌then◌else◌, leb, length, ltb, min, none, not,
  some, suc, true, zero, ℕ, ◌%◌, ◌&&◌, ◌*◌, ◌++◌, ◌+◌, ◌-◌, ◌/◌, ◌==◌, ◌>>=◌, ◌^◌, ◌||◌, ◌∷◌,
}
use bogofilter.Word.{Word}
use bogofilter.WordLists.{same_bytes}
use bogofilter.Mime.Header.{c_string}
use bogofilter.Buff.{fgets_loop}
use bogofilter.Datastore.{
  Backend, Settings, Dsv, Status, ok, ReadResult, found, absent, read_retry, read_exit, Outcome,
  done, exits, spins, zero_dsv, msg_count_tok, wordlist_encoding_tok, ds_read, ds_write,
}
use bogofilter.Maint.{Maintenance, discard_token, do_replace_nonascii_characters}

-- `%lu`: the digits of a number, with the number as fuel.
unfoldable pub decimal_from : ℕ → ℕ → Bytes
decimal_from zero n = (b'0' + n % 10) ∷ []
decimal_from (suc k) n =
    let rest = decimal_from k (n / 10) ++ (b'0' + n % 10) ∷ [] in
    if ltb n 10 then (b'0' + n) ∷ [] else rest

unfoldable pub decimal : ℕ → Bytes
unfolding decimal_from
decimal n = decimal_from n n

-- `POSIX_space`, which is what `isspace` passes too.
abbrev pub is_space : ℕ → Bool
is_space c = c == b' ' || leb 9 c && leb c 13

unfoldable pub drop_spaces : Bytes → Bytes
drop_spaces [] = []
drop_spaces (c ∷ t) = let rest = drop_spaces t in if is_space c then rest else c ∷ t

abbrev pub is_digit : ℕ → Bool
is_digit c = leb b'0' c && leb c b'9'

unfoldable pub digits_value : ℕ → Bytes → ℕ
digits_value a [] = a
digits_value a (c ∷ t) =
    let rest = digits_value (a * 10 + (c - b'0')) t in if is_digit c then rest else a

-- `(uint) atoi(p)`
unfoldable pub atoi_sign : Bytes → ℕ
unfolding digits_value
atoi_sign [] = 0
atoi_sign (c ∷ t) =
    if c == b'-'
    then (2 ^ 64 - min (digits_value 0 t) (2 ^ 63)) % 2 ^ 32
    else min (if c == b'+' then digits_value 0 t else digits_value 0 (c ∷ t)) (2 ^ 63 - 1) % 2 ^ 32

unfoldable pub atoi : Bytes → ℕ
unfolding drop_spaces atoi_sign
atoi p = atoi_sign (drop_spaces p)

-- A count that is negative as an int is 0.
abbrev pub count_of : ℕ → ℕ
count_of n = if leb (2 ^ 31) n then 0 else n

-- The word in front of the first space, and what is behind that space, which becomes a NUL.
unfoldable pub split_word : Bytes → Bytes × Bytes
split_word [] = ([], [])
split_word (c ∷ t) = let rest = split_word t in if is_space c then ([], t) else (c ∷ rest.0, rest.1)

-- The string that begins at `t` then, with its leading spaces, and the place that is returned.
unfoldable pub spanword : Bytes → Bytes × Bytes
unfolding split_word
spanword [] = ([], [])
spanword (c ∷ t) =
    let rest = spanword t in if is_space c then (c ∷ rest.0, rest.1) else split_word (c ∷ t)

unfoldable pub is_count : Bytes → Bool
unfolding same_bytes
is_count word =
    if not (get_or word 0 0 == b'.')
    then true
    else same_bytes word msg_count_tok || same_bytes word wordlist_encoding_tok

-- The line of a token, without the tokens that maintenance discards.
unfoldable pub dump_line : Word → Dsv → Bytes
unfolding c_string decimal
dump_line key val =
    c_string key
    ++ (b' '
        ∷ (decimal val.spamcount
            ++ (b' '
                ∷ (decimal val.goodcount
                    ++ ((if val.date == 0 then [] else b' ' ∷ decimal val.date) ++ b'\n' ∷ [])))))

-- `maintain` and `max_token_len`, with the variables of bogofilter/src/maint.c.
pub record Setup : Type 0 where
  pub maintain : Bool
  pub maintenance : Maintenance
  pub max_token_len : ℕ

abbrev pub replaced : Setup → Word → Word
replaced o w =
    if o.maintenance.replace_nonascii_characters then (do_replace_nonascii_characters w).1 else w

-- What is printed for a token.
unfoldable pub ds_dump_hook : Setup → Word → Dsv → Bytes
unfolding dump_line discard_token do_replace_nonascii_characters
ds_dump_hook o key val =
    if o.maintain && discard_token o.maintenance key val then [] else dump_line (replaced o key) val

-- The dump of the tokens that the database gives, in its order.
unfoldable pub dump_wordlist : Setup → List (Word × Dsv) → Bytes
unfolding ds_dump_hook
dump_wordlist o [] = []
dump_wordlist o ((key, val) ∷ items) = ds_dump_hook o key val ++ dump_wordlist o items

-- What a line stands for.
pub data Entry : Type 0 where
  ignored unexpected : Entry
  entry : Word → ℕ → ℕ → ℕ → Entry

-- The line is a string; `today` is the date for a line without one.
unfoldable pub parse_line : Setup → ℕ → Bytes → Entry
unfolding spanword atoi
parse_line o today line =
    let (word, p) = spanword line in
    let p1 = (spanword p).1 in
    let p2 = (spanword p1).1 in
    let date = atoi p2 in
    if ltb (length line) 4
    then ignored
    else if not (o.max_token_len == 0) && ltb o.max_token_len (length word)
    then ignored
    else if not (length (spanword p2).1 == 0)
    then unexpected
    else entry word (count_of (atoi p)) (count_of (atoi p1)) (if date == 0 then today else date)

abbrev pub is_ok : Status → Bool
is_ok ok = true
is_ok status = false

-- The value and whether the read failed; no result is the exit.
unfoldable pub read_value : ReadResult → Option (Dsv × Bool)
read_value (found v) = some (v, true)
read_value absent = some (zero_dsv, true)
read_value read_retry = some (zero_dsv, false)
read_value (read_exit e) = none

-- Whether the token is one to load.
unfoldable pub is_loaded : Setup → Word → ℕ → ℕ → ℕ → Bool
unfolding is_count discard_token
is_loaded o token spam good date =
    is_count token
    && not (
        o.maintain
        && discard_token o.maintenance token
            (record { spamcount = spam; goodcount = good; date = date }))

-- The calls that end the transaction; the commit reports its success.
pub record Txn (Db : Type 0) : Type 0 where
  pub abort : Db → Db
  pub commit : Db → Bool × Db

module _ (b : Backend) (s : Settings) where
  open b use {Db}

  -- A token is added to what the database has for it.
  unfoldable pub load_token : Word → ℕ → ℕ → ℕ → Db → Option (Bool × Db)
  load_token token spam good date db = do
    let s' : Settings = record s { today = date }
    let (ret, db1) = ds_read b s' db token
    (v, fine) ← read_value ret
    let val : Dsv = record v {
      spamcount = (v.spamcount + spam) % 2 ^ 32;
      goodcount = (v.goodcount + good) % 2 ^ 32;
    }
    let (status, val', db2) = ds_write b s' db1 token val
    some (fine && is_ok status, db2)

module _ (b : Backend) (s : Settings) (o : Setup) where
  open b use {Db}

  -- The success so far, and the database.
  unfoldable pub load_entry : Word → ℕ → ℕ → ℕ → Bool × Db → Option (Bool × Db)
  unfolding is_loaded do_replace_nonascii_characters
  load_entry word spam good date (fine, db) =
      let token = replaced o word in
      if is_loaded o token spam good date
      then (load_token b s token spam good date db >>= λ r. some (fine && r.0, r.1))
      else some (fine, db)

  unfoldable pub after_entry :
      Entry → Bool × Db → (Bool × Db → Outcome (Bool × Db)) → Outcome (Bool × Db)
  after_entry ignored st next = next st
  after_entry unexpected st next = done (false, st.1)
  after_entry (entry word spam good date) st next = elim (load_entry word spam good date st) [
    | none ↦ exits
    | some st' ↦ next st'
  ]

  -- The loop over the lines, on fuel; the buffer has room for 511 bytes and a NUL.
  unfoldable pub load_lines : ℕ → Bytes → Bool × Db → Outcome (Bool × Db)
  load_lines zero fpin st = spins
  load_lines (suc n) fpin st =
      let line = fgets_loop 511 fpin in
      let rest =
        after_entry (parse_line o s.today (c_string line.0)) st (λ st'. load_lines n line.1 st') in
      if length line.0 == 0 then done st else rest

  -- The result, which is 0 for a success, and the database.
  unfoldable pub finish_load : Txn Db → Bool × Db → Outcome (ℕ × Db)
  finish_load txn (false, db) = done (1, txn.abort db)
  finish_load txn (true, db) = if (txn.commit db).0 then done (0, (txn.commit db).1) else exits

  unfoldable pub load_wordlist : Txn Db → Bytes → Db → Outcome (ℕ × Db)
  unfolding finish_load
  load_wordlist txn fpin db =
      let (failed, db1) = b.txn_begin db in
      let run = load_lines (suc (length fpin)) fpin (true, db1) in
      if failed
      then exits
      else elim run [ done st ↦ finish_load txn st | exits ↦ exits | spins ↦ spins ]
