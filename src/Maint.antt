-- ===== src/Maint.antt =====
-- bogofilter/src/maint.c: what maintenance does to one token of a word list. The conversion between
-- two character sets, which is iconv's, is a function of the setup. A text is not empty where its
-- first byte is read.
pub mod Discard
pub mod Hook
use bogofilter.Prelude.{
  Bool, Bytes, Option, [], codes, drop, false, get_or, if◌then◌else◌, leb, length, ltb, max, none,
  not, some, take, true, ℕ, ◌%◌, ◌&&◌, ◌++◌, ◌+◌, ◌==◌, ◌>>=◌, ◌^◌, ◌||◌, ◌∷◌,
}
use bogofilter.Word.{Word}
use bogofilter.WordLists.{same_bytes}
use bogofilter.Datastore.{
  Backend, Settings, Dsv, ReadResult, found, absent, msg_count_tok, wordlist_encoding_tok,
  current_version, read_retry, read_exit,
}
use bogofilter.Transaction.{Transaction, ta_delete, ta_write, ta_read}

-- The variables of the file, and the two encodings of `maintain_wordlist`.
pub record Maintenance : Type 0 where
  pub thresh_count : ℕ
  pub thresh_date : ℕ
  pub size_min : ℕ
  pub size_max : ℕ
  pub upgrade_wordlist_version : Bool
  pub wordlist_version : ℕ
  pub replace_nonascii_characters : Bool
  pub same_encoding : Bool
  pub iconvert : Word → Word

-- `ROBX_W` of bogofilter/src/globals.h
abbrev pub robx_tok : Word
robx_tok = codes ".ROBX"

-- The reserved words that are looked for.
unfoldable pub is_reserved : Word → Bool
unfolding same_bytes
is_reserved token =
    get_or token 0 0 == b'.'
    && (same_bytes token msg_count_tok
        || (same_bytes token robx_tok || same_bytes token wordlist_encoding_tok))

module _ (m : Maintenance) where
  abbrev pub keep_count : ℕ → Bool
  keep_count count = ltb m.thresh_count count

  abbrev pub keep_date : ℕ → Bool
  keep_date date = ltb m.thresh_date date

  abbrev pub keep_size : ℕ → Bool
  keep_size size = leb m.size_min size && leb size m.size_max

  -- One of the constraints that are given keeps the token.
  unfoldable pub is_kept : Word → Dsv → Bool
  is_kept token in_val =
      (not (m.thresh_count == 0) && (keep_count in_val.spamcount || keep_count in_val.goodcount))
      || ((not (m.thresh_date == 0) && keep_date in_val.date)
          || ((not (m.size_min == 0) || not (m.size_max == 0)) && keep_size (length token)))

  unfoldable pub discard_token : Word → Dsv → Bool
  unfolding is_reserved is_kept
  discard_token token in_val =
      let discard =
        not (m.thresh_count == 0)
        || (not (m.thresh_date == 0) || (not (m.size_min == 0) || not (m.size_max == 0))) in
      if is_reserved token then false else if discard then not (is_kept token in_val) else false

-- The text with a question mark for each byte that is not ASCII, and whether there is one.
unfoldable pub do_replace_nonascii_characters : Bytes → Bool × Bytes
do_replace_nonascii_characters [] = (false, [])
do_replace_nonascii_characters (c ∷ str) =
    let rest = do_replace_nonascii_characters str in
    if leb 128 c then (true, b'?' ∷ rest.1) else (rest.0, c ∷ rest.1)

-- The value that is written for the new token; no result is the exit of the read.
unfoldable pub merged : ReadResult → Dsv → Option Dsv
merged (found tmp) in_val = some (record {
  spamcount = (tmp.spamcount + in_val.spamcount) % 2 ^ 32;
  goodcount = (tmp.goodcount + in_val.goodcount) % 2 ^ 32;
  date = max tmp.date in_val.date;
})
merged absent in_val = some in_val
merged read_retry in_val = some in_val
merged (read_exit e) in_val = none

-- The results of the scheduling are not used, and neither is the date of the day, which a commit sets.
unfoldable pub replace_token : Word → Word → Dsv → Transaction → Transaction
unfolding ta_delete ta_write
replace_token old_token new_token in_val ta =
    (ta_write (ta_delete ta old_token).1 new_token in_val).1

module _ (b : Backend) (s : Settings) where
  unfoldable pub merge_tokens : Word → Word → Dsv → Transaction → b.Db → Option (Transaction × b.Db)
  unfolding ta_delete ta_write ta_read merged
  merge_tokens old_token new_token in_val ta db = do
    let deleted = (ta_delete ta old_token).1
    let (ret, db') = ta_read b s deleted db new_token
    tmp ← merged ret in_val
    some ((ta_write deleted new_token tmp).1, db')

  module _ (m : Maintenance) where
    replace_step : Word → Dsv → Transaction → b.Db → Option (Transaction × b.Db)
    unfolding do_replace_nonascii_characters merge_tokens
    replace_step token in_val ta db =
        let (change, new_token) = do_replace_nonascii_characters token in
        if m.replace_nonascii_characters && change
        then merge_tokens token new_token in_val ta db
        else some (ta, db)

    encoding_step : Word → Dsv → Transaction → b.Db → Option (Transaction × b.Db)
    unfolding merge_tokens same_bytes
    encoding_step token in_val ta db =
        let new = m.iconvert token in
        if not m.same_encoding && not (same_bytes token new)
        then merge_tokens token new in_val ta db
        else some (ta, db)

    -- From the prefix of addresses in old word lists to that of version `IP_PREFIX`.
    unfoldable pub upgrade_step : Word → Dsv → Transaction → Transaction
    unfolding replace_token same_bytes
    upgrade_step token in_val ta =
        if m.upgrade_wordlist_version
          && (m.wordlist_version == 0
              && (ltb 4 (length token) && same_bytes (take 4 token) (codes "url:")))
        then replace_token token (codes "ip:" ++ drop 4 token) in_val ta
        else ta

    rewrite_token : Word → Dsv → Transaction → b.Db → Option (Bool × Transaction × b.Db)
    unfolding replace_step encoding_step upgrade_step
    rewrite_token token in_val ta db = do
      (ta1, db1) ← replace_step token in_val ta db
      (ta2, db2) ← encoding_step token in_val ta1 db1
      some (true, upgrade_step token in_val ta2, db2)

    -- The flag says that the result is EX_OK; no result is an exit.
    unfoldable pub maintain_hook :
        Word → Dsv → Transaction → b.Db → Option (Bool × Transaction × b.Db)
    unfolding discard_token ta_delete rewrite_token
    maintain_hook token in_val ta db =
        let (deleted, ta') = ta_delete ta token in
        let rewritten = rewrite_token token in_val ta db in
        if same_bytes token msg_count_tok
        then some (true, ta, db)
        else if discard_token m token in_val
        then some (deleted, ta', db)
        else rewritten
