-- ===== src/Datastore.antt =====
-- bogofilter/src/datastore.c: tokens and their counts on top of a database backend, and
-- bogofilter/src/swap_32bit.c. The backend (`db_get_dbvalue`, `db_set_dbvalue`, `db_delete` and the
-- transactions that `dsm` points to) is the parameter `Backend`: one of several libraries stands
-- behind it.
pub mod RoundTrip
pub mod Healthy
use bogofilter.Prelude.{
  Bool, List, Option, [], codes, get_or, if◌then◌else◌, leb, none, not, some, ℕ, ◌%◌, ◌&&◌, ◌*◌,
  ◌++◌, ◌+◌, ◌/◌, ◌==◌, ◌^◌, ◌∷◌,
}
use bogofilter.Word.{Word}

abbrev pub u32_mod : ℕ
u32_mod = 2 ^ 32

-- The four masks and shifts take the bytes apart and put them together in the other order; the
-- parts have no bit in common, so `|` is `+`.
unfoldable pub swap_32bit : ℕ → ℕ
swap_32bit x =
    x / 2 ^ 24 % 256 + (x / 2 ^ 16 % 256) * 2 ^ 8 + (x / 2 ^ 8 % 256) * 2 ^ 16 + (x % 256) * 2 ^ 24

-- IP_PREFIX of bogofilter/src/common.h
abbrev pub current_version : ℕ
current_version = 20040500

-- What a call of the backend returns: 0, DS_NOTFOUND, DS_ABORT_RETRY, or another code.
pub data Status : Type 0 where
  ok not_found abort_retry : Status
  failed : ℕ → Status

-- `dbv_t`: the buffer as an array of `uint32_t`, and its length in bytes.
pub record Dbv : Type 0 where
  pub cells : List ℕ
  pub leng : ℕ

-- `dsv_t`
pub record Dsv : Type 0 where
  pub spamcount : ℕ
  pub goodcount : ℕ
  pub date : ℕ

abbrev pub zero_dsv : Dsv
zero_dsv = record { spamcount = 0; goodcount = 0; date = 0 }

-- A read may change the state: it can abort the transaction that it is part of.
pub record Backend : Type 1 where
  pub Db : Type 0
  pub get_dbvalue : Db → Word → Status × Dbv × Db
  pub set_dbvalue : Db → Word → Dbv → Status × Db
  -- Whether `ds_txn_begin` failed.
  pub txn_begin : Db → Bool × Db
  pub delete_key : Db → Word → Status × Db

-- The globals `timestamp_tokens` and `today`, and `is_swapped` of the handle.
pub record Settings : Type 0 where
  pub timestamp_tokens : Bool
  pub today : ℕ
  pub is_swapped : Bool

-- `!dsh->is_swapped ? x : swap_32bit(x)`
unfoldable pub cell : Settings → ℕ → ℕ
unfolding swap_32bit
cell s x = if not s.is_swapped then x else swap_32bit x

-- The entry of the buffer, as a `uint32_t`.
pub read_cell : Settings → Dbv → ℕ → ℕ
unfolding cell
read_cell s ex i = cell s (get_or ex.cells i 0 % 2 ^ 32)

unfoldable pub convert_external_to_internal : Settings → Dbv → Dsv
unfolding read_cell
convert_external_to_internal s ex =
    let no_good = leb ex.leng 4 in
    let i = if no_good then 1 else 2 in
    record {
      spamcount = read_cell s ex 0;
      goodcount = if no_good then 0 else read_cell s ex 1;
      date = if leb ex.leng (i * 4) then 0 else read_cell s ex i;
    }

unfoldable pub convert_internal_to_external : Settings → Dsv → Dbv
unfolding cell
convert_internal_to_external s val =
    let counts = cell s val.spamcount ∷ cell s val.goodcount ∷ [] in
    let dated = s.timestamp_tokens && not (val.date == 0) in
    let cv = if dated then counts ++ cell s val.date ∷ [] else counts in
    record { cells = cv; leng = (if dated then 3 else 2) * 4 }

-- What `ds_read` returns: 0, 1 and DS_ABORT_RETRY. On another code it exits.
pub data ReadResult : Type 0 where
  found : Dsv → ReadResult
  absent : ReadResult
  read_retry : ReadResult
  read_exit : ℕ → ReadResult

-- How a call ends that can exit the process, or wait for ever: `spins` says that the fuel of such a
-- wait ran out.
pub data Outcome {ℓ} (A : Type ℓ) : Type ℓ where
  done : A → Outcome A
  exits : Outcome A
  spins : Outcome A

abbrev pub msg_count_tok : Word
msg_count_tok = codes ".MSG_COUNT"

abbrev pub wordlist_encoding_tok : Word
wordlist_encoding_tok = codes ".ENCODING"

abbrev pub wordlist_version_tok : Word
wordlist_version_tok = codes ".WORDLIST_VERSION"

module _ (b : Backend) (s : Settings) where
  open b use {Db, get_dbvalue, set_dbvalue, delete_key}

  unfoldable pub ds_read : Db → Word → ReadResult × Db
  unfolding convert_external_to_internal
  ds_read db word =
      let (ret, ex, db') = get_dbvalue db word in
      (
        elim ret [
          | ok ↦ found (convert_external_to_internal s ex)
          | not_found ↦ absent
          | abort_retry ↦ read_retry
          | failed e ↦ read_exit e
        ],
        db',
      )

  -- The value is changed too, when the date is set.
  unfoldable pub ds_write : Db → Word → Dsv → Status × Dsv × Db
  unfolding convert_internal_to_external
  ds_write db word val =
      let val' =
        if s.timestamp_tokens && not (s.today == 0) then record val { date = s.today } else val in
      let (ret, db') = set_dbvalue db word (convert_internal_to_external s val') in (ret, val', db')

  unfoldable pub ds_delete : Db → Word → Status × Db
  ds_delete db word = delete_key db word

  unfoldable pub ds_get_msgcounts : Db → ReadResult × Db
  unfolding ds_read
  ds_get_msgcounts db = ds_read db msg_count_tok

  unfoldable pub ds_set_msgcounts : Db → Dsv → Status × Dsv × Db
  unfolding ds_write
  ds_set_msgcounts db val = ds_write db msg_count_tok (record val { date = s.today })

  unfoldable pub ds_get_wordlist_encoding : Db → ReadResult × Db
  unfolding ds_read
  ds_get_wordlist_encoding db = ds_read db wordlist_encoding_tok

  unfoldable pub ds_set_wordlist_encoding : Db → ℕ → Status × Dsv × Db
  unfolding ds_write
  ds_set_wordlist_encoding db enc =
      ds_write db wordlist_encoding_tok (record { spamcount = enc; goodcount = 0; date = s.today })

  unfoldable pub ds_get_wordlist_version : Db → ReadResult × Db
  unfolding ds_read
  ds_get_wordlist_version db = ds_read db wordlist_version_tok

  -- A null value stands for the current version.
  unfoldable pub ds_set_wordlist_version : Db → Option Dsv → Status × Dsv × Db
  unfolding ds_write
  ds_set_wordlist_version db val =
      let v : Dsv = elim val [
        | none ↦ record { spamcount = current_version; goodcount = 0; date = s.today }
        | some v ↦ record v { date = s.today }
      ] in
      ds_write db wordlist_version_tok v
