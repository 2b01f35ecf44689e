-- ===== src/WordLists/Begin.antt =====
-- `begin_wordlist` of bogofilter/src/wordlists.c: a transaction, and the parameters that are read
-- in it. The global `wordlist_version` is the argument `version`. The wait between two attempts has
-- no effect on the state.
use bogofilter.Prelude.{if◌then◌else◌, suc, zero, ℕ, ◌==◌}
use bogofilter.Datastore.{
  exits, done, read_exit, spins, found, Outcome, ds_get_msgcounts, ds_get_wordlist_version,
  ds_get_wordlist_encoding, Backend, Settings, absent, read_retry,
}
use bogofilter.WordLists.{Wordlist}

-- What one turn of the loop does: it is left, or it goes on.
pub data Attempt (Db : Type 0) : Type 0 where
  settled : ℕ → Wordlist Db → Attempt Db
  repeats : ℕ → Wordlist Db → Attempt Db
  quits : Attempt Db

module _ (b : Backend) (s : Settings) where
  open b use {Db}

  begin_encoding : ℕ → Wordlist Db → Attempt Db
  begin_encoding version l =
      let (ret, db) = ds_get_wordlist_encoding b s l.dsh in
      let l' = record l { dsh = db } in
      elim ret [
        | found v ↦ settled version (record l' { encoding = v.spamcount })
        | absent ↦ settled version l'
        | read_retry ↦ repeats version l'
        | read_exit e ↦ quits
      ]

  -- A version that cannot be read, an abort included, is passed over.
  begin_version : ℕ → Wordlist Db → Attempt Db
  unfolding begin_encoding
  begin_version version l =
      if version == 0
      then (let (ret, db) = ds_get_wordlist_version b s l.dsh in
          let l' = record l { dsh = db } in
          elim ret [
            | found v ↦ begin_encoding v.spamcount l'
            | absent ↦ begin_encoding version l'
            | read_retry ↦ begin_encoding version l'
            | read_exit e ↦ quits
          ])
      else begin_encoding version l

  begin_msgcounts : ℕ → Wordlist Db → Attempt Db
  unfolding begin_version
  begin_msgcounts version l =
      let (ret, db) = ds_get_msgcounts b s l.dsh in
      let l' = record l { dsh = db } in
      elim ret [
        | found v ↦
            begin_version version (record l' { msgs_good = v.goodcount; msgs_spam = v.spamcount })
        | absent ↦ begin_version version (record l' { msgs_good = 0; msgs_spam = 0 })
        | read_retry ↦ repeats version l'
        | read_exit e ↦ quits
      ]

  unfoldable pub begin_once : ℕ → Wordlist Db → Attempt Db
  unfolding begin_msgcounts
  begin_once version l =
      let (fails, db) = b.txn_begin l.dsh in
      let l' = record l { dsh = db } in
      if fails then repeats version l' else begin_msgcounts version l'

  -- The fuel bounds the number of turns.
  unfoldable pub begin_wordlist : ℕ → ℕ → Wordlist Db → Outcome (ℕ × Wordlist Db)
  unfolding begin_once
  begin_wordlist zero version l = spins
  begin_wordlist (suc n) version l = elim (begin_once version l) [
    | settled version' l' ↦ done (version', l')
    | repeats version' l' ↦ begin_wordlist n version' l'
    | quits ↦ exits
  ]
