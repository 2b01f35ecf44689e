-- ===== src/Register.antt =====
-- bogofilter/src/register.c: the words of messages are added to a word list, or taken out of it.
-- The table of words is the list of its words and frequencies in the order of its loop. The word
-- list is the default one: `db` is its database, and `msgcount` its two counts of messages.
pub mod Update
pub mod Tally
pub mod Words
use bogofilter.Prelude.{
  Bool, List, [], if◌then◌else◌, ltb, suc, zero, ℕ, ◌%◌, ◌+◌, ◌-◌, ◌==◌, ◌^◌, ◌∷◌,
}
use bogofilter.Word.{Word}
use bogofilter.Datastore.{
  Backend, Settings, Status, ok, abort_retry, not_found, failed, ReadResult, Dsv, zero_dsv, found,
  absent, read_retry, read_exit, ds_read, ds_write, ds_get_msgcounts, ds_set_msgcounts, Outcome,
  done, exits, spins,
}

-- `sh_t`
pub data Sh : Type 0 where
  ix_spam ix_good ix_undf : Sh

-- `counts[i]` and a change of it
abbrev pub count_at : Sh → Dsv → ℕ
count_at ix_spam v = v.spamcount
count_at ix_good v = v.goodcount
count_at ix_undf v = 0

abbrev pub set_count : Sh → ℕ → Dsv → Dsv
set_count ix_spam n v = record v { spamcount = n }
set_count ix_good n v = record v { goodcount = n }
set_count ix_undf n v = v

-- The two flags of the run type that say where words are added, and where they are taken out. A
-- later flag wins over an earlier one.
unfoldable pub incr_of : Bool → Bool → Sh
incr_of reg_spam reg_good = if reg_good then ix_good else if reg_spam then ix_spam else ix_undf

unfoldable pub decr_of : Bool → Bool → Sh
decr_of unreg_spam unreg_good =
    if unreg_good then ix_good else if unreg_spam then ix_spam else ix_undf

-- The counts of a word with frequency `freq`: added modulo 2 ^ 32, taken out down to 0. A `long`
-- holds every `u_int32_t`.
unfoldable pub update_counts : Sh → Sh → ℕ → Dsv → Dsv
update_counts incr decr freq val =
    let val1 = set_count incr ((count_at incr val + freq) % 2 ^ 32) val in
    let c = count_at decr val1 in set_count decr (if ltb c freq then 0 else c - freq) val1

-- The message counts.
unfoldable pub update_msgs : Sh → Sh → ℕ → Dsv → Dsv
update_msgs incr decr msgcount val =
    let val1 = set_count incr ((count_at incr val + msgcount) % 2 ^ 32) val in
    let c = count_at decr val1 in set_count decr (if ltb msgcount c then c - msgcount else 0) val1

-- How a pass ends: at its end, with a jump to `retry`, or with an exit.
pub data Pass (Db : Type 0) : Type 0 where
  finished : Db → Dsv → Pass Db
  again : Db → Pass Db
  stops : Pass Db

-- The `switch` after a read, which goes on with the value, and the one after a write.
unfoldable pub after_read : {Db : Type 0} → ReadResult × Db → (Dsv → Db → Pass Db) → Pass Db
after_read (found v, db) next = next v db
after_read (absent, db) next = next zero_dsv db
after_read (read_retry, db) next = again db
after_read (read_exit e, db) next = stops

unfoldable pub after_write : {Db : Type 0} → Status × Dsv × Db → (Db → Pass Db) → Pass Db
after_write (ok, v, db) next = next db
after_write (abort_retry, v, db) next = again db
after_write (not_found, v, db) next = stops
after_write (failed e, v, db) next = stops

module _ (b : Backend) (s : Settings) where
  open b use {Db}

  -- The counts that are saved for the list, and written.
  unfoldable pub register_msgs : Sh → Sh → ℕ → Db → Pass Db
  unfolding update_msgs after_read after_write
  register_msgs incr decr msgcount db = after_read (ds_get_msgcounts b s db) λ v db1.
      let val = update_msgs incr decr msgcount v in
      after_write (ds_set_msgcounts b s db1 val) λ db2. finished db2 val

  -- The loop over the words, and what follows it.
  pub register_pass : Sh → Sh → ℕ → List (Word × ℕ) → Db → Pass Db
  unfolding update_counts register_msgs
  register_pass incr decr msgcount [] db = register_msgs incr decr msgcount db
  register_pass incr decr msgcount ((w, freq) ∷ words) db = after_read (ds_read b s db w) λ v db1.
      after_write (ds_write b s db1 w (update_counts incr decr freq v))
        λ db2. register_pass incr decr msgcount words db2

  -- `begin_wordlist` of bogofilter/src/wordlists.c is the argument `begin`.
  pub register_loop :
      (Db → Outcome Db) → ℕ → Sh → Sh → ℕ → List (Word × ℕ) → Db → Outcome (Db × Dsv)
  unfolding register_pass
  register_loop begin zero incr decr msgcount words db = exits
  register_loop begin (suc retrycount) incr decr msgcount words db =
      elim (register_pass incr decr msgcount words db) [
        | finished db' val ↦ done (db', val)
        | stops ↦ exits
        | again db' ↦ elim (begin db') [
          | done db'' ↦ register_loop begin retrycount incr decr msgcount words db''
          | exits ↦ exits
          | spins ↦ spins
        ]
      ]

  -- Sixty passes at most; no message is counted for an empty table.
  unfoldable pub register_words :
      (Db → Outcome Db) → Sh → Sh → ℕ → List (Word × ℕ) → ℕ → Db → Outcome (Db × Dsv)
  unfolding register_loop
  register_words begin incr decr wordcount words msgcount db =
      register_loop begin 60 incr decr (if wordcount == 0 then 0 else msgcount) words db
