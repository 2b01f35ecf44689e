-- ===== src/Score.antt =====
-- bogofilter/src/score.c: the words of a message are looked up in all word lists, and a message is judged.
pub mod Boundary
pub mod Lookup
pub mod Words
use bogofilter.Prelude.{
  Bool, List, [], false, if◌then◌else◌, leb, ltb, not, suc, true, zero, ℕ, ◌%◌, ◌&&◌, ◌+◌, ◌==◌,
  ◌>>=◌, ◌^◌, ◌||◌, ◌∷◌,
}
use bogofilter.Word.{Word}
use bogofilter.WordHash.{WordCnts}
use bogofilter.Datastore.{
  exits, read_exit, zero_dsv, found, spins, ds_read, done, Outcome, Dsv, Backend, Settings, absent,
  read_retry,
}
use bogofilter.WordLists.{int_zero, WlType, Wordlist, wl_ignore, wl_regular}
use bogofilter.WordLists.Begin.{begin_wordlist}

-- How `lookup` ends: with 0, or with DS_ABORT_RETRY.
pub data Found : Type 0 where
  looked_up retries : Found

-- The counts are `u_int32_t`.
unfoldable pub add_counts : {Db : Type 0} → WordCnts → Dsv → Wordlist Db → WordCnts
add_counts cnts val l = record {
  good = (cnts.good + val.goodcount) % 2 ^ 32;
  bad = (cnts.bad + val.spamcount) % 2 ^ 32;
  msgs_good = (cnts.msgs_good + l.msgs_good) % 2 ^ 32;
  msgs_bad = (cnts.msgs_bad + l.msgs_spam) % 2 ^ 32;
}

unfoldable pub is_ignore : WlType → Bool
is_ignore wl_ignore = true
is_ignore wl_regular = false

-- What a look-up leaves: how it ends, the counts, the version, and the queue of lists.
abbrev pub Looked : Type 0 → Type 0
Looked Db = Outcome (Found × WordCnts × ℕ × List (Wordlist Db))

-- The lists that the loop has passed are put back in front.
unfoldable pub put_back : {Db : Type 0} → Wordlist Db → Looked Db → Looked Db
put_back l (done (r, cnts, version, rest)) = done (r, cnts, version, l ∷ rest)
put_back l exits = exits
put_back l spins = spins

module _ (b : Backend) (s : Settings) (fuel : ℕ) (version : ℕ) (token : Word) where
  open b use {Db}

  -- The body of the loop behind its first test; `next` is what follows it. `fuel` is that of
  -- `begin_wordlist`, which an aborted read calls.
  unfoldable pub look_at :
      List (Wordlist Db) → (WordCnts → Looked Db) → Wordlist Db → WordCnts → Looked Db
  unfolding add_counts is_ignore put_back
  look_at lists next l cnts =
      let (ret, db) = ds_read b s l.dsh token in
      let l' = record l { dsh = db } in
      elim ret [
        | found val ↦
            if is_ignore l.type
            then done (looked_up, record cnts { good = 0; bad = 0 }, version, l' ∷ lists)
            else put_back l' (next (add_counts cnts val l))
        | absent ↦ put_back l' (next (add_counts cnts zero_dsv l))
        | read_retry ↦ elim (begin_wordlist b s fuel version l') [
          | done (version', l'') ↦ done (retries, cnts, version', l'' ∷ lists)
          | exits ↦ exits
          | spins ↦ spins
        ]
        | read_exit e ↦ exits
      ]

  -- The loop over the lists, with the `int` override kept as its distance from INT_MIN.
  unfoldable pub lookup_lists : List (Wordlist Db) → ℕ → WordCnts → Looked Db
  unfolding look_at
  lookup_lists [] override cnts = done (looked_up, cnts, version, [])
  lookup_lists (l ∷ lists) override cnts =
      if ltb l.override override
      then done (looked_up, cnts, version, l ∷ lists)
      else look_at lists (lookup_lists lists l.override) l cnts

module _ (b : Backend) (s : Settings) (fuel : ℕ) where
  open b use {Db}

  -- `lookup` outside of bogotune. The sums of the messages are cleared, those of the word are not.
  unfoldable pub lookup : ℕ → Word → WordCnts → List (Wordlist Db) → Looked Db
  unfolding lookup_lists
  lookup version token cnts lists =
      lookup_lists b s fuel version token lists int_zero
        (record cnts { msgs_good = 0; msgs_bad = 0 })

  -- The loop over the words of a message. With `retries`, it starts again from the first word.
  unfoldable pub lookup_each :
      ℕ
      → List (Word × WordCnts)
      → List (Wordlist Db)
      → Outcome (Found × ℕ × List (Word × WordCnts) × List (Wordlist Db))
  unfolding lookup
  lookup_each version [] lists = done (looked_up, version, [], lists)
  lookup_each version ((token, cnts) ∷ words) lists = elim (lookup version token cnts lists) [
    | done (looked_up, cnts', version', lists') ↦ elim (lookup_each version' words lists') [
      | done (r, version'', words', lists'') ↦ done (r, version'', (token, cnts') ∷ words', lists'')
      | exits ↦ exits
      | spins ↦ spins
    ]
    | done (retries, cnts', version', lists') ↦
        done (retries, version', (token, cnts') ∷ words, lists')
    | exits ↦ exits
    | spins ↦ spins
  ]

  -- `tries` bounds the number of jumps to `retry`.
  unfoldable pub lookup_tries :
      ℕ
      → ℕ
      → List (Word × WordCnts)
      → List (Wordlist Db)
      → Outcome (ℕ × List (Word × WordCnts) × List (Wordlist Db))
  unfolding lookup_each
  lookup_tries zero version words lists = spins
  lookup_tries (suc tries) version words lists = elim (lookup_each version words lists) [
    | done (looked_up, version', words', lists') ↦ done (version', words', lists')
    | done (retries, version', words', lists') ↦ lookup_tries tries version' words' lists'
    | exits ↦ exits
    | spins ↦ spins
  ]

  -- Words of a file of message counts have their counts already.
  unfoldable pub lookup_words :
      Bool
      → ℕ
      → ℕ
      → List (Word × WordCnts)
      → List (Wordlist Db)
      → Outcome (ℕ × List (Word × WordCnts) × List (Wordlist Db))
  unfolding lookup_tries
  lookup_words msg_count_file tries version words lists =
      if msg_count_file
      then done (version, words, lists)
      else lookup_tries tries version words lists

-- A limit of 0 is none.
unfoldable pub need_scoring_boundary : ℕ → ℕ → ℕ → ℕ → Bool
need_scoring_boundary token_count_min token_count_max token_count_fix count = not (
    (token_count_min == 0 || leb token_count_min count)
    && (token_count_max == 0 || leb count token_count_max)
    && (token_count_fix == 0 || token_count_fix == count))
