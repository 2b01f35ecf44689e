-- ===== src/Score/Words.antt =====
-- `lookup_words` of bogofilter/src/score.c on databases whose calls succeed.
use bogofilter.Prelude.{
  All, Bool, List, [], arith, false, if◌then◌else◌, refl, suc, true, zero, ℕ, ◌∷◌, ◌≡◌, ◌≤◌,
}
use bogofilter.Word.{Word}
use bogofilter.WordHash.{WordCnts}
use bogofilter.Datastore.{Backend, Settings, done}
use bogofilter.Datastore.Healthy.{Healthy}
use bogofilter.WordLists.{Wordlist}
use bogofilter.WordLists.Queue.{Ascending}
use bogofilter.Score.{looked_up, lookup_each, lookup_tries, lookup_words}
use bogofilter.Score.Lookup.{CntsFit, after_lookup, searched, lookup-after_lookup}

module _ (b : Backend) (s : Settings) (h : Healthy b) (fuel version : ℕ) where
  open b use {Db}

  -- Each word with its counts after a look-up.
  pub after_words : List (Wordlist Db) → List (Word × WordCnts) → List (Word × WordCnts)
  after_words lists [] = []
  after_words lists ((w, c) ∷ words) =
      (w, after_lookup b s h w (searched b s h w lists) (record c { msgs_good = 0; msgs_bad = 0 }))
      ∷ after_words lists words

  each_lem :
      (words : List (Word × WordCnts)) (lists : List (Wordlist Db))
      → All (λ p. CntsFit p.1) words
      → Ascending lists
      → lookup_each b s fuel version words lists
        ≡ done (looked_up, version, after_words lists words, lists)
  unfolding lookup_each after_words
  each_lem [] lists f a = refl
  each_lem ((w, c) ∷ words) lists (f, fs) a =
      rw (lookup-after_lookup b s h w fuel version c lists f a, lookup_each)
        (rw (each_lem words lists fs a, lookup_each) refl)

  -- With databases whose calls succeed, a queue in the order of precedence and counts that fit 32
  -- bits, every word of a message has the counts of its look-up when the first pass over the words ends,
  -- with no retry, and the queue of lists is as it was. Words of a file of message counts keep the
  -- counts that they have.
  pub lookup_words-after_words :
      (from_file : Bool) (tries : ℕ) (words : List (Word × WordCnts)) (lists : List (Wordlist Db))
      → 1 ≤ tries
      → All (λ p. CntsFit p.1) words
      → Ascending lists
      → lookup_words b s fuel from_file tries version words lists
        ≡ done (version, if from_file then words else after_words lists words, lists)
  unfolding lookup_words lookup_tries
  lookup_words-after_words true tries words lists le f a = refl
  lookup_words-after_words false zero words lists le f a = absurd (omega arith)
  lookup_words-after_words false (suc tries) words lists le f a =
      rw (each_lem words lists f a, lookup_tries) refl
