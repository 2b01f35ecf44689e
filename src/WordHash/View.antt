-- ===== src/WordHash/View.antt =====
-- The map from words to data that a table of bogofilter/src/wordhash.c stands for, and writes to it.
use bogofilter.Prelude.{
  Bool-cases, List, Option, Option-cases, [], ap, arith, if◌then◌else◌, inl, inr, length, none,
  refl, some, sym, true, ℕ, ◌<◌, ◌==◌, ◌∙◌, ◌∷◌, ◌≡◌, ◌≢◌,
}
use bogofilter.Word.{Word}
use bogofilter.WordHash.{HashNode, WordHash, has_key, deref, same_word, wordhash_search}
use bogofilter.WordHash.Bins.{
  find_key, IsTable, wordhash_search-find_key, chain, ids, newest, Distinct, in_bin,
  same_word_sound, has_key_sound,
}

module _ {ℓ} {D : Type ℓ} where
  -- `*data = d` through the pointer to a node's data.
  unfoldable pub write : List (HashNode D) → ℕ → D → List (HashNode D)
  write [] n d = []
  write (hn ∷ older) n d =
      if n == length older then record hn { payload = d } ∷ older else hn ∷ write older n d

  unfoldable pub set_data : WordHash D → ℕ → D → WordHash D
  unfolding write
  set_data wh n d = record wh { store = write wh.store n d }

  unfoldable pub data_at : List (HashNode D) → ℕ → Option D
  unfolding deref
  data_at store n = elim (deref store n) [ none ↦ none | some hn ↦ some hn.payload ]

  -- The map that the table stands for.
  unfoldable pub view : WordHash D → Word → Option D
  unfolding data_at
  view wh t = elim (wordhash_search wh t 0) [ none ↦ none | some n ↦ data_at wh.store n ]

  -- The data of a word, by a look at every node.
  unfoldable pub at_key : List (HashNode D) → Word → Option D
  at_key [] t = none
  at_key (hn ∷ older) t = if has_key hn t then some hn.payload else at_key older t

  pub find_key-lt :
      (store : List (HashNode D)) (t : Word) (n : ℕ) → find_key store t ≡ some n → n < length store
  unfolding find_key
  find_key-lt [] t n e = cc
  find_key-lt (hn ∷ older) t n e = ground (arith, find_key-lt older t n)

  pub find_key-some :
      (store : List (HashNode D)) (t : Word) (n : ℕ)
      → find_key store t ≡ some n
      → (data_at store n ≡ at_key store t) × (at_key store t ≢ none)
  unfolding find_key at_key data_at
  find_key-some [] t n e = cc
  find_key-some (hn ∷ older) t n e =
      let below = find_key-lt older t n in
      elim (Bool-cases (has_key hn t)) [
        | inl h ↦ (ground arith, ground arith)
        | inr h ↦
            let e' : find_key older t ≡ some n = rw h at e in
            let lt = below e' in let (p, q) = find_key-some older t n e' in (ground arith, rw h q)
      ]

  pub find_key-none :
      (store : List (HashNode D)) (t : Word) → find_key store t ≡ none → at_key store t ≡ none
  unfolding find_key at_key
  find_key-none [] t e = refl
  find_key-none (hn ∷ older) t e = ground (arith, find_key-none older t)

  -- What the pointers lead to is what a look at every node finds.
  pub view-at_key : (wh : WordHash D) (t : Word) → IsTable wh → view wh t ≡ at_key wh.store t
  unfolding view
  view-at_key wh t v = elim (Option-cases (find_key wh.store t)) [
    | inl e ↦
        rw ((wordhash_search-find_key wh t v).1, view)
          (rw (e, view) (sym (find_key-none wh.store t e)))
    | inr (n, e) ↦
        rw ((wordhash_search-find_key wh t v).1, view)
          (rw (e, view) ((find_key-some wh.store t n e).0))
  ]

  pub length-write :
      (store : List (HashNode D)) (n : ℕ) (d : D) → length (write store n d) ≡ length store
  unfolding write
  length-write [] n d = refl
  length-write (hn ∷ older) n d = ground (arith, length-write older n d)

  find_key-write :
      (store : List (HashNode D)) (n : ℕ) (d : D) (u : Word)
      → find_key (write store n d) u ≡ find_key store u
  unfolding write find_key has_key
  find_key-write [] n d u = refl
  find_key-write (hn ∷ older) n d u =
      ground (arith, find_key-write older n d u, length-write older n d)

  chain-write :
      (i : ℕ) (store : List (HashNode D)) (n : ℕ) (d : D)
      → chain i (write store n d) ≡ chain i store
  unfolding chain write in_bin
  chain-write i [] n d = refl
  chain-write i (hn ∷ older) n d = ground (arith, chain-write i older n d, length-write older n d)

  ids-write : (store : List (HashNode D)) (n : ℕ) (d : D) → ids (write store n d) ≡ ids store
  unfolding ids write
  ids-write [] n d = refl
  ids-write (hn ∷ older) n d = ground (arith, ids-write older n d, length-write older n d)

  newest-write :
      (store : List (HashNode D)) (n : ℕ) (d : D) → newest (write store n d) ≡ newest store
  unfolding newest write
  newest-write [] n d = refl
  newest-write (hn ∷ older) n d = ground (arith, length-write older n d)

  Distinct-write :
      (store : List (HashNode D)) (n : ℕ) (d : D) → Distinct store → Distinct (write store n d)
  unfolding write has_key
  Distinct-write [] n d v = tt
  Distinct-write (hn ∷ older) n d (h, v) = elim (Bool-cases (n == length older)) [
    | inl e ↦ rw (e, write) (h, v)
    | inr e ↦ rw (e, write) (λ t k. find_key-write older n d t ∙ h t k, Distinct-write older n d v)
  ]

  pub write-IsTable : (wh : WordHash D) (n : ℕ) (d : D) → IsTable wh → IsTable (set_data wh n d)
  unfolding set_data
  write-IsTable wh n d v = record {
    normal = v.normal;
    chains = λ i. v.chains i ∙ sym (chain-write i wh.store n d);
    listed = v.listed ∙ sym (ids-write wh.store n d);
    tail = v.tail ∙ sym (newest-write wh.store n d);
    distinct = Distinct-write wh.store n d v.distinct;
  }

  has_key_other :
      (hn : HashNode D) (t u : Word) → has_key hn t ≡ true → has_key hn u ≡ same_word t u
  unfolding has_key
  has_key_other hn t u h = let e = has_key_sound hn t h in ground arith

  has_key_same : (hn : HashNode D) (t u : Word) → same_word t u ≡ true → has_key hn u ≡ has_key hn t
  has_key_same hn t u h = sym (ap (has_key hn) (same_word_sound t u h))

  at_key-write :
      (store : List (HashNode D)) (t : Word) (n : ℕ) (d : D) (u : Word)
      → Distinct store
      → find_key store t ≡ some n
      → at_key (write store n d) u ≡ (if same_word t u then some d else at_key store u)
  unfolding at_key write find_key
  at_key-write [] t n d u v e = cc
  at_key-write (hn ∷ older) t n d u v e =
      let lt = find_key-lt older t n in
      let payload' : has_key (record hn { payload = d }) u ≡ has_key hn u =
        unfold has_key in refl in
      elim (Bool-cases (has_key hn t)) [
        | inl h ↦ ground (arith, has_key_other hn t u h, payload')
        | inr h ↦
            let e' : find_key older t ≡ some n = rw h at e in
            let below = lt e' in
            ground (arith, has_key_same hn t u, at_key-write older t n d u v.1 e')
      ]

  -- A write through the pointer to a word's data changes the map at that word and nowhere else.
  pub set_data_lem :
      (wh : WordHash D) (t : Word) (n : ℕ) (d : D)
      → IsTable wh
      → find_key wh.store t ≡ some n
      → IsTable (set_data wh n d)
        × ((u : Word) → view (set_data wh n d) u ≡ (if same_word t u then some d else view wh u))
  unfolding set_data
  set_data_lem wh t n d v e =
      let v' = write-IsTable wh n d v in
      (
        v',
        λ u.
            rw (view-at_key (set_data wh n d) u v', view-at_key wh u v)
              (at_key-write wh.store t n d u v.distinct e),
      )
