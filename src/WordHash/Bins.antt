-- ===== src/WordHash/Bins.antt =====
-- The shape that the operations of bogofilter/src/wordhash.c keep, and what a search finds in it.
use bogofilter.Prelude.{
  Bool, List, Option, Option-cases, Ordering, [], arith, false, if◌then◌else◌, inl, inr, length,
  none, refl, some, true, ℕ, ◌++◌, ◌<◌, ◌==◌, ◌∷◌, ◌≡◌,
}
use bogofilter.Word.{Word, memcmp}
use bogofilter.WordHash.{
  wh_normal, HashNode, WordHash, hash, same_word, has_key, deref, find_in, wordhash_init,
  wordhash_search,
}

memcmp-eq : (a b : Word) → length a ≡ length b → memcmp a b (length a) ≡ Ordering.eq → a ≡ b
memcmp-eq [] [] l h = refl
memcmp-eq [] (y ∷ b) l h = absurd (omega arith)
memcmp-eq (x ∷ a) [] l h = absurd (omega arith)
memcmp-eq (x ∷ a) (y ∷ b) l h = ground (arith, memcmp-eq a b)

memcmp_refl : (a : Word) → memcmp a a (length a) ≡ Ordering.eq
memcmp_refl [] = refl
memcmp_refl (x ∷ a) = ground (arith, memcmp_refl a)

pub same_word_sound : (k t : Word) → same_word k t ≡ true → k ≡ t
unfolding same_word
same_word_sound k t h = ground (arith, memcmp-eq t k)

pub same_word_refl : (t : Word) → same_word t t ≡ true
unfolding same_word
same_word_refl t = ground (arith, memcmp_refl t)

if_same : (b : Bool) (n : ℕ) → (if b then n else n) ≡ n
if_same true n = refl
if_same false n = refl

module _ {ℓ} {D : Type ℓ} where
  pub has_key_sound : (hn : HashNode D) (t : Word) → has_key hn t ≡ true → hn.key ≡ some t
  unfolding has_key
  has_key_sound hn t h = elim (Option-cases hn.key) [
    | inl e ↦ ground arith
    | inr (k, e) ↦ ground (arith, same_word_sound k t)
  ]

  unfoldable pub in_bin : HashNode D → ℕ → Bool
  in_bin hn i = elim hn.key [ none ↦ false | some key ↦ hash key == i ]

  -- The chain that bin `i` has to hold: the nodes whose key hashes to `i`, the newest first.
  unfoldable pub chain : ℕ → List (HashNode D) → List ℕ
  unfolding in_bin
  chain i [] = []
  chain i (hn ∷ older) = if in_bin hn i then length older ∷ chain i older else chain i older

  -- The numbers of the nodes in the order of their insertion.
  unfoldable pub ids : List (HashNode D) → List ℕ
  ids [] = []
  ids (hn ∷ older) = ids older ++ length older ∷ []

  unfoldable pub newest : List (HashNode D) → Option ℕ
  newest [] = none
  newest (hn ∷ older) = some (length older)

  -- The node of a word, by a look at every node.
  unfoldable pub find_key : List (HashNode D) → Word → Option ℕ
  find_key [] t = none
  find_key (hn ∷ older) t = if has_key hn t then some (length older) else find_key older t

  -- No two nodes hold the same word.
  abbrev pub Distinct : List (HashNode D) → Type 0
  Distinct [] = Unit
  Distinct (hn ∷ older) =
      ((t : Word) → has_key hn t ≡ true → find_key older t ≡ none) × Distinct older

  -- The table and its list stand for the nodes.
  pub record IsTable (wh : WordHash D) : Type 0 where
    pub normal : wh.type ≡ wh_normal
    pub chains : (i : ℕ) → wh.bin i ≡ chain i wh.store
    pub listed : wh.iter_head ≡ ids wh.store
    pub tail : wh.iter_tail ≡ newest wh.store
    pub distinct : Distinct wh.store

  pub wordhash_init-IsTable : (n : ℕ) → IsTable (wordhash_init {D = D} wh_normal n)
  unfolding wordhash_init chain ids newest
  wordhash_init-IsTable n = record {
    normal = refl;
    chains = λ i. refl;
    listed = refl;
    tail = refl;
    distinct = tt;
  }

  find_in-chain :
      (store older : List (HashNode D)) (t : Word)
      → ((n : ℕ) → n < length older → deref store n ≡ deref older n)
      → find_in store (chain (hash t) older) t ≡ find_key older t
  unfolding find_in chain find_key in_bin deref
  find_in-chain store [] t h = refl
  find_in-chain store (hn ∷ older) t h = ground (
    arith,
    find_in-chain store older t (λ n lt. ground (arith, h n)),
    h (length older),
    has_key_sound hn t,
  )

  -- A search, with or without the index, finds the node that holds the word, or none if none does.
  pub wordhash_search-find_key :
      (wh : WordHash D) (t : Word)
      → IsTable wh
      → (wordhash_search wh t (hash t) ≡ find_key wh.store t)
        × (wordhash_search wh t 0 ≡ find_key wh.store t)
  unfolding wordhash_search
  wordhash_search-find_key wh t v =
      let found = find_in-chain wh.store wh.store t (λ n _. refl) in
      (rw (if_same (hash t == 0) (hash t), v.chains (hash t)) found, rw (v.chains (hash t)) found)
