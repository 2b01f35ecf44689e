-- ===== src/WordHash/Insert.antt =====
-- `wordhash_insert` of bogofilter/src/wordhash.c as the operation of a map from words to their data.
use bogofilter.Prelude.{
  All, All-append, Bool-cases, List, Option, Option-cases, [], ap, arith, if◌then◌else◌, inl, inr,
  length, none, refl, some, subst, suc, ℕ, ◌%◌, ◌++◌, ◌+◌, ◌<◌, ◌==◌, ◌^◌, ◌∙◌, ◌∷◌, ◌≡◌, ◌≤◌,
}
use bogofilter.Word.{Word}
use bogofilter.WordHash.{
  hash, add_node, HashNode, WordHash, same_word, has_key, enqueue, link_after,
  wordhash_standard_insert,
}
use bogofilter.WordHash.View.{
  find_key-lt, at_key, data_at, view, find_key-some, find_key-none, view-at_key,
}
use bogofilter.WordHash.Bins.{
  same_word_refl, same_word_sound, in_bin, chain, ids, newest, find_key, IsTable,
  wordhash_search-find_key,
}

link_after_last :
    (n : ℕ) (ns : List ℕ) (hn : ℕ)
    → All (λ m. m < n) ns
    → link_after n hn (ns ++ n ∷ []) ≡ (ns ++ n ∷ []) ++ hn ∷ []
unfolding link_after
link_after_last n [] hn h = ground arith
link_after_last n (m ∷ ns) hn (lt, h) = ground (arith, link_after_last n ns hn h)

enqueue_last :
    (n : ℕ) (ns : List ℕ) (hn : ℕ)
    → All (λ m. m < n) ns
    → enqueue (ns ++ n ∷ []) (some n) hn ≡ (ns ++ n ∷ []) ++ hn ∷ []
unfolding enqueue
enqueue_last n [] hn h = link_after_last n [] hn h
enqueue_last n (m ∷ ns) hn h = link_after_last n (m ∷ ns) hn h

module _ {ℓ} {D : Type ℓ} where
  unfoldable pub or_fresh : Option D → D → D
  or_fresh none d = d
  or_fresh (some e) d = e

  pub ids-lt : (k : ℕ) (store : List (HashNode D)) → length store ≤ k → All (λ m. m < k) (ids store)
  unfolding ids
  ids-lt k [] le = tt
  ids-lt k (hn ∷ older) le =
      All-append (λ m. m < k) (ids older) (length older ∷ []) (ids-lt k older (omega arith))
        (le, tt)

  enqueue-ids :
      (store : List (HashNode D))
      → enqueue (ids store) (newest store) (length store) ≡ ids store ++ length store ∷ []
  unfolding ids newest enqueue
  enqueue-ids [] = refl
  enqueue-ids (hn ∷ older) =
      enqueue_last (length older) (ids older) (suc (length older)) (ids-lt _ older (omega arith))

  has_key_self :
      (t : Word) (d : D) (u : Word)
      → has_key (record { key = some t; payload = d }) u ≡ same_word t u
  unfolding has_key
  has_key_self t d u = refl

  chain_cons :
      (i : ℕ) (t : Word) (d : D) (older : List (HashNode D))
      → chain i (record { key = some t; payload = d } ∷ older)
        ≡ (if i == hash t then length older ∷ chain i older else chain i older)
  unfolding chain in_bin
  chain_cons i t d older = ground arith

  add_node-IsTable :
      (wh : WordHash D) (t : Word) (d : D)
      → IsTable wh
      → find_key wh.store t ≡ none
      → IsTable (add_node wh t d)
  unfolding add_node ids newest
  add_node-IsTable wh t d v e = record {
    normal = v.normal;
    chains = λ i. rw (chain_cons i t d wh.store) (ground (arith, v.chains i, v.chains (hash t)));
    listed = rw (v.listed, v.tail) (enqueue-ids wh.store);
    tail = refl;
    distinct = (
      λ u h.
          subst (λ w. find_key wh.store w ≡ none)
            (same_word_sound t u (rw (has_key_self t d u) at h)) e,
      v.distinct,
    );
  }

  insert_found :
      (wh : WordHash D) (t : Word) (d : D) (n : ℕ)
      → IsTable wh
      → find_key wh.store t ≡ some n
      → wordhash_standard_insert wh t d ≡ (wh, n)
  unfolding wordhash_standard_insert
  insert_found wh t d n v e =
      rw ((wordhash_search-find_key wh t v).0, wordhash_standard_insert)
        (rw (e, wordhash_standard_insert))

  insert_new :
      (wh : WordHash D) (t : Word) (d : D)
      → IsTable wh
      → find_key wh.store t ≡ none
      → wordhash_standard_insert wh t d ≡ (add_node wh t d, length wh.store)
  unfolding wordhash_standard_insert
  insert_new wh t d v e =
      rw ((wordhash_search-find_key wh t v).0, wordhash_standard_insert)
        (rw (e, wordhash_standard_insert))

  at_key_cons :
      (t : Word) (d : D) (older : List (HashNode D)) (u : Word)
      → at_key (record { key = some t; payload = d } ∷ older) u
        ≡ (if same_word t u then some d else at_key older u)
  unfolding at_key has_key
  at_key_cons t d older u = refl

  data_at-add_node :
      (wh : WordHash D) (t : Word) (d : D)
      → data_at (add_node wh t d).store (length wh.store) ≡ some d
  unfolding add_node data_at
  data_at-add_node wh t d = ground arith

  find_key-add_node :
      (wh : WordHash D) (t : Word) (d : D)
      → find_key (add_node wh t d).store t ≡ some (length wh.store)
  unfolding add_node find_key has_key
  find_key-add_node wh t d = ground (arith, same_word_refl t)

  -- The map after an insertion: the word has its old data, or the fresh ones if it was not there.
  pub record Inserted (wh : WordHash D) (t : Word) (d : D) (r : WordHash D × ℕ) : Type ℓ where
    pub table : IsTable r.0
    pub returned : data_at r.0.store r.1 ≡ some (or_fresh (view wh t) d)
    pub maps :
        (u : Word)
        → view r.0 u ≡ (if same_word t u then some (or_fresh (view wh t) d) else view wh u)
    pub found : r.1 < length r.0.store
    pub at_node : find_key r.0.store t ≡ some r.1
    pub counts : r.0.count ≡ elim (view wh t) [ none ↦ (wh.count + 1) % 2 ^ 32 | some _ ↦ wh.count ]
    pub nodes :
        length r.0.store
        ≡ elim (view wh t) [ none ↦ length wh.store + 1 | some _ ↦ length wh.store ]

  pub standard_insert-Inserted :
      (wh : WordHash D) (t : Word) (d : D)
      → IsTable wh
      → Inserted wh t d (wordhash_standard_insert wh t d)
  unfolding or_fresh add_node
  standard_insert-Inserted wh t d v = elim (Option-cases (find_key wh.store t)) [
    | inr (n, e) ↦
        let (p, q) = find_key-some wh.store t n e in
        let at = view-at_key wh t v in
        rw (insert_found wh t d n v e) (record {
          table = v;
          returned = ground arith;
          maps = λ u. elim (Bool-cases (same_word t u)) [
            | inl h ↦ let same = ap (view wh) (same_word_sound t u h) in rw h (ground arith)
            | inr h ↦ rw h
          ];
          found = find_key-lt wh.store t n e;
          at_node = e;
          counts = ground arith;
          nodes = ground arith;
        })
    | inl e ↦
        let at : view wh t ≡ none = view-at_key wh t v ∙ find_key-none wh.store t e in
        let table' = add_node-IsTable wh t d v e in
        rw (insert_new wh t d v e) (record {
          table = table';
          returned = rw at (data_at-add_node wh t d);
          maps = λ u.
              rw (at, view-at_key (add_node wh t d) u table', view-at_key wh u v)
                (at_key_cons t d wh.store u);
          found = omega arith;
          at_node = find_key-add_node wh t d;
          counts = rw at;
          nodes = rw at (omega arith);
        })
  ]
