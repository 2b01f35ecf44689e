-- ===== src/WordHash/Iterate.antt =====
-- `wordhash_first` and `wordhash_next` of bogofilter/src/wordhash.c visit every node once, in order.
use bogofilter.Prelude.{
  All, All-append, List, Option, [], ap, append_assoc, arith, length, map, none, refl, some, subst,
  suc, sym, zero, ℕ, ◌++◌, ◌+◌, ◌<◌, ◌∙◌, ◌∷◌, ◌≡◌, ◌≢◌,
}
use bogofilter.WordHash.{
  wh_normal, HashNode, WordHash, Item, node_at, iter_next, wordhash_first, wordhash_next,
}
use bogofilter.WordHash.Bins.{ids, IsTable}
use bogofilter.WordHash.Insert.{ids-lt}

-- No number stands twice in the list.
abbrev pub AllDiff : List ℕ → Type 0
AllDiff [] = Unit
AllDiff (n ∷ ns) = All (λ m. n ≢ m) ns × AllDiff ns

AllDiff-split :
    (pre : List ℕ) (n : ℕ) (post : List ℕ) → AllDiff (pre ++ n ∷ post) → All (λ m. m ≢ n) pre
AllDiff-split [] n post h = tt
AllDiff-split (m ∷ pre) n post (h, hs) = (apart pre h, AllDiff-split pre n post hs)
  where
    apart : (pre : List ℕ) → All (λ k. m ≢ k) (pre ++ n ∷ post) → m ≢ n
    apart [] h = h.0
    apart (k ∷ pre) h = apart pre h.1

abbrev pub first_of_list : List ℕ → Option ℕ
first_of_list [] = none
first_of_list (n ∷ _) = some n

iter_next_lem :
    (pre : List ℕ) (n : ℕ) (post : List ℕ)
    → All (λ m. m ≢ n) pre
    → iter_next n (pre ++ n ∷ post) ≡ first_of_list post
unfolding iter_next
iter_next_lem [] n [] h = ground arith
iter_next_lem [] n (m ∷ post) h = ground arith
iter_next_lem (k ∷ pre) n post (h, hs) = ground (arith, iter_next_lem pre n post hs)

AllDiff-concat : (ns : List ℕ) (n : ℕ) → AllDiff ns → All (λ m. m < n) ns → AllDiff (ns ++ n ∷ [])
AllDiff-concat [] n d h = (tt, tt)
AllDiff-concat (m ∷ ns) n (a, d) (lt, h) =
    (All-append (λ k. m ≢ k) ns (n ∷ []) a (omega arith, tt), AllDiff-concat ns n d h)

module _ {ℓ} {D : Type ℓ} where
  -- `for (node = wordhash_first(wh); node != NULL; node = wordhash_next(wh))`: what is visited. The
  -- fuel is enough for the nodes of a list and for the `count` entries of an array.
  pub visit : ℕ → WordHash D → Option Item → List Item
  visit zero wh i = []
  visit (suc fuel) wh none = []
  visit (suc fuel) wh (some i) = let r = wordhash_next wh in i ∷ visit fuel r.0 r.1

  unfoldable pub for_each : WordHash D → List Item
  unfolding visit
  for_each wh = let r = wordhash_first wh in visit (suc (length wh.iter_head + wh.count)) r.0 r.1

  next_some :
      (wh : WordHash D) (n m : ℕ)
      → wh.type ≡ wh_normal
      → wh.iter_ptr ≡ some n
      → iter_next n wh.iter_head ≡ some m
      → wordhash_next wh ≡ (record wh { iter_ptr = some m }, some (node_at m))
  unfolding wordhash_next
  next_some wh n m e p h = ground arith

  next_none :
      (wh : WordHash D) (n : ℕ)
      → wh.type ≡ wh_normal
      → wh.iter_ptr ≡ some n
      → iter_next n wh.iter_head ≡ none
      → wordhash_next wh ≡ (record wh { iter_ptr = none }, none)
  unfolding wordhash_next
  next_none wh n e p h = ground arith

  visit_suffix :
      (wh : WordHash D) (fuel : ℕ) (pre : List ℕ) (n : ℕ) (post : List ℕ)
      → wh.type ≡ wh_normal
      → AllDiff wh.iter_head
      → wh.iter_head ≡ pre ++ n ∷ post
      → wh.iter_ptr ≡ some n
      → length post < fuel
      → visit (suc fuel) wh (some (node_at n)) ≡ map node_at (n ∷ post)
  unfolding visit
  visit_suffix wh zero pre n post e d split p lt = absurd (omega arith)
  visit_suffix wh (suc fuel) pre n [] e d split p lt =
      let apart = AllDiff-split pre n [] (subst AllDiff split d) in
      rw (next_none wh n e p (ap (iter_next n) split ∙ iter_next_lem pre n [] apart))
  visit_suffix wh (suc fuel) pre n (m ∷ post) e d split p lt =
      let apart = AllDiff-split pre n (m ∷ post) (subst AllDiff split d) in
      let next =
        next_some wh n m e p (ap (iter_next n) split ∙ iter_next_lem pre n (m ∷ post) apart) in
      ap (λ (r : WordHash D × Option Item). node_at n ∷ visit (suc fuel) r.0 r.1) next
      ∙ (ap (◌∷◌ (node_at n)) (
          visit_suffix (record wh { iter_ptr = some m }) fuel (pre ++ n ∷ []) m post e d
            (split ∙ sym (append_assoc pre (n ∷ []) (m ∷ post))) refl (omega arith)))

  first_nil :
      (wh : WordHash D)
      → wh.type ≡ wh_normal
      → wh.iter_head ≡ []
      → wordhash_first wh ≡ (record wh { iter_ptr = none }, none)
  unfolding wordhash_first
  first_nil wh e h = ground arith

  first_cons :
      (wh : WordHash D) (n : ℕ) (ns : List ℕ)
      → wh.type ≡ wh_normal
      → wh.iter_head ≡ n ∷ ns
      → wordhash_first wh ≡ (record wh { iter_ptr = some n }, some (node_at n))
  unfolding wordhash_first
  first_cons wh n ns e h = ground arith

  for_each-map :
      (wh : WordHash D) (ns : List ℕ)
      → wh.type ≡ wh_normal
      → AllDiff wh.iter_head
      → wh.iter_head ≡ ns
      → for_each wh ≡ map node_at ns
  unfolding for_each
  for_each-map wh [] e d h =
      ap (λ (r : WordHash D × Option Item). visit (suc (length wh.iter_head + wh.count)) r.0 r.1)
        (first_nil wh e h)
  for_each-map wh (n ∷ ns) e d h =
      ap (λ (r : WordHash D × Option Item). visit (suc (length wh.iter_head + wh.count)) r.0 r.1)
        (first_cons wh n ns e h)
      ∙ visit_suffix (record wh { iter_ptr = some n }) (length wh.iter_head + wh.count) [] n ns e d
          h refl (omega (arith, ap length h))

  ids-AllDiff : (store : List (HashNode D)) → AllDiff (ids store)
  unfolding ids
  ids-AllDiff [] = tt
  ids-AllDiff (hn ∷ older) =
      AllDiff-concat (ids older) (length older) (ids-AllDiff older)
        (ids-lt (length older) older (omega arith))

  -- In any table of words, the loop that `wordhash_first` starts and `wordhash_next` goes on with
  -- visits every node exactly once, in the order of insertion, and then ends.
  pub for_each-ids : (wh : WordHash D) → IsTable wh → for_each wh ≡ map node_at (ids wh.store)
  for_each-ids wh v =
      for_each-map wh (ids wh.store) v.normal (subst AllDiff (sym v.listed) (ids-AllDiff wh.store))
        v.listed
