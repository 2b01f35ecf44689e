-- ===== src/WordHash/Counts/Total.antt =====
-- The number of words that `wordhash_add` of bogofilter/src/wordhash.c leaves in `count`.
use bogofilter.Prelude.{
  List, Option-cases, [], ap, arith, inl, inr, length, refl, ◌%◌, ◌+◌, ◌<◌, ◌^◌, ◌∙◌, ◌∷◌, ◌≡◌, ◌≤◌,
}
use bogofilter.WordHash.Bins.{Distinct, IsTable}
use bogofilter.WordHash.Insert.{or_fresh, standard_insert-Inserted}
use bogofilter.WordHash.Iterate.{for_each, for_each-ids}
use bogofilter.WordHash.View.{view}
use bogofilter.WordHash.{HashNode, WordHash, wordhash_standard_insert}
use bogofilter.WordHash.Counts.{
  WordProp, wordprop_init, add_prop, add_word, add_items, wordhash_add,
}
use bogofilter.WordHash.Counts.Add.{
  add_word_step, set_data_sizes, add_word-none, add_all, add_all_lem, add_items-ids, with_count,
}

module _ {P : Type 0} (zero_prob : P) where
  add_word_count :
      (dest : WordHash (WordProp P)) (s : HashNode (WordProp P))
      → IsTable dest
      → dest.count + 1 < 2 ^ 32
      → ((add_word zero_prob dest s).count + length dest.store
          ≡ dest.count + length (add_word zero_prob dest s).store)
        × ((add_word zero_prob dest s).count ≤ dest.count + 1)
  add_word_count dest s v small = elim (Option-cases s.key) [
    | inl e ↦ rw (add_word-none zero_prob dest s e) (refl, omega arith)
    | inr (t, e) ↦
        let fresh = wordprop_init zero_prob in
        let ins = standard_insert-Inserted dest t fresh v in
        let r = wordhash_standard_insert dest t fresh in
        let same =
          set_data_sizes zero_prob r.0 r.1 (add_prop (or_fresh (view dest t) fresh) s.payload) in
        rw (add_word_step zero_prob dest s t v e) (
          ground (arith, ins.counts, ins.nodes, same.0, same.1),
          ground (arith, ins.counts, ins.nodes, same.0, same.1),
        )
  ]

  add_all_count :
      (dest : WordHash (WordProp P)) (store : List (HashNode (WordProp P)))
      → IsTable dest
      → Distinct store
      → dest.count + length store < 2 ^ 32
      → ((add_all zero_prob dest store).count + length dest.store
          ≡ dest.count + length (add_all zero_prob dest store).store)
        × ((add_all zero_prob dest store).count ≤ dest.count + length store)
  unfolding add_all
  add_all_count dest [] v d small = (refl, omega arith)
  add_all_count dest (s ∷ older) v (apart, d) small =
      let (sum, le) = add_all_count dest older v d (omega arith) in
      let step =
        add_word_count (add_all zero_prob dest older) s (add_all_lem zero_prob dest older v d).0
          (omega arith) in
      (omega (arith, sum, step.0), omega (arith, le, step.1))

  -- From two tables whose counts are the numbers of their words, `wordhash_add` leaves a count that
  -- is too large by the number of words of the source: these are counted once before the loop, and
  -- those that are new are counted again by the insertions.
  pub wordhash_add-count :
      (dest src : WordHash (WordProp P))
      → IsTable dest
      → IsTable src
      → dest.count ≡ length dest.store
      → src.count ≡ length src.store
      → dest.count + src.count + src.count < 2 ^ 32
      → (wordhash_add zero_prob dest src).count
        ≡ length (wordhash_add zero_prob dest src).store + length src.store
  unfolding wordhash_add
  wordhash_add-count dest src v w c d small =
      let start = record dest { count = (dest.count + src.count) % 2 ^ 32 } in
      let run : add_items zero_prob src.store start (for_each src)
          ≡ add_all zero_prob start src.store =
        ap (add_items zero_prob src.store start) (for_each-ids src w)
        ∙ add_items-ids zero_prob src.store src.store start (λ n _. refl) in
      let (sum, _) =
        add_all_count start src.store (with_count zero_prob dest _ v) w.distinct (omega arith) in
      rw run (omega (arith, sum))
