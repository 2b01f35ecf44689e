-- ===== src/WordHash/Counts/Add.antt =====
-- What `wordhash_add` of bogofilter/src/wordhash.c leaves in the table that it adds to.
use bogofilter.Prelude.{
  Bool-cases, List, Option, Option-cases, [], ap, arith, false, if◌then◌else◌, inl, inr, length,
  map, none, refl, some, sym, ℕ, ◌%◌, ◌++◌, ◌+◌, ◌<◌, ◌^◌, ◌∙◌, ◌∷◌, ◌≡◌,
}
use mathlib.Core.List.{map-append}
use mathlib.Core.Path.{ap₂}
use bogofilter.Word.{Word}
use bogofilter.WordHash.Bins.{same_word_sound, same_word_refl, IsTable, ids, Distinct}
use bogofilter.WordHash.Insert.{or_fresh, standard_insert-Inserted}
use bogofilter.WordHash.Iterate.{for_each, for_each-ids}
use bogofilter.WordHash.View.{
  length-write, data_at, set_data, set_data_lem, view, at_key, view-at_key, find_key-none,
}
use bogofilter.WordHash.{
  no_cnts, wordhash_search, HashNode, WordHash, Item, node_at, has_key, same_word, wh_normal, deref,
  wordhash_insert, wordhash_standard_insert,
}
use bogofilter.WordHash.Counts.{
  add_through, WordProp, wordprop_init, add_prop, add_word, add_items, wordhash_add,
}

zero_plus : (n : ℕ) → 0 + n ≡ n
zero_plus n = omega arith

module _ {P : Type 0} (zero_prob : P) where
  pub insert_normal :
      {D : Type 0} (wh : WordHash D) (t : Word) (d : D)
      → wh.type ≡ wh_normal
      → wordhash_insert wh t d
        ≡ ((wordhash_standard_insert wh t d).0, node_at (wordhash_standard_insert wh t d).1)
  unfolding wordhash_insert
  insert_normal wh t d e = ground arith

  through :
      (wh : WordHash (WordProp P)) (n : ℕ) (d p : WordProp P)
      → data_at wh.store n ≡ some d
      → add_through (wh, node_at n) p ≡ set_data wh n (add_prop d p)
  unfolding add_through
  through wh n d p e = rw (e, add_through)

  deref_newest :
      (s : HashNode (WordProp P)) (older : List (HashNode (WordProp P)))
      → deref (s ∷ older) (length older) ≡ some s
  unfolding deref
  deref_newest s older = ground arith

  deref_older :
      (s : HashNode (WordProp P)) (older : List (HashNode (WordProp P))) (n : ℕ)
      → n < length older
      → deref (s ∷ older) n ≡ deref older n
  unfolding deref
  deref_older s older n lt = ground arith

  -- The data of a word after what the source holds for it was added.
  abbrev pub combine : Option (WordProp P) → Option (WordProp P) → Option (WordProp P)
  combine o none = o
  combine none (some p) = some (record {
    cnts = record no_cnts { good = p.cnts.good % 2 ^ 32; bad = p.cnts.bad % 2 ^ 32 };
    prob = zero_prob;
    freq = p.freq;
    used = false;
  })
  combine (some d) (some p) = some (record {
    cnts = record (d.cnts) {
      good = (d.cnts.good + p.cnts.good) % 2 ^ 32;
      bad = (d.cnts.bad + p.cnts.bad) % 2 ^ 32;
    };
    prob = d.prob;
    freq = d.freq + p.freq;
    used = d.used;
  })

  combine_lem :
      (o : Option (WordProp P)) (p : WordProp P)
      → some (add_prop (or_fresh o (wordprop_init zero_prob)) p) ≡ combine o (some p)
  unfolding add_prop wordprop_init or_fresh
  combine_lem none p = λ i. some (record {
    cnts = record no_cnts {
      good = zero_plus p.cnts.good i % 2 ^ 32;
      bad = zero_plus p.cnts.bad i % 2 ^ 32;
    };
    prob = zero_prob;
    freq = zero_plus p.freq i;
    used = false;
  })
  combine_lem (some d) p = refl

  pub add_word_step :
      (dest : WordHash (WordProp P)) (s : HashNode (WordProp P)) (t : Word)
      → IsTable dest
      → s.key ≡ some t
      → let r = wordhash_standard_insert dest t (wordprop_init zero_prob) in
        add_word zero_prob dest s
        ≡ set_data r.0 r.1 (add_prop (or_fresh (view dest t) (wordprop_init zero_prob)) s.payload)
  unfolding add_word
  add_word_step dest s t v e =
      let r = wordhash_standard_insert dest t (wordprop_init zero_prob) in
      let ins = standard_insert-Inserted dest t (wordprop_init zero_prob) v in
      rw (e, add_word)
        (ap (λ (x : WordHash (WordProp P) × Item). add_through x s.payload)
            (insert_normal dest t (wordprop_init zero_prob) v.normal)
          ∙ through r.0 r.1 (or_fresh (view dest t) (wordprop_init zero_prob)) s.payload
              ins.returned)

  pub set_data_sizes :
      (wh : WordHash (WordProp P)) (n : ℕ) (d : WordProp P)
      → ((set_data wh n d).count ≡ wh.count) × (length (set_data wh n d).store ≡ length wh.store)
  unfolding set_data
  set_data_sizes wh n d = (refl, length-write wh.store n d)

  add_word_lem :
      (dest : WordHash (WordProp P)) (s : HashNode (WordProp P)) (t : Word)
      → IsTable dest
      → s.key ≡ some t
      → IsTable (add_word zero_prob dest s)
        × ((u : Word)
            → view (add_word zero_prob dest s) u
              ≡ (if same_word t u then combine (view dest t) (some s.payload) else view dest u))
  unfolding add_word
  add_word_lem dest s t v e =
      let r = wordhash_standard_insert dest t (wordprop_init zero_prob) in
      let ins = standard_insert-Inserted dest t (wordprop_init zero_prob) v in
      let d = or_fresh (view dest t) (wordprop_init zero_prob) in
      let (table, maps) = set_data_lem r.0 t r.1 (add_prop d s.payload) ins.table ins.at_node in
      let step = add_word_step dest s t v e in
      let sum = combine_lem (view dest t) s.payload in
      rw step (table, λ u. maps u ∙ ground (arith, ins.maps u, sum))

  pub add_word-none :
      (dest : WordHash (WordProp P)) (s : HashNode (WordProp P))
      → s.key ≡ none
      → add_word zero_prob dest s ≡ dest
  unfolding add_word
  add_word-none dest s e = rw (e, add_word)

  -- The nodes of the source, the oldest first.
  unfoldable pub add_all :
      WordHash (WordProp P) → List (HashNode (WordProp P)) → WordHash (WordProp P)
  add_all dest [] = dest
  add_all dest (s ∷ older) = add_word zero_prob (add_all dest older) s

  add_items-append :
      (store : List (HashNode (WordProp P))) (is js : List Item) (dest : WordHash (WordProp P))
      → add_items zero_prob store dest (is ++ js)
        ≡ add_items zero_prob store (add_items zero_prob store dest is) js
  unfolding add_items
  add_items-append store [] js dest = refl
  add_items-append store (i ∷ is) js dest = add_items-append store is js _

  pub add_items-ids :
      (store older : List (HashNode (WordProp P))) (dest : WordHash (WordProp P))
      → ((n : ℕ) → n < length older → deref store n ≡ deref older n)
      → add_items zero_prob store dest (map node_at (ids older)) ≡ add_all dest older
  unfolding add_all ids add_items
  add_items-ids store [] dest h = refl
  add_items-ids store (s ∷ older) dest h =
      let here : deref store (length older) ≡ some s =
        h (length older) (omega arith) ∙ deref_newest s older in
      let before =
        add_items-ids store older dest (λ n lt. h n (omega arith) ∙ deref_older s older n lt) in
      rw (map-append, add_items-append, before) (rw (here, add_items))

  has_key-some :
      (s : HashNode (WordProp P)) (t u : Word) → s.key ≡ some t → has_key s u ≡ same_word t u
  unfolding has_key
  has_key-some s t u e = ground arith

  has_key-none : (s : HashNode (WordProp P)) (u : Word) → s.key ≡ none → has_key s u ≡ false
  unfolding has_key
  has_key-none s u e = ground arith

  pub add_all_lem :
      (dest : WordHash (WordProp P)) (store : List (HashNode (WordProp P)))
      → IsTable dest
      → Distinct store
      → IsTable (add_all dest store)
        × ((u : Word) → view (add_all dest store) u ≡ combine (view dest u) (at_key store u))
  unfolding add_all at_key
  add_all_lem dest [] v d = (v, λ u. refl)
  add_all_lem dest (s ∷ older) v (apart, d) =
      let (table, maps) = add_all_lem dest older v d in
      elim (Option-cases s.key) [
        | inl e ↦
            rw (add_word-none (add_all dest older) s e)
              (table, λ u. ground (arith, maps u, has_key-none s u e))
        | inr (t, e) ↦
            let (table', maps') = add_word_lem (add_all dest older) s t table e in
            let gone : at_key older t ≡ none =
              find_key-none older t (apart t (has_key-some s t t e ∙ same_word_refl t)) in
            let was : view (add_all dest older) t ≡ view dest t = rw gone at (maps t) in
            (
              table',
              λ u. elim (Bool-cases (same_word t u)) [
                | inl h ↦
                    let same = ap (view dest) (same_word_sound t u h) in
                    ground (arith, maps' u, has_key-some s t u e)
                | inr h ↦ ground (arith, maps u, maps' u, has_key-some s t u e)
              ],
            )
      ]

  pub with_count :
      (wh : WordHash (WordProp P)) (n : ℕ) → IsTable wh → IsTable (record wh { count = n })
  with_count wh n v = record {
    normal = v.normal;
    chains = v.chains;
    listed = v.listed;
    tail = v.tail;
    distinct = v.distinct;
  }

  with_size : (wh : WordHash (WordProp P)) (n : ℕ) → IsTable wh → IsTable (record wh { size = n })
  with_size wh n v = record {
    normal = v.normal;
    chains = v.chains;
    listed = v.listed;
    tail = v.tail;
    distinct = v.distinct;
  }

  view_count :
      (wh : WordHash (WordProp P)) (n : ℕ) (u : Word) → view (record wh { count = n }) u ≡ view wh u
  unfolding view wordhash_search
  view_count wh n u = refl

  view_size :
      (wh : WordHash (WordProp P)) (n : ℕ) (u : Word) → view (record wh { size = n }) u ≡ view wh u
  unfolding view wordhash_search
  view_size wh n u = refl

  -- `wordhash_add` adds the source's data to the destination's, word by word: a word of the source
  -- gets the sum of the frequencies, which is taken not to overflow, and those of the two counts
  -- modulo 2 ^ 32 (a word that the destination lacks counts from zero there), and every other word
  -- keeps its data. The destination stays a table.
  pub wordhash_add-combine :
      (dest src : WordHash (WordProp P))
      → IsTable dest
      → IsTable src
      → IsTable (wordhash_add zero_prob dest src)
        × ((u : Word)
            → view (wordhash_add zero_prob dest src) u ≡ combine (view dest u) (view src u))
  unfolding wordhash_add
  wordhash_add-combine dest src v w =
      let start = record dest { count = (dest.count + src.count) % 2 ^ 32 } in
      let (table, maps) = add_all_lem start src.store (with_count dest _ v) w.distinct in
      let run : add_items zero_prob src.store start (for_each src) ≡ add_all start src.store =
        ap (add_items zero_prob src.store start) (for_each-ids src w)
        ∙ add_items-ids src.store src.store start (λ n _. refl) in
      rw run (
        with_size (add_all start src.store) start.count table,
        λ u.
            view_size (add_all start src.store) start.count u
            ∙ maps u
            ∙ ap₂ combine (view_count dest start.count u) (sym (view-at_key src u w)),
      )
