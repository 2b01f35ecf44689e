-- ===== src/WordHash/Counts.antt =====
-- The operations of bogofilter/src/wordhash.c on the data of a word, `wordprop_t` of
-- bogofilter/src/common.h: the sum of two tables, and the counts added to every word.
pub mod Add
pub mod Total
use bogofilter.Prelude.{
  Bool, List, [], false, if◌then◌else◌, none, some, ℕ, ◌%◌, ◌+◌, ◌==◌, ◌^◌, ◌∷◌,
}
use bogofilter.WordHash.View.{data_at, set_data}
use bogofilter.WordHash.Iterate.{for_each}
use bogofilter.WordHash.{
  WordCnts, no_cnts, HashNode, WordHash, Item, node_at, cnts_at, props_at, deref, wordhash_insert,
}

-- The probability is of the type `P` of doubles, which the table only stores.
pub record WordProp (P : Type 0) : Type 0 where
  pub cnts : WordCnts
  pub prob : P
  pub freq : ℕ
  pub used : Bool

module _ {P : Type 0} (zero_prob : P) where
  -- `wordprop_init`
  unfoldable pub wordprop_init : WordProp P
  wordprop_init = record { cnts = no_cnts; prob = zero_prob; freq = 0; used = false }

-- The counts are `u_int32_t`; the sums of `int freq` stay below 2 ^ 31 for fewer messages than that.
unfoldable pub add_prop : {P : Type 0} → WordProp P → WordProp P → WordProp P
add_prop d p = record d {
  freq = d.freq + p.freq;
  cnts = record (d.cnts) {
    good = (d.cnts.good + p.cnts.good) % 2 ^ 32;
    bad = (d.cnts.bad + p.cnts.bad) % 2 ^ 32;
  };
}

-- `d->freq += p->freq` and the two sums of counts, where `wordhash_insert` returned `d`.
unfoldable pub add_through :
    {P : Type 0} → WordHash (WordProp P) × Item → WordProp P → WordHash (WordProp P)
unfolding data_at set_data add_prop
add_through (wh, node_at n) p = elim (data_at wh.store n) [
  | none ↦ wh
  | some d ↦ set_data wh n (add_prop d p)
]
add_through (wh, cnts_at n) p = wh
add_through (wh, props_at n) p = wh

module _ {P : Type 0} (zero_prob : P) where
  -- The body of the loop of `wordhash_add`, for one node of the source.
  unfoldable pub add_word : WordHash (WordProp P) → HashNode (WordProp P) → WordHash (WordProp P)
  unfolding add_through wordprop_init
  add_word dest s = elim s.key [
    | none ↦ dest
    | some key ↦ add_through (wordhash_insert dest key (wordprop_init zero_prob)) s.payload
  ]

  pub add_items :
      List (HashNode (WordProp P)) → WordHash (WordProp P) → List Item → WordHash (WordProp P)
  unfolding add_word deref
  add_items store dest [] = dest
  add_items store dest (i ∷ is) =
      add_items store
        (elim i [
          | node_at n ↦ elim (deref store n) [ none ↦ dest | some s ↦ add_word dest s ]
          | _ ↦ dest
        ])
        is

  -- The count of `dest` is raised before the loop, which raises it again for each new word.
  unfoldable pub wordhash_add :
      WordHash (WordProp P) → WordHash (WordProp P) → WordHash (WordProp P)
  unfolding add_items for_each
  wordhash_add dest src =
      let count = (dest.count + src.count) % 2 ^ 32 in
      let dest' = add_items src.store (record dest { count = count }) (for_each src) in
      record dest' { size = count }

  set_counts_items : ℕ → ℕ → WordHash (WordProp P) → List Item → WordHash (WordProp P)
  unfolding data_at set_data
  set_counts_items good bad wh [] = wh
  set_counts_items good bad wh (i ∷ is) =
      let bump = λ (c : WordCnts). record c {
        good = (c.good + good) % 2 ^ 32;
        bad = (c.bad + bad) % 2 ^ 32;
      } in
      set_counts_items good bad
        (elim i [
          | node_at n ↦ elim (data_at wh.store n) [
            | none ↦ wh
            | some p ↦ set_data wh n (record p { cnts = bump p.cnts })
          ]
          | cnts_at k ↦ record wh { cnts = λ j. if j == k then bump (wh.cnts k) else wh.cnts j }
          | _ ↦ wh
        ])
        is

  -- The counts that are added are not negative.
  unfoldable pub wordhash_set_counts : WordHash (WordProp P) → ℕ → ℕ → WordHash (WordProp P)
  unfolding set_counts_items for_each
  wordhash_set_counts wh good bad = set_counts_items good bad wh (for_each wh)
