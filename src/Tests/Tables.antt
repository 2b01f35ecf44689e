-- ===== src/Tests/Tables.antt =====
-- Words, sorted lists and tables of words.
use bogofilter.Score.Boundary.{Marked, find_scoring_boundary, find_scoring_boundary-Marked}
use bogofilter.Prelude.{
  List, Ordering, [], arith, codes, false, if◌then◌else◌, length, map, max, refl, some, ℕ, ◌+◌, ◌↔◌,
  ◌∷◌, ◌≡◌,
}
use bogofilter.Word.{Word, word_cmp}
use bogofilter.Word.Order.{word_cmp_order, word_cmp-flip, word_cmp_trans, lex, flip}
use bogofilter.ListSort.{listsort}
use bogofilter.ListSort.Merge.{IsOrder}
use bogofilter.ListSort.Sorted.{IsStableSort, listsort-IsStableSort}
use bogofilter.WordHash.{
  add_node, find_in, WordHash, hash, node_at, wordhash_init, wordhash_search,
  wordhash_standard_insert, wh_normal, same_word, no_cnts,
}
use bogofilter.WordHash.Bins.{
  IsTable, wordhash_init-IsTable, wordhash_search-find_key, find_key, ids,
}
use bogofilter.WordHash.View.{view, set_data, set_data_lem}
use bogofilter.WordHash.Insert.{Inserted, standard_insert-Inserted}
use bogofilter.WordHash.Iterate.{for_each, for_each-ids}
use bogofilter.WordHash.Counts.{WordProp, wordhash_add}
use bogofilter.WordHash.Counts.Add.{combine, wordhash_add-combine}
use bogofilter.WordHash.Counts.Total.{wordhash_add-count}

abbrev hello : Word
hello = codes "hello"

abbrev offer : Word
offer = codes "offer"

word_cmp_order_example :
    (word_cmp hello offer ≡ lex hello offer)
    × ((word_cmp hello offer ≡ Ordering.eq) ↔ (hello ≡ offer))
    × (word_cmp offer hello ≡ flip (word_cmp hello offer))
word_cmp_order_example = word_cmp_order hello offer

abbrev word_cmp-IsOrder : IsOrder word_cmp
word_cmp-IsOrder = record { flips = word_cmp-flip; trans = word_cmp_trans }

listsort-IsStableSort_example :
    (z : List Word) × (listsort word_cmp (offer ∷ hello ∷ []) ≡ some z)
    × IsStableSort word_cmp word_cmp-IsOrder (offer ∷ hello ∷ []) z
listsort-IsStableSort_example = listsort-IsStableSort word_cmp word_cmp-IsOrder (offer ∷ hello ∷ [])

-- An empty table, and one with a word.
abbrev prop : WordProp ℕ
prop = record { cnts = no_cnts; prob = 0; freq = 2; used = false }

abbrev empty : WordHash (WordProp ℕ)
empty = wordhash_init wh_normal 0

abbrev one_node : ℕ
one_node = (wordhash_standard_insert empty hello prop).1

empty-IsTable : IsTable empty
empty-IsTable = wordhash_init-IsTable 0

abbrev one : WordHash (WordProp ℕ)
one = (wordhash_standard_insert empty hello prop).0

one-Inserted : Inserted empty hello prop (wordhash_standard_insert empty hello prop)
one-Inserted = standard_insert-Inserted empty hello prop empty-IsTable

one-IsTable : IsTable one
one-IsTable = one-Inserted.table

wordhash_search-find_key_example :
    (wordhash_search one hello (hash hello) ≡ find_key one.store hello)
    × (wordhash_search one hello 0 ≡ find_key one.store hello)
wordhash_search-find_key_example = wordhash_search-find_key one hello one-IsTable

standard_insert-Inserted_example : Inserted one offer prop (wordhash_standard_insert one offer prop)
standard_insert-Inserted_example = standard_insert-Inserted one offer prop one-IsTable

for_each-ids_example : for_each one ≡ map node_at (ids one.store)
for_each-ids_example = for_each-ids one one-IsTable

set_data_lem_example :
    IsTable (set_data one one_node prop)
    × ((u : Word)
        → view (set_data one one_node prop) u
          ≡ (if same_word hello u then some prop else view one u))
set_data_lem_example = set_data_lem one hello one_node prop one-IsTable one-Inserted.at_node

wordhash_add-combine_example :
    IsTable (wordhash_add 0 one one)
    × ((u : Word) → view (wordhash_add 0 one one) u ≡ combine 0 (view one u) (view one u))
wordhash_add-combine_example = wordhash_add-combine 0 one one one-IsTable one-IsTable

wordhash_add-count_example :
    (wordhash_add 0 empty one).count ≡ length (wordhash_add 0 empty one).store + length one.store
unfolding wordhash_init wordhash_standard_insert wordhash_search find_in add_node
wordhash_add-count_example =
    wordhash_add-count 0 empty one empty-IsTable one-IsTable refl refl (omega arith)

find_scoring_boundary-Marked_example :
    Marked word_cmp
      (λ w. w)
      word_cmp-IsOrder
      (hello ∷ offer ∷ hello ∷ [])
      (max 0 (max 1 2))
      offer
      (find_scoring_boundary word_cmp (λ w. w) offer [] 1 2 0 (hello ∷ offer ∷ hello ∷ []))
find_scoring_boundary-Marked_example =
    find_scoring_boundary-Marked word_cmp (λ w. w) word_cmp-IsOrder offer [] 1 2 0
      (hello ∷ offer ∷ hello ∷ [])
