-- ===== src/WordHash.antt =====
-- bogofilter/src/wordhash.c: the hash table of a message's words, with its list in insertion order.
-- A node is known by its number, the count of nodes that were allocated before it; `store` holds
-- the nodes, the newest first. A bin is the list of the numbers of its chain, and `iter_head` the
-- list that the `iter_next` links spell from the head on. The data that a caller keeps in a node
-- is a parameter, as it is a `void *` in the source.
pub mod Bins
pub mod View
pub mod Insert
pub mod Iterate
pub mod Counts
use bogofilter.Prelude.{
  Bool, List, Option, Ordering, [], false, if◌then◌else◌, length, ltb, none, some, true, ℕ, ◌%◌,
  ◌&&◌, ◌*◌, ◌+◌, ◌==◌, ◌^◌, ◌∷◌,
}
use bogofilter.Word.{Word, memcmp}

abbrev pub n_hash : ℕ
n_hash = 29989

abbrev pub mult : ℕ
mult = 31

abbrev pub wh_init : ℕ
wh_init = 64

abbrev pub wh_incr : ℕ
wh_incr = 64

pub data WhType : Type 0 where
  wh_normal wh_props wh_cnts : WhType

pub record WordCnts : Type 0 where
  pub good : ℕ
  pub bad : ℕ
  pub msgs_good : ℕ
  pub msgs_bad : ℕ

abbrev pub no_cnts : WordCnts
no_cnts = record { good = 0; bad = 0; msgs_good = 0; msgs_bad = 0 }

-- A freed key is `none`.
pub record HashNode {ℓ} (D : Type ℓ) : Type ℓ where
  pub key : Option Word
  pub payload : D

pub record WordHash {ℓ} (D : Type ℓ) : Type ℓ where
  pub type : WhType
  pub freeable : Bool
  pub index : ℕ
  pub count : ℕ
  pub size : ℕ
  pub bin : ℕ → List ℕ
  pub store : List (HashNode D)
  pub iter_ptr : Option ℕ
  pub iter_head : List ℕ
  pub iter_tail : Option ℕ
  pub cnts : ℕ → WordCnts

-- What the iteration and the insertion point to: a node, or an entry of one of the two arrays.
pub data Item : Type 0 where
  node_at : ℕ → Item
  cnts_at : ℕ → Item
  props_at : ℕ → Item

-- `wordhash_init`: `xcalloc` clears the memory.
unfoldable pub wordhash_init {ℓ} : {D : Type ℓ} → WhType → ℕ → WordHash D
wordhash_init type count = record {
  type = type;
  freeable = elim type [ wh_props ↦ true | _ ↦ false ];
  index = 0;
  count = 0;
  size = elim type [ wh_normal ↦ 0 | _ ↦ if count == 0 then wh_init else count ];
  bin = λ _. [];
  store = [];
  iter_ptr = none;
  iter_head = [];
  iter_tail = none;
  cnts = λ _. no_cnts;
}

-- The loop of `hash`, in `unsigned int`.
pub hash_from : ℕ → Word → ℕ
hash_from h [] = h
hash_from h (c ∷ t) = hash_from ((mult * h + c) % 2 ^ 32) t

unfoldable pub hash : Word → ℕ
unfolding hash_from
hash t = hash_from 0 t % n_hash

-- The test of the search: the same length, and the same bytes.
unfoldable pub same_word : Word → Word → Bool
same_word key t =
    (length key == length t) && elim (memcmp t key (length t)) [ Ordering.eq ↦ true | _ ↦ false ]

unfoldable pub has_key {ℓ} : {D : Type ℓ} → HashNode D → Word → Bool
unfolding same_word
has_key hn t = elim hn.key [ none ↦ false | some key ↦ same_word key t ]

-- `tail->iter_next = hn` and `hn->iter_next = NULL`, on the list that the links spell.
pub link_after : ℕ → ℕ → List ℕ → List ℕ
link_after tail hn [] = []
link_after tail hn (n ∷ ns) = if n == tail then n ∷ hn ∷ [] else n ∷ link_after tail hn ns

-- `n->iter_next`, on the list that the links spell.
pub iter_next : ℕ → List ℕ → Option ℕ
iter_next n [] = none
iter_next n (m ∷ ms) =
    let later = iter_next n ms in
    if m == n then elim ms [ [] ↦ none | next ∷ _ ↦ some next ] else later

pub enqueue : List ℕ → Option ℕ → ℕ → List ℕ
unfolding link_after
enqueue [] tail hn = hn ∷ []
enqueue (n ∷ ns) none hn = n ∷ ns
enqueue (n ∷ ns) (some tail) hn = link_after tail hn (n ∷ ns)

module _ {ℓ} {D : Type ℓ} where
  -- The node that a number stands for.
  pub deref : List (HashNode D) → ℕ → Option (HashNode D)
  deref [] n = none
  deref (hn ∷ older) n = if n == length older then some hn else deref older n

  -- The walk along a chain.
  unfoldable pub find_in : List (HashNode D) → List ℕ → Word → Option ℕ
  unfolding deref has_key
  find_in store [] t = none
  find_in store (n ∷ chain) t = elim (deref store n) [
    | none ↦ none
    | some hn ↦ if has_key hn t then some n else find_in store chain t
  ]

  unfoldable pub wordhash_search : WordHash D → Word → ℕ → Option ℕ
  wordhash_search wh t idx =
      let idx' = if idx == 0 then hash t else idx in find_in wh.store (wh.bin idx') t

  -- A word that is not there: a new node in front of its chain and at the end of the list.
  unfoldable pub add_node : WordHash D → Word → D → WordHash D
  add_node wh t fresh =
      let idx = hash t in
      let hn = length wh.store in
      record wh {
        store = record { key = some t; payload = fresh } ∷ wh.store;
        bin = λ i. if i == idx then hn ∷ wh.bin idx else wh.bin i;
        iter_head = enqueue wh.iter_head wh.iter_tail hn;
        iter_tail = some hn;
        count = (wh.count + 1) % 2 ^ 32;
        size = (wh.size + 1) % 2 ^ 32;
      }

  -- The new state and the node. `fresh` is what the initializer leaves, or zeros.
  unfoldable pub wordhash_standard_insert : WordHash D → Word → D → WordHash D × ℕ
  wordhash_standard_insert wh t fresh = elim (wordhash_search wh t (hash t)) [
    | some hn ↦ (wh, hn)
    | none ↦ (add_node wh t fresh, length wh.store)
  ]

  unfoldable pub wordhash_counts_insert : WordHash D → WordHash D × ℕ
  wordhash_counts_insert wh =
      let size' = if wh.count == wh.size then (wh.size + wh_incr) % 2 ^ 32 else wh.size in
      (record wh { size = size'; index = wh.count; count = (wh.count + 1) % 2 ^ 32 }, wh.count)

  unfoldable pub wordhash_insert : WordHash D → Word → D → WordHash D × Item
  unfolding wordhash_standard_insert wordhash_counts_insert
  wordhash_insert wh t fresh = elim wh.type [
    | wh_cnts ↦ let (wh', i) = wordhash_counts_insert wh in (wh', cnts_at i)
    | _ ↦ let (wh', hn) = wordhash_standard_insert wh t fresh in (wh', node_at hn)
  ]

  unfoldable pub wordhash_count : WordHash D → ℕ
  wordhash_count wh = wh.size

  unfoldable pub wordhash_first : WordHash D → WordHash D × Option Item
  wordhash_first wh = elim wh.type [
    | wh_normal ↦ elim wh.iter_head [
      | [] ↦ (record wh { iter_ptr = none }, none)
      | n ∷ _ ↦ (record wh { iter_ptr = some n }, some (node_at n))
    ]
    | wh_cnts ↦ (record wh { index = 0 }, some (cnts_at 0))
    | wh_props ↦ (record wh { index = 0 }, some (props_at 0))
  ]

  array_next : WordHash D → (ℕ → Item) → WordHash D × Option Item
  array_next wh at =
      let i = (wh.index + 1) % 2 ^ 32 in
      (record wh { index = i }, if ltb i wh.count then some (at i) else none)

  unfoldable pub wordhash_next : WordHash D → WordHash D × Option Item
  unfolding iter_next array_next
  wordhash_next wh = elim wh.type [
    | wh_normal ↦ elim wh.iter_ptr [
      | none ↦ (wh, none)
      | some n ↦ elim (iter_next n wh.iter_head) [
        | none ↦ (record wh { iter_ptr = none }, none)
        | some next ↦ (record wh { iter_ptr = some next }, some (node_at next))
      ]
    ]
    | wh_cnts ↦ array_next wh cnts_at
    | wh_props ↦ array_next wh props_at
  ]
