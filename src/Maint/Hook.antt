-- ===== src/Maint/Hook.antt =====
-- What `merge_tokens` and `replace_token` of bogofilter/src/maint.c make of a database when the
-- transaction is committed.
use bogofilter.Prelude.{
  All, All-append, Bool, Bool-cases, List, Option, Ordering, [], ap, false, if◌then◌else◌, inl, inr,
  max, none, refl, some, sym, true, ℕ, ◌%◌, ◌++◌, ◌+◌, ◌^◌, ◌∙◌, ◌∷◌, ◌≡◌, ◌≢◌,
}
use bogofilter.Word.{Word, word_cmp}
use bogofilter.Word.Order.{word_cmp_order}
use bogofilter.Datastore.{
  read_retry, read_exit, read_exit, Backend, Settings, Dsv, ReadResult, found, absent, ds_read,
}
use bogofilter.Datastore.RoundTrip.{IsU32}
use bogofilter.Datastore.Healthy.{Healthy}
use bogofilter.Transaction.{
  TaItem, ta_delete_kind, ta_write_kind, ta_add, ta_delete, ta_write, last_value, first_of,
  same_key, item_value, is_zero, ta_commit, ta_read, read_through,
}
use bogofilter.Transaction.Commit.{ta_read-ta_commit}
use bogofilter.Transaction.Cells.{Deletes, Proper, ProperValue, at_date}
use bogofilter.Maint.{merged, merge_tokens}

first_of_assoc : (a b c : Option ReadResult) → first_of (first_of a b) c ≡ first_of a (first_of b c)
first_of_assoc none b c = refl
first_of_assoc (some r) b c = refl

first_of-none : (a : Option ReadResult) → first_of a none ≡ a
first_of-none none = refl
first_of-none (some r) = refl

own : Word → TaItem → Option ReadResult
own u item = if same_key u item.word then some (item_value item) else none

-- The item that was added last is found first.
last_value-append :
    (u : Word) (ta : List TaItem) (item : TaItem)
    → last_value u (ta ++ item ∷ []) ≡ first_of (own u item) (last_value u ta)
unfolding last_value own
last_value-append u [] item = sym (first_of-none (own u item))
last_value-append u (x ∷ ta) item =
    ap (λ r. first_of r (own u x)) (last_value-append u ta item)
    ∙ first_of_assoc (own u item) (last_value u ta) (own u x)

same_key_refl : (w : Word) → same_key w w ≡ true
unfolding same_key
same_key_refl w = ap is_zero ((word_cmp_order w w).1.1 refl)

is_zero-eq : (o : Ordering) → is_zero o ≡ true → o ≡ Ordering.eq
is_zero-eq Ordering.lt h = absurd cc
is_zero-eq Ordering.eq h = refl
is_zero-eq Ordering.gt h = absurd cc

other_key : (u w : Word) → u ≢ w → same_key u w ≡ false
unfolding same_key
other_key u w h = elim (Bool-cases (is_zero (word_cmp u w))) [
  | inl e ↦ absurd (h ((word_cmp_order u w).1.0 (is_zero-eq (word_cmp u w) e)))
  | inr e ↦ e
]

-- A deletion of the old word and a write of the new one.
swapped : Word → Word → Dsv → List TaItem → List TaItem
swapped old new v ta =
    (ta ++ record { kind = ta_delete_kind; word = old; dsvval = none } ∷ [])
    ++ record { kind = ta_write_kind; word = new; dsvval = some v } ∷ []

two_items :
    (s t : Bool) (x y : ReadResult) (r : Option ReadResult)
    → first_of (if s then some x else none) (first_of (if t then some y else none) r)
      ≡ (if s then some x else if t then some y else r)
two_items true t x y r = refl
two_items false true x y r = refl
two_items false false x y r = refl

last_value-swapped :
    (old new : Word) (v : Dsv) (ta : List TaItem) (u : Word)
    → last_value u (swapped old new v ta) ≡ (
        if same_key u new
        then some (found v)
        else if same_key u old
        then some absent
        else last_value u ta)
unfolding swapped own item_value
last_value-swapped old new v ta u =
    let del : TaItem = record { kind = ta_delete_kind; word = old; dsvval = none } in
    let write : TaItem = record { kind = ta_write_kind; word = new; dsvval = some v } in
    last_value-append u (ta ++ del ∷ []) write
    ∙ ap (first_of (own u write)) (last_value-append u ta del)
    ∙ two_items (same_key u new) (same_key u old) (found v) absent (last_value u ta)

Proper-swapped :
    (old new : Word) (v : Dsv) (ta : List TaItem)
    → All Proper ta
    → IsU32 v
    → All Proper (swapped old new v ta)
unfolding swapped ProperValue
Proper-swapped old new v ta p fits =
    let del : TaItem = record { kind = ta_delete_kind; word = old; dsvval = none } in
    let write : TaItem = record { kind = ta_write_kind; word = new; dsvval = some v } in
    All-append Proper (ta ++ del ∷ []) (write ∷ []) (All-append Proper ta (del ∷ []) p (tt, tt))
      (fits, tt)

-- Before the write, the new word is read as before the deletion of the old one.
last_value-deleted :
    (old new : Word) (ta : List TaItem)
    → old ≢ new
    → last_value new (ta_add ta ta_delete_kind old none) ≡ last_value new ta
unfolding ta_add own
last_value-deleted old new ta apart =
    last_value-append new ta (record { kind = ta_delete_kind; word = old; dsvval = none })
    ∙ rw (other_key new old (λ e. apart (sym e))) refl

module _ (b : Backend) (s : Settings) where
  reads-last_value :
      (ta ta' : List TaItem) (db : b.Db) (u : Word)
      → last_value u ta ≡ last_value u ta'
      → ta_read b s (some ta) db u ≡ ta_read b s (some ta') db u
  unfolding ta_read
  reads-last_value ta ta' db u e = ap (read_through b s db u) e

  read_through-if :
      (db : b.Db) (u : Word) (is_new is_old : Bool) (x y : ReadResult) (r : Option ReadResult)
      → (read_through b s db u (if is_new then some x else if is_old then some y else r)).0
        ≡ (if is_new then x else if is_old then y else (read_through b s db u r).0)
  unfolding read_through
  read_through-if db u true is_old x y r = refl
  read_through-if db u false true x y r = refl
  read_through-if db u false false x y r = refl

  ta_read-swapped :
      (old new : Word) (v : Dsv) (ta : List TaItem) (db : b.Db) (u : Word)
      → (ta_read b s (some (swapped old new v ta)) db u).0 ≡ (
          if same_key u new
          then found v
          else if same_key u old
          then absent
          else (ta_read b s (some ta) db u).0)
  unfolding ta_read
  ta_read-swapped old new v ta db u =
      ap (λ o. (read_through b s db u o).0) (last_value-swapped old new v ta u)
      ∙ read_through-if db u (same_key u new) (same_key u old) (found v) absent (last_value u ta)

  merge_tokens-swapped :
      (old new : Word) (in_val tmp : Dsv) (ta : List TaItem) (db : b.Db) (ret : ReadResult)
      (db' : b.Db)
      → old ≢ new
      → ta_read b s (some ta) db new ≡ (ret, db')
      → merged ret in_val ≡ some tmp
      → merge_tokens b s old new in_val (some ta) db ≡ some (some (swapped old new tmp ta), db')
  unfolding merge_tokens ta_delete ta_write ta_add swapped
  merge_tokens-swapped old new in_val tmp ta db ret db' apart e f =
      let g =
        reads-last_value (ta_add ta ta_delete_kind old none) ta db new
          (last_value-deleted old new ta apart)
        ∙ e in
      rw (g, f) refl

-- The value of a merged word: if the new word is there, the sums of the counts modulo 2 ^ 32 and the
-- later date, and else the value of the old word.
unfoldable pub sum_with : ReadResult → Dsv → Dsv
sum_with (found r) v = record {
  spamcount = (r.spamcount + v.spamcount) % 2 ^ 32;
  goodcount = (r.goodcount + v.goodcount) % 2 ^ 32;
  date = max r.date v.date;
}
sum_with absent v = v
sum_with read_retry v = v
sum_with (read_exit e) v = v

merged_lem :
    (ret : ReadResult) (v : Dsv)
    → ((e : ℕ) → ret ≢ read_exit e)
    → merged ret v ≡ some (sum_with ret v)
unfolding merged sum_with
merged_lem (found r) v h = refl
merged_lem absent v h = refl
merged_lem read_retry v h = refl
merged_lem (read_exit e) v h = absurd (h e refl)

-- Old and new word differ, the new one is read through the transaction as `ret`, which is no exit,
-- the value that is made of it fits into 32 bits, and so do those of the queue; tokens carry a
-- date, the database's calls succeed, and a deletion removes its key. The merged value has the sums
-- of the counts modulo 2 ^ 32 and the later of the dates, or is the old word's if the read did not
-- find the new one. After the merge and a commit, a read of the new word gives the merged value,
-- one of the old word finds nothing, and any other word is read as it was through the transaction
-- before.
pub merge_tokens-ta_commit :
    (b : Backend) (h : Healthy b) (d : Deletes b h) (s : Settings) (old new : Word) (in_val : Dsv)
    (ta : List TaItem) (db : b.Db) (ret : ReadResult)
    → s.timestamp_tokens ≡ true
    → All Proper ta
    → old ≢ new
    → ta_read b s (some ta) db new ≡ (ret, db)
    → ((e : ℕ) → ret ≢ read_exit e)
    → IsU32 (sum_with ret in_val)
    → (ta' : List TaItem) × (flag : Bool) × (t : ℕ) × (db' : b.Db) × (merge_tokens b s old new
          in_val
          (some ta)
          db
        ≡ some (some ta', db))
      × (ta_commit b s (some ta') db ≡ some (flag, at_date s t, db'))
      × ((u : Word)
          → (ds_read b (at_date s t) db' u).0 ≡ (
              if same_key u new
              then found (sum_with ret in_val)
              else if same_key u old
              then absent
              else (ta_read b s (some ta) db u).0))
merge_tokens-ta_commit b h d s old new in_val ta db ret dated p apart e f fits =
    let tmp = sum_with ret in_val in
    let ta' = swapped old new tmp ta in
    let (flag, t, db', committed, same) =
      ta_read-ta_commit b h d s ta' db dated (Proper-swapped old new tmp ta p fits) in
    (
      ta',
      flag,
      t,
      db',
      merge_tokens-swapped b s old new in_val tmp ta db ret db apart e (merged_lem ret in_val f),
      committed,
      λ u. same u ∙ ta_read-swapped b s old new tmp ta db u,
    )
