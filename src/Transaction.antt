-- ===== src/Transaction.antt =====
-- bogofilter/src/transaction.c: operations on a database that are kept until the end of a
-- transaction. The doubly linked queue is the list of its items, the oldest first; a null
-- transaction is `none`. One database handle stands for those of the items, and a return code is
-- only compared with TA_OK.
pub mod Cells
pub mod Commit
use bogofilter.Prelude.{
  Bool, List, Option, Ordering, [], false, if◌then◌else◌, none, some, true, ◌&&◌, ◌++◌, ◌>>=◌, ◌∷◌,
}
use bogofilter.Word.{Word, word_cmp}
use bogofilter.Datastore.{
  Backend, Settings, Status, ok, Dsv, ReadResult, found, absent, ds_read, ds_write, ds_delete,
}

pub data TaKind : Type 0 where
  ta_delete_kind ta_write_kind : TaKind

pub record TaItem : Type 0 where
  pub kind : TaKind
  pub word : Word
  pub dsvval : Option Dsv

abbrev pub Transaction : Type 0
Transaction = Option (List TaItem)

abbrev pub ta_init : Transaction
ta_init = some []

unfoldable pub ta_add : List TaItem → TaKind → Word → Option Dsv → List TaItem
ta_add ta ta_kind word dsvval = ta ++ record { kind = ta_kind; word = word; dsvval = dsvval } ∷ []

-- The flag says that the result is TA_OK.
unfoldable pub ta_delete : Transaction → Word → Bool × Transaction
unfolding ta_add
ta_delete none word = (false, none)
ta_delete (some ta) word = (true, some (ta_add ta ta_delete_kind word none))

unfoldable pub ta_write : Transaction → Word → Dsv → Bool × Transaction
unfolding ta_add
ta_write none word val = (false, none)
ta_write (some ta) word val = (true, some (ta_add ta ta_write_kind word (some val)))

abbrev pub is_zero : Ordering → Bool
is_zero Ordering.eq = true
is_zero _ = false

unfoldable pub same_key : Word → Word → Bool
unfolding word_cmp
same_key a b = is_zero (word_cmp a b)

-- What an item says of its word; a write without a value is an error, with the same code as a missing word.
unfoldable pub item_value : TaItem → ReadResult
item_value item = elim item.kind [
  | ta_delete_kind ↦ absent
  | ta_write_kind ↦ elim item.dsvval [ none ↦ absent | some v ↦ found v ]
]

abbrev pub first_of : Option ReadResult → Option ReadResult → Option ReadResult
first_of (some r) later = some r
first_of none later = later

-- The search, from the last item back to the first.
unfoldable pub last_value : Word → List TaItem → Option ReadResult
unfolding same_key item_value
last_value word [] = none
last_value word (item ∷ ta) =
    first_of (last_value word ta) (if same_key word item.word then some (item_value item) else none)

is_ok : Status → Bool
is_ok ok = true
is_ok _ = false

module _ (b : Backend) where
  -- A write of nothing cannot be: its null pointer is followed.
  unfoldable pub flush_item : Settings → TaItem → b.Db → Option (Bool × Settings × b.Db)
  unfolding ds_delete ds_write is_ok
  flush_item s item db = elim item.kind [
    | ta_delete_kind ↦ let (ret, db') = ds_delete b s db item.word in some (is_ok ret, s, db')
    | ta_write_kind ↦ elim item.dsvval [
      | none ↦ none
      | some v ↦
          let s' = record s { today = v.date } in
          let (ret, v', db') = ds_write b s' db item.word v in some (is_ok ret, s', db')
    ]
  ]

  -- `today` keeps the date of the last write.
  unfoldable pub ta_flush : Settings → List TaItem → b.Db → Option (Bool × Settings × b.Db)
  unfolding flush_item
  ta_flush s [] db = some (true, s, db)
  ta_flush s (item ∷ ta) db = do
    (first, s', db') ← flush_item s item db
    (others, s'', db'') ← ta_flush s' ta db'
    some (first && others, s'', db'')

  unfoldable pub ta_commit : Settings → Transaction → b.Db → Option (Bool × Settings × b.Db)
  unfolding ta_flush
  ta_commit s none db = some (false, s, db)
  ta_commit s (some ta) db = ta_flush s ta db

  unfoldable pub ta_rollback : Settings → Transaction → b.Db → Bool × Settings × b.Db
  ta_rollback s none db = (false, s, db)
  ta_rollback s (some ta) db = (true, s, db)

  -- What was not found in the queue is read from the database.
  unfoldable pub read_through : Settings → b.Db → Word → Option ReadResult → ReadResult × b.Db
  unfolding ds_read
  read_through s db word (some r) = (r, db)
  read_through s db word none = ds_read b s db word

  unfoldable pub ta_read : Settings → Transaction → b.Db → Word → ReadResult × b.Db
  unfolding last_value read_through
  ta_read s none db word = (absent, db)
  ta_read s (some ta) db word = read_through s db word (last_value word ta)
