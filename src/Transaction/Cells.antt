-- ===== src/Transaction/Cells.antt =====
-- What an item of a transaction of bogofilter/src/transaction.c makes of what the database holds
-- for a word.
use bogofilter.Prelude.{
  All, Bool, Bool-cases, List, Option, Ordering, [], ap, false, if◌then◌else◌, inl, inr, none, refl,
  some, sym, true, ℕ, ◌∙◌, ◌∷◌, ◌≡◌, ◌≢◌,
}
use bogofilter.Word.{Word, word_cmp}
use bogofilter.Word.Order.{word_cmp_order}
use bogofilter.WordHash.{same_word}
use bogofilter.WordHash.Bins.{same_word_sound, same_word_refl}
use bogofilter.Datastore.{
  Backend, Settings, Dsv, Dbv, ReadResult, found, absent, read_retry, read_exit,
  convert_internal_to_external, convert_external_to_internal,
}
use bogofilter.Datastore.RoundTrip.{IsU32, convert_round_trip}
use bogofilter.Datastore.Healthy.{Healthy}
use bogofilter.Transaction.{
  TaItem, TaKind, ta_delete_kind, ta_write_kind, same_key, item_value, last_value, is_zero,
  first_of,
}

-- A deletion removes its key from a database whose other calls succeed.
pub record Deletes (b : Backend) (h : Healthy b) : Type 0 where
  pub delete_contents :
      (db : b.Db) (w u : Word)
      → h.contents (b.delete_key db w).1 u ≡ (if same_word w u then none else h.contents db u)

-- A write has a value whose numbers fit into 32 bits.
unfoldable pub ProperValue : TaKind → Option Dsv → Type 0
ProperValue ta_delete_kind v = Unit
ProperValue ta_write_kind none = Bool.false ≡ true
ProperValue ta_write_kind (some v) = IsU32 v

abbrev pub Proper : TaItem → Type 0
Proper item = ProperValue item.kind item.dsvval

pub true≢false : true ≢ false
true≢false = λ e. cc

apart : (w u : Word) → same_word w u ≡ false → u ≢ w
apart w u e = λ q. true≢false (sym (same_word_refl w) ∙ ap (same_word w) (sym q) ∙ e)

is_zero-other : (o : Ordering) → o ≢ Ordering.eq → is_zero o ≡ false
is_zero-other Ordering.lt h = refl
is_zero-other Ordering.eq h = absurd (h refl)
is_zero-other Ordering.gt h = refl

same_key-same_word : (u w : Word) → same_key u w ≡ same_word w u
unfolding same_key
same_key-same_word u w = elim (Bool-cases (same_word w u)) [
  | inl e ↦ ap is_zero ((word_cmp_order u w).1.1 (sym (same_word_sound w u e))) ∙ sym e
  | inr e ↦ is_zero-other (word_cmp u w) (λ q. apart w u e ((word_cmp_order u w).1.0 q)) ∙ sym e
]

-- The value in the database that an item leaves for its word.
unfoldable pub item_cell : Settings → ReadResult → Option Dbv
item_cell s (found v) = some (convert_internal_to_external s v)
item_cell s absent = none
item_cell s read_retry = none
item_cell s (read_exit e) = none

-- The contents after the items, the oldest first.
unfoldable pub overlay : Settings → List TaItem → (Word → Option Dbv) → Word → Option Dbv
overlay s [] c u = c u
overlay s (item ∷ ta) c u =
    overlay s ta (λ x. if same_word item.word x then item_cell s (item_value item) else c x) u

unfoldable pub last_cell : Settings → Option ReadResult → Option Dbv → Option Dbv
last_cell s none o = o
last_cell s (some r) o = item_cell s r

-- One item more in front.
step_cell :
    (s : Settings) (r : Option ReadResult) (t : Bool) (v : ReadResult) (o : Option Dbv)
    → last_cell s r (if t then item_cell s v else o)
      ≡ last_cell s (first_of r (if t then some v else none)) o
unfolding last_cell
step_cell s none true v o = refl
step_cell s none false v o = refl
step_cell s (some r) t v o = refl

pub overlay-last_value :
    (s : Settings) (ta : List TaItem) (c : Word → Option Dbv) (u : Word)
    → overlay s ta c u ≡ last_cell s (last_value u ta) (c u)
unfolding overlay last_value last_cell
overlay-last_value s [] c u = refl
overlay-last_value s (item ∷ ta) c u =
    overlay-last_value s ta
      (λ x. if same_word item.word x then item_cell s (item_value item) else c x) u
    ∙ step_cell s (last_value u ta) (same_word item.word u) (item_value item) (c u)
    ∙ ap
        (λ t.
          last_cell s (first_of (last_value u ta) (if t then some (item_value item) else none))
            (c u))
        (sym (same_key-same_word u item.word))

abbrev pub at_date : Settings → ℕ → Settings
at_date s t = record s { today = t }

pub last_cell-at_date :
    (s : Settings) (t : ℕ) (r : Option ReadResult) (o : Option Dbv)
    → last_cell (at_date s t) r o ≡ last_cell s r o
unfolding last_cell item_cell convert_internal_to_external
last_cell-at_date s t none o = refl
last_cell-at_date s t (some (found v)) o = refl
last_cell-at_date s t (some absent) o = refl
last_cell-at_date s t (some read_retry) o = refl
last_cell-at_date s t (some (read_exit e)) o = refl

external-at_date :
    (s : Settings) (t : ℕ) (ex : Dbv)
    → convert_external_to_internal (at_date s t) ex ≡ convert_external_to_internal s ex
unfolding convert_external_to_internal
external-at_date s t ex = refl

pub dated_round_trip :
    (s : Settings) (t : ℕ) (v : Dsv)
    → s.timestamp_tokens ≡ true
    → IsU32 v
    → convert_external_to_internal (at_date s t) (convert_internal_to_external s v) ≡ v
dated_round_trip s t v e p =
    external-at_date s t (convert_internal_to_external s v)
    ∙ convert_round_trip s v p
    ∙ ap (λ a. record v { date = if a then v.date else 0 }) e

-- What an item says of its word is no failure, and its numbers fit.
unfoldable pub Plain : ReadResult → Type 0
Plain (found v) = IsU32 v
Plain absent = Unit
Plain read_retry = Bool.false ≡ true
Plain (read_exit e) = Bool.false ≡ true

item_value-Plain :
    (k : TaKind) (w : Word) (v : Option Dsv)
    → ProperValue k v
    → Plain (item_value (record { kind = k; word = w; dsvval = v }))
unfolding Plain item_value ProperValue
item_value-Plain ta_delete_kind w v p = tt
item_value-Plain ta_write_kind w none p = tt
item_value-Plain ta_write_kind w (some v) p = p

unfoldable pub MayPlain : Option ReadResult → Type 0
MayPlain none = Unit
MayPlain (some r) = Plain r

first_of-MayPlain :
    (a : Option ReadResult) (t : Bool) (r : ReadResult)
    → MayPlain a
    → Plain r
    → MayPlain (first_of a (if t then some r else none))
unfolding MayPlain
first_of-MayPlain none true r p q = q
first_of-MayPlain none false r p q = tt
first_of-MayPlain (some a) t r p q = p

pub last_value-MayPlain : (u : Word) (ta : List TaItem) → All Proper ta → MayPlain (last_value u ta)
unfolding last_value MayPlain
last_value-MayPlain u [] p = tt
last_value-MayPlain u (item ∷ ta) (p, ps) =
    first_of-MayPlain (last_value u ta) (same_key u item.word) (item_value item)
      (last_value-MayPlain u ta ps) (item_value-Plain item.kind item.word item.dsvval p)
