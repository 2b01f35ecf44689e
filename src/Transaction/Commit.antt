-- ===== src/Transaction/Commit.antt =====
-- What a commit of bogofilter/src/transaction.c makes of a database, against what the transaction reads.
use bogofilter.Prelude.{
  All, Bool, Bool-cases, List, Option, Option-cases, [], ap, if◌then◌else◌, inl, inr, none, not,
  refl, some, sym, true, ℕ, ◌&&◌, ◌==◌, ◌∙◌, ◌∷◌, ◌≡◌,
}
use bogofilter.Word.{Word}
use bogofilter.WordHash.{same_word}
use bogofilter.Datastore.{
  Backend, Settings, Dsv, Dbv, ReadResult, found, absent, read_retry, read_exit, ds_read, ds_write,
  ds_delete, convert_internal_to_external, convert_external_to_internal,
}
use bogofilter.Datastore.Healthy.{Healthy, ds_read-none, ds_read-some}
use bogofilter.Transaction.{
  TaItem, TaKind, ta_delete_kind, ta_write_kind, item_value, last_value, is_ok, flush_item,
  ta_flush, ta_commit, ta_read, read_through,
}
use bogofilter.Transaction.Cells.{
  Deletes, ProperValue, Proper, true≢false, item_cell, overlay, last_cell, overlay-last_value,
  at_date, last_cell-at_date, dated_round_trip, Plain, MayPlain, last_value-MayPlain,
}

module _ (b : Backend) (h : Healthy b) (d : Deletes b h) where
  -- The database after one item, or after all of them.
  Flushed : Settings → b.Db → Option (Bool × Settings × b.Db) → (Word → Option Dbv) → Type 0
  Flushed s db r c =
      (flag : Bool) × (t : ℕ) × (db' : b.Db) × (r ≡ some (flag, at_date s t, db'))
      × ((u : Word) → h.contents db' u ≡ c u)

  value_dated :
      (s : Settings) (v : Dsv)
      → (if s.timestamp_tokens && not (v.date == 0) then record v { date = v.date } else v) ≡ v
  value_dated s v = elim (Bool-cases (s.timestamp_tokens && not (v.date == 0))) [
    | inl e ↦ rw e refl
    | inr e ↦ rw e refl
  ]

  flush_delete :
      (s : Settings) (w : Word) (v : Option Dsv) (db : b.Db)
      → Flushed s db
          (flush_item b s (record { kind = ta_delete_kind; word = w; dsvval = v }) db)
          (λ u. if same_word w u then none else h.contents db u)
  unfolding Flushed flush_item ds_delete
  flush_delete s w v db =
      (is_ok (b.delete_key db w).0, s.today, (b.delete_key db w).1, refl, d.delete_contents db w)

  flush_write :
      (s : Settings) (w : Word) (v : Dsv) (db : b.Db)
      → Flushed s db
          (flush_item b s (record { kind = ta_write_kind; word = w; dsvval = some v }) db)
          (λ u. if same_word w u then some (convert_internal_to_external s v) else h.contents db u)
  unfolding Flushed flush_item ds_write convert_internal_to_external
  flush_write s w v db =
      let ex = convert_internal_to_external s v in
      (
        is_ok (b.set_dbvalue db w ex).0,
        v.date,
        (b.set_dbvalue db w ex).1,
        rw (value_dated s v) refl,
        h.set_contents db w ex,
      )

  -- Any item with a proper value.
  flush_kind :
      (s : Settings) (k : TaKind) (w : Word) (v : Option Dsv) (db : b.Db)
      → ProperValue k v
      → let item : TaItem = record { kind = k; word = w; dsvval = v } in
        Flushed s db
          (flush_item b s item db)
          (λ u. if same_word w u then item_cell s (item_value item) else h.contents db u)
  unfolding ProperValue item_cell item_value
  flush_kind s ta_delete_kind w v db p = flush_delete s w v db
  flush_kind s ta_write_kind w none db p = absurd (true≢false (sym p))
  flush_kind s ta_write_kind w (some v) db p = flush_write s w v db

  flush_next :
      (s s' s'' : Settings) (item : TaItem) (ta : List TaItem) (db db' db'' : b.Db)
      (first others : Bool)
      → flush_item b s item db ≡ some (first, s', db')
      → ta_flush b s' ta db' ≡ some (others, s'', db'')
      → ta_flush b s (item ∷ ta) db ≡ some (first && others, s'', db'')
  unfolding ta_flush
  flush_next s s' s'' item ta db db' db'' first others e f = rw (e, f) refl

  ta_flush-nil :
      (s : Settings) (db : b.Db) → ta_flush b s [] db ≡ some (true, at_date s s.today, db)
  unfolding ta_flush
  ta_flush-nil s db = refl

  overlay-at_date :
      (s : Settings) (t : ℕ) (ta : List TaItem) (c : Word → Option Dbv) (u : Word)
      → overlay (at_date s t) ta c u ≡ overlay s ta c u
  overlay-at_date s t ta c u =
      overlay-last_value (at_date s t) ta c u
      ∙ last_cell-at_date s t (last_value u ta) (c u)
      ∙ sym (overlay-last_value s ta c u)

  overlay-eq :
      (s : Settings) (ta : List TaItem) (c c' : Word → Option Dbv)
      → ((u : Word) → c u ≡ c' u)
      → (u : Word) → overlay s ta c u ≡ overlay s ta c' u
  overlay-eq s ta c c' e u =
      overlay-last_value s ta c u
      ∙ ap (last_cell s (last_value u ta)) (e u)
      ∙ sym (overlay-last_value s ta c' u)

  ta_flush-overlay :
      (s : Settings) (ta : List TaItem) (db : b.Db)
      → All Proper ta
      → Flushed s db (ta_flush b s ta db) (overlay s ta (h.contents db))
  unfolding Flushed overlay
  ta_flush-overlay s [] db p = (true, s.today, db, ta_flush-nil s db, λ u. refl)
  ta_flush-overlay s (item ∷ ta) db (p, ps) =
      let (first, t, db1, e, c1) = flush_kind s item.kind item.word item.dsvval db p in
      let (others, t', db2, f, c2) = ta_flush-overlay (at_date s t) ta db1 ps in
      (
        first && others,
        t',
        db2,
        flush_next s (at_date s t) (at_date s t') item ta db db1 db2 first others e f,
        λ u. c2 u ∙ overlay-at_date s t ta (h.contents db1) u ∙ overlay-eq s ta _ _ c1 u,
      )

  -- A read depends on the contents only, and not on the date.
  read_contents : Settings → Option Dbv → ReadResult
  read_contents s none = absent
  read_contents s (some ex) = found (convert_external_to_internal s ex)

  read_contents-at_date :
      (s : Settings) (t : ℕ) (o : Option Dbv) → read_contents (at_date s t) o ≡ read_contents s o
  unfolding read_contents convert_external_to_internal
  read_contents-at_date s t none = refl
  read_contents-at_date s t (some ex) = refl

  ds_read-contents :
      (s : Settings) (db : b.Db) (u : Word)
      → (ds_read b s db u).0 ≡ read_contents s (h.contents db u)
  unfolding read_contents
  ds_read-contents s db u = elim (Option-cases (h.contents db u)) [
    | inl e ↦ rw e (ap (λ r. r.0) (ds_read-none b s h db u e))
    | inr (ex, e) ↦ rw e (ap (λ r. r.0) (ds_read-some b s h db u ex e))
  ]

  read_contents-last_cell :
      (s : Settings) (t : ℕ) (db : b.Db) (u : Word) (r : Option ReadResult)
      → s.timestamp_tokens ≡ true
      → MayPlain r
      → read_contents (at_date s t) (last_cell s r (h.contents db u)) ≡ (read_through b s db u r).0
  unfolding read_contents last_cell item_cell MayPlain Plain read_through
  read_contents-last_cell s t db u none e p =
      read_contents-at_date s t (h.contents db u) ∙ sym (ds_read-contents s db u)
  read_contents-last_cell s t db u (some (found v)) e p = ap found (dated_round_trip s t v e p)
  read_contents-last_cell s t db u (some absent) e p = refl
  read_contents-last_cell s t db u (some read_retry) e p = absurd (true≢false (sym p))
  read_contents-last_cell s t db u (some (read_exit x)) e p = absurd (true≢false (sym p))

  pub ta_read-ta_commit :
      (s : Settings) (ta : List TaItem) (db : b.Db)
      → s.timestamp_tokens ≡ true
      → All Proper ta
      → (flag : Bool) × (t : ℕ) × (db' : b.Db) × (ta_commit b s (some ta) db
          ≡ some (flag, at_date s t, db'))
        × ((u : Word) → (ds_read b (at_date s t) db' u).0 ≡ (ta_read b s (some ta) db u).0)
  unfolding ta_commit ta_read Flushed
  ta_read-ta_commit s ta db e p =
      let (flag, t, db', f, c) = ta_flush-overlay s ta db p in
      (
        flag,
        t,
        db',
        f,
        λ u.
            ds_read-contents (at_date s t) db' u
            ∙ ap (read_contents (at_date s t)) (c u ∙ overlay-last_value s ta (h.contents db) u)
            ∙ read_contents-last_cell s t db u (last_value u ta) e (last_value-MayPlain u ta p),
      )
