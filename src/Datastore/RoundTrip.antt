-- ===== src/Datastore/RoundTrip.antt =====
-- What bogofilter/src/datastore.c reads back after it wrote.
use bogofilter.Prelude.{
  Bool-cases, ap, arith, false, get_or, if◌then◌else◌, inl, inr, not, true, ℕ, ◌%◌, ◌&&◌, ◌<◌, ◌==◌,
  ◌^◌, ◌∙◌, ◌≡◌,
}
use bogofilter.Word.{Word}
use bogofilter.Datastore.{
  swap_32bit, ok, Dbv, Dsv, Backend, Settings, cell, convert_external_to_internal,
  convert_internal_to_external, found, ds_read, ds_write,
}

pub swap_32bit_twice : (x : ℕ) → x < 2 ^ 32 → swap_32bit (swap_32bit x) ≡ x
unfolding swap_32bit
swap_32bit_twice x h = omega arith

swap_32bit-lt : (x : ℕ) → swap_32bit x < 2 ^ 32
unfolding swap_32bit
swap_32bit-lt x = omega arith

pub cell-lt : (s : Settings) (x : ℕ) → x < 2 ^ 32 → cell s x < 2 ^ 32
unfolding cell
cell-lt s x h = ground (arith, swap_32bit-lt x)

cell_twice : (s : Settings) (x : ℕ) → x < 2 ^ 32 → cell s (cell s x % 2 ^ 32) ≡ x
unfolding cell
cell_twice s x h = ground (arith, swap_32bit_twice x h, swap_32bit-lt x)

abbrev pub IsU32 : Dsv → Type 0
IsU32 v = (v.spamcount < 2 ^ 32) × (v.goodcount < 2 ^ 32) × (v.date < 2 ^ 32)

-- Without a bound on the date, the counts are read back.
pub convert_counts :
    (s : Settings) (v : Dsv)
    → v.spamcount < 2 ^ 32
    → v.goodcount < 2 ^ 32
    → ((convert_external_to_internal s (convert_internal_to_external s v)).spamcount ≡ v.spamcount)
      × ((convert_external_to_internal s (convert_internal_to_external s v)).goodcount
          ≡ v.goodcount)
unfolding convert_external_to_internal convert_internal_to_external
convert_counts s v a b = elim (Bool-cases (s.timestamp_tokens && not (v.date == 0))) [
  | inl e ↦
      rw (e, convert_internal_to_external) (cell_twice s v.spamcount a, cell_twice s v.goodcount b)
  | inr e ↦
      rw (e, convert_internal_to_external) (cell_twice s v.spamcount a, cell_twice s v.goodcount b)
]

kept :
    (s : Settings) (v : Dsv)
    → (s.timestamp_tokens && not (v.date == 0)) ≡ true
    → v.date ≡ (if s.timestamp_tokens then v.date else 0)
kept s v e = ground arith

dropped :
    (s : Settings) (v : Dsv)
    → (s.timestamp_tokens && not (v.date == 0)) ≡ false
    → ◌≡◌ {A = ℕ} 0 (if s.timestamp_tokens then v.date else 0)
dropped s v e = ground arith

-- What is read from a buffer fits `u_int32_t`.
pub convert_external-IsU32 :
    (s : Settings) (ex : Dbv)
    → ((convert_external_to_internal s ex).spamcount < 2 ^ 32)
      × ((convert_external_to_internal s ex).goodcount < 2 ^ 32)
unfolding convert_external_to_internal
convert_external-IsU32 s ex =
    let at = λ (i : ℕ). cell-lt s (get_or ex.cells i 0 % 2 ^ 32) (omega arith) in
    let a = at 0 in let b = at 1 in (a, ground (arith, b))

-- The value that is read back from what a value was converted to: its counts, and its date if
-- tokens carry one.
pub convert_round_trip :
    (s : Settings) (v : Dsv)
    → IsU32 v
    → convert_external_to_internal s (convert_internal_to_external s v)
      ≡ record v { date = if s.timestamp_tokens then v.date else 0 }
unfolding convert_external_to_internal convert_internal_to_external
convert_round_trip s v (a, b, c) = elim (Bool-cases (s.timestamp_tokens && not (v.date == 0))) [
  | inl e ↦
      rw (e, convert_internal_to_external)
        (λ i. record {
          spamcount = cell_twice s v.spamcount a i;
          goodcount = cell_twice s v.goodcount b i;
          date = (cell_twice s v.date c ∙ kept s v e) i;
        })
  | inr e ↦
      rw (e, convert_internal_to_external)
        (λ i. record {
          spamcount = cell_twice s v.spamcount a i;
          goodcount = cell_twice s v.goodcount b i;
          date = dropped s v e i;
        })
]

-- A database that gives back what it was last given under a key, whenever both calls succeed, and
-- whose other calls leave the data alone.
pub record Remembers (b : Backend) : Type 0 where
  pub get_set :
      (db : b.Db) (w : Word) (ex : Dbv)
      → (b.set_dbvalue db w ex).0 ≡ ok
      → ((b.get_dbvalue (b.set_dbvalue db w ex).1 w).0 ≡ ok)
        × ((b.get_dbvalue (b.set_dbvalue db w ex).1 w).1 ≡ ex)

-- The date that `ds_write` stores.
abbrev pub stored_date : Settings → Dsv → ℕ
stored_date s v = if s.timestamp_tokens then (if s.today == 0 then v.date else s.today) else 0

abbrev pub dated : Settings → Dsv → Dsv
dated s v = if s.timestamp_tokens && not (s.today == 0) then record v { date = s.today } else v

dated-IsU32 : (s : Settings) (v : Dsv) → IsU32 v → s.today < 2 ^ 32 → IsU32 (dated s v)
dated-IsU32 s v u t = elim (Bool-cases (s.timestamp_tokens && not (s.today == 0))) [
  | inl e ↦ rw e (u.0, u.1, t)
  | inr e ↦ rw e u
]

dated_date :
    (s : Settings) (v : Dsv)
    → record (dated s v) { date = if s.timestamp_tokens then (dated s v).date else 0 }
      ≡ record v { date = stored_date s v }
dated_date s v = ground arith

module _ (b : Backend) (s : Settings) (m : Remembers b) where
  -- A token that was written with success is found by the next read, with the same two counts, and
  -- with the date of the day if tokens carry one; a date is not kept otherwise. This holds for a
  -- database of either byte order.
  pub ds_read-ds_write :
      (db : b.Db) (w : Word) (v : Dsv)
      → IsU32 v
      → s.today < 2 ^ 32
      → (ds_write b s db w v).0 ≡ ok
      → (ds_read b s (ds_write b s db w v).2 w).0 ≡ found (record v { date = stored_date s v })
  unfolding ds_read ds_write
  ds_read-ds_write db w v u t h =
      let v' = dated s v in
      let (g, e) = m.get_set db w (convert_internal_to_external s v') h in
      rw g (
        ap found (
          ap (convert_external_to_internal s) e
          ∙ convert_round_trip s v' (dated-IsU32 s v u t)
          ∙ dated_date s v))
