-- ===== src/Datastore/Healthy.antt =====
-- A database whose calls succeed, as the rest of the program uses it.
use bogofilter.Prelude.{Option, ap, arith, if◌then◌else◌, none, refl, some, ◌<◌, ◌^◌, ◌≡◌}
use bogofilter.Word.{Word}
use bogofilter.WordHash.{same_word}
use bogofilter.Datastore.{
  Backend, Settings, Dbv, Dsv, zero_dsv, convert_external_to_internal, ok, not_found, found, absent,
  ds_read,
}
use bogofilter.Datastore.RoundTrip.{convert_external-IsU32}

-- A database whose calls succeed: it is a map from keys to values, a read changes nothing, and a
-- write changes the value of its key.
pub record Healthy (b : Backend) : Type 0 where
  pub contents : b.Db → Word → Option Dbv
  pub get_state : (db : b.Db) (w : Word) → (b.get_dbvalue db w).2 ≡ db
  pub get_none : (db : b.Db) (w : Word) → contents db w ≡ none → (b.get_dbvalue db w).0 ≡ not_found
  pub get_some :
      (db : b.Db) (w : Word) (ex : Dbv)
      → contents db w ≡ some ex
      → ((b.get_dbvalue db w).0 ≡ ok) × ((b.get_dbvalue db w).1 ≡ ex)
  pub set_ok : (db : b.Db) (w : Word) (ex : Dbv) → (b.set_dbvalue db w ex).0 ≡ ok
  pub set_contents :
      (db : b.Db) (w : Word) (ex : Dbv) (u : Word)
      → contents (b.set_dbvalue db w ex).1 u ≡ (if same_word w u then some ex else contents db u)

-- The two counts of a value.
abbrev pub SameCounts : Dsv → Dsv → Type 0
SameCounts v v' = (v.spamcount ≡ v'.spamcount) × (v.goodcount ≡ v'.goodcount)

abbrev pub FitsU32 : Dsv → Type 0
FitsU32 v = (v.spamcount < 2 ^ 32) × (v.goodcount < 2 ^ 32)

unfoldable pub from_contents : Settings → Option Dbv → Dsv
from_contents s none = zero_dsv
from_contents s (some ex) = convert_external_to_internal s ex

from_contents-FitsU32 : (s : Settings) (o : Option Dbv) → FitsU32 (from_contents s o)
unfolding from_contents
from_contents-FitsU32 s none = omega arith
from_contents-FitsU32 s (some ex) = convert_external-IsU32 s ex

module _ (b : Backend) (s : Settings) (h : Healthy b) where
  -- The value of a key, as the program reads it.
  unfoldable pub value_of : b.Db → Word → Dsv
  value_of db w = from_contents s (h.contents db w)

  pub value_of-FitsU32 : (db : b.Db) (w : Word) → FitsU32 (value_of db w)
  unfolding value_of
  value_of-FitsU32 db w = from_contents-FitsU32 s (h.contents db w)

  pub ds_read-none :
      (db : b.Db) (w : Word) → h.contents db w ≡ none → ds_read b s db w ≡ (absent, db)
  unfolding ds_read
  ds_read-none db w e i =
      let p : (ds_read b s db w).0 ≡ absent = rw (h.get_none db w e) refl in
      (p i, h.get_state db w i)

  pub ds_read-some :
      (db : b.Db) (w : Word) (ex : Dbv)
      → h.contents db w ≡ some ex
      → ds_read b s db w ≡ (found (convert_external_to_internal s ex), db)
  unfolding ds_read
  ds_read-some db w ex e i =
      let (p, q) = h.get_some db w ex e in
      let r : (ds_read b s db w).0 ≡ found (convert_external_to_internal s ex) =
        rw p (ap found (ap (convert_external_to_internal s) q)) in
      (r i, h.get_state db w i)
