-- ===== src/Tests/Database.antt =====
-- A database that is a function, the lists of words on it, and the words of messages.
use bogofilter.Prelude.{
  List, Option, [], ap, arith, codes, false, if◌then◌else◌, none, refl, some, true, ℕ, ◌+◌, ◌==◌,
  ◌∷◌, ◌≡◌,
}
use bogofilter.Word.{Word}
use bogofilter.WordHash.{same_word, no_cnts, WordCnts}
use bogofilter.Datastore.{
  Backend, Settings, Dbv, Dsv, Status, ok, not_found, convert_external_to_internal,
  convert_internal_to_external, found, done, ds_read, ds_write,
}
use bogofilter.Datastore.RoundTrip.{Remembers, stored_date, ds_read-ds_write, convert_round_trip}
use bogofilter.Datastore.Healthy.{Healthy}
use bogofilter.WordLists.{Wordlist, wl_regular, wl_ignore, int_zero, init_wordlist}
use bogofilter.WordLists.Queue.{Ascending, has_dup, placed, init_wordlist-placed}
use bogofilter.Register.{ix_spam, ix_undf, register_words}
use bogofilter.Register.Update.{}
use bogofilter.Register.Words.{Registered, register_words-after_run}
use bogofilter.Score.{lookup, lookup_words, looked_up}
use bogofilter.Score.Lookup.{after_lookup, searched, lookup-after_lookup}
use bogofilter.Score.Words.{after_words, lookup_words-after_words}
use bogofilter.WordHash.Bins.{same_word_refl}

abbrev pub Table : Type 0
Table = Word → Option Dbv

abbrev pub put : Table → Word → Option Dbv → Table
put db w v u = if same_word w u then v else db u

abbrev pub status : Option Dbv → Status
status none = not_found
status (some ex) = ok

abbrev pub buffer : Option Dbv → Dbv
buffer none = record { cells = []; leng = 0 }
buffer (some ex) = ex

abbrev pub map_db : Backend
map_db = record {
  Db = Table;
  get_dbvalue = λ db w. (status (db w), buffer (db w), db);
  set_dbvalue = λ db w ex. (ok, put db w (some ex));
  txn_begin = λ db. (false, db);
  delete_key = λ db w. (status (db w), put db w none);
}

abbrev pub map_db-Healthy : Healthy map_db
map_db-Healthy = record {
  contents = λ db w. db w;
  get_state = λ db w. refl;
  get_none = λ db w e. ap status e;
  get_some = λ db w ex e. (ap status e, ap buffer e);
  set_ok = λ db w ex. refl;
  set_contents = λ db w ex u. refl;
}

map_db-Remembers : Remembers map_db
map_db-Remembers = record {
  get_set = λ db w ex h.
      let e : put db w (some ex) w ≡ some ex = rw (same_word_refl w) refl in
      (ap status e, ap buffer e);
}

abbrev pub settings : Settings
settings = record { timestamp_tokens = true; today = 20261125; is_swapped = true }

abbrev hello : Word
hello = codes "hello"

abbrev offer : Word
offer = codes "offer"

abbrev pub no_data : Table
no_data = λ w. none

abbrev counts : Dsv
counts = record { spamcount = 7; goodcount = 300; date = 0 }

abbrev two_words : List (Word × ℕ)
two_words = (hello, 1) ∷ (offer, 3) ∷ []

convert_round_trip_example :
    convert_external_to_internal settings (convert_internal_to_external settings counts)
    ≡ record counts { date = if settings.timestamp_tokens then counts.date else 0 }
convert_round_trip_example =
    convert_round_trip settings counts (omega arith, omega arith, omega arith)

ds_read-ds_write_example :
    (ds_read map_db settings (ds_write map_db settings no_data hello counts).2 hello).0
    ≡ found (record counts { date = stored_date settings counts })
unfolding ds_write
ds_read-ds_write_example =
    ds_read-ds_write map_db settings map_db-Remembers no_data hello counts
      (omega arith, omega arith, omega arith) (omega arith) refl

register_words-after_run_example :
    Registered map_db settings map_db-Healthy ix_spam ix_undf
      (if 2 == 0 then 0 else 1)
      two_words
      no_data
      (register_words map_db settings done ix_spam ix_undf 2 two_words 1 no_data)
register_words-after_run_example =
    register_words-after_run map_db settings map_db-Healthy done ix_spam ix_undf 2 two_words 1
      no_data

-- A word list and an ignore list.
abbrev main_list : Wordlist Table
main_list = record {
  listname = codes "word";
  path = none;
  dsh = no_data;
  msgs_good = 10;
  msgs_spam = 20;
  type = wl_regular;
  override = int_zero + 2;
  encoding = 0;
}

abbrev ignore_list : Wordlist Table
ignore_list = record main_list {
  listname = codes "ignore";
  type = wl_ignore;
  override = int_zero + 7;
}

abbrev both_lists : List (Wordlist Table)
both_lists = main_list ∷ ignore_list ∷ []

both_lists-Ascending : Ascending both_lists
both_lists-Ascending = (((omega arith), tt), (tt, tt))

init_wordlist-placed_example :
    (init_wordlist ignore_list both_lists
      ≡ (if has_dup ignore_list both_lists then both_lists else placed ignore_list both_lists))
    × Ascending (init_wordlist ignore_list both_lists)
init_wordlist-placed_example = init_wordlist-placed ignore_list both_lists both_lists-Ascending

lookup-after_lookup_example :
    lookup map_db settings 1 0 hello no_cnts both_lists
    ≡ done (
      looked_up,
      after_lookup map_db settings map_db-Healthy hello
          (searched map_db settings map_db-Healthy hello both_lists)
          (record no_cnts { msgs_good = 0; msgs_bad = 0 }),
      0,
      both_lists,
    )
lookup-after_lookup_example =
    lookup-after_lookup map_db settings map_db-Healthy hello 1 0 no_cnts both_lists
      (omega arith, omega arith, omega arith, omega arith) both_lists-Ascending

abbrev counted_words : List (Word × WordCnts)
counted_words = (hello, no_cnts) ∷ (offer, no_cnts) ∷ []

lookup_words-after_words_example :
    lookup_words map_db settings 1 false 1 0 counted_words both_lists
    ≡ done (
      0,
      if false
          then counted_words
          else after_words map_db settings map_db-Healthy 1 0 both_lists counted_words,
      both_lists,
    )
lookup_words-after_words_example =
    lookup_words-after_words map_db settings map_db-Healthy 1 0 false 1 counted_words both_lists
      (omega arith)
      (
        (omega arith, omega arith, omega arith, omega arith),
        ((omega arith, omega arith, omega arith, omega arith), tt),
      )
      both_lists-Ascending
