-- ===== src/Tests/Upkeep.antt =====
-- Maintenance of a word list that is a function.
use bogofilter.Prelude.{Bool, List, [], arith, codes, if◌then◌else◌, refl, some, true, ℕ, ◌≡◌}
use bogofilter.Word.{Word}
use bogofilter.Datastore.{Dsv, ds_read, absent, found}
use bogofilter.Transaction.{TaItem, ta_commit, ta_read, same_key}
use bogofilter.Transaction.Cells.{at_date}
use bogofilter.Maint.{merge_tokens, Maintenance}
use bogofilter.Maint.Hook.{sum_with, merge_tokens-ta_commit}
use bogofilter.Tests.Database.{map_db, map_db-Healthy, settings, no_data}
use bogofilter.Tests.Pending.{map_db-Deletes}

abbrev seen_once : Dsv
seen_once = record { spamcount = 1; goodcount = 0; date = 20040500 }

merge_tokens-ta_commit_example :
    (ta' : List TaItem) × (flag : Bool) × (t : ℕ) × (db' : map_db.Db) × (merge_tokens map_db
        settings
        (codes "café")
        (codes "caf?")
        seen_once
        (some [])
        no_data
      ≡ some (some ta', no_data))
    × (ta_commit map_db settings (some ta') no_data ≡ some (flag, at_date settings t, db'))
    × ((u : Word)
        → (ds_read map_db (at_date settings t) db' u).0 ≡ (
            if same_key u (codes "caf?")
            then found seen_once
            else if same_key u (codes "café")
            then absent
            else (ta_read map_db settings (some []) no_data u).0))
unfolding sum_with ta_read
merge_tokens-ta_commit_example =
    merge_tokens-ta_commit map_db map_db-Healthy map_db-Deletes settings (codes "café")
      (codes "caf?") seen_once [] no_data absent refl tt (λ e. cc) refl (λ e q. cc)
      (omega arith, omega arith, omega arith)

abbrev pub upkeep : Maintenance
upkeep = record {
  thresh_count = 2;
  thresh_date = 0;
  size_min = 3;
  size_max = 9;
  upgrade_wordlist_version = true;
  wordlist_version = 0;
  replace_nonascii_characters = true;
  same_encoding = true;
  iconvert = λ w. w;
}
