-- ===== src/Tests/Pending.antt =====
-- A transaction on a database that is a function.
use bogofilter.Prelude.{List, [], codes, none, refl, some, ◌∷◌}
use bogofilter.Word.{Word}
use bogofilter.Transaction.{TaItem, ta_delete_kind, ta_write_kind}
use bogofilter.Transaction.Cells.{Deletes}
use bogofilter.Tests.Database.{map_db, map_db-Healthy}

abbrev pub map_db-Deletes : Deletes map_db map_db-Healthy
map_db-Deletes = record { delete_contents = λ db w u. refl }

abbrev moved : List TaItem
moved =
    record { kind = ta_delete_kind; word = codes "url:1.2"; dsvval = none }
    ∷ record {
      kind = ta_write_kind;
      word = codes "ip:1.2";
      dsvval = some (record { spamcount = 3; goodcount = 1; date = 20040500 });
    }
    ∷ []
