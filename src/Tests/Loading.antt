-- ===== src/Tests/Loading.antt =====
-- A dump that is loaded again.
use bogofilter.Prelude.{All, List, [], arith, codes, false, refl, true, ◌^◌, ◌∷◌, ◌≡◌}
use bogofilter.Word.{Word}
use bogofilter.Datastore.{Dsv, done}
use bogofilter.Datastore.Healthy.{SameCounts, value_of}
use bogofilter.BogoUtil.{
  Setup, Txn, dump_wordlist, load_wordlist, is_count, decimal, dump_line, parse_line, entry,
}
use bogofilter.BogoUtil.Load.{Commits, load_wordlist-dump_wordlist}
use bogofilter.BogoUtil.Sum.{Loadable, loaded}
use bogofilter.BogoUtil.Line.{dump_body}
use bogofilter.Tests.Database.{map_db, map_db-Healthy, settings, no_data}
use bogofilter.Tests.Upkeep.{upkeep}

abbrev as_it_is : Setup
as_it_is = record {
  maintain = false;
  maintenance = record upkeep { replace_nonascii_characters = false };
  max_token_len = 30;
}

abbrev keeps : Txn map_db.Db
keeps = record { abort = λ db. db; commit = λ db. (true, db) }

keeps-Commits : Commits map_db map_db-Healthy keeps
keeps-Commits = record {
  begin_ok = λ db. refl;
  begin_contents = λ db w. refl;
  commit_ok = λ db. refl;
  commit_contents = λ db w. refl;
}

abbrev tokens : List (Word × Dsv)
tokens =
    (codes "cheap", record { spamcount = 12; goodcount = 1; date = 20040500 })
    ∷ (codes ".MSG_COUNT", record { spamcount = 40; goodcount = 70; date = 0 })
    ∷ []

dump_text : dump_wordlist as_it_is tokens ≡ codes "cheap 12 1 20040500\n.MSG_COUNT 40 70\n"
unfolding dump_wordlist
dump_text = refl

tokens-Loadable : All (Loadable as_it_is) tokens
unfolding dump_body decimal is_count
tokens-Loadable = (
  record {
    filled = omega arith;
    plain = ((refl, (refl, (refl, (refl, (refl, tt))))));
    fits_token = refl;
    counted = refl;
    fits_line = omega arith;
    spam_int = omega arith;
    good_int = omega arith;
    date_int = omega arith;
  },
  (
    record {
      filled = omega arith;
      plain = ((refl, (refl, (refl, (refl, (refl, (refl, (refl, (refl, (refl, (refl, tt)))))))))));
      fits_token = refl;
      counted = refl;
      fits_line = omega arith;
      spam_int = omega arith;
      good_int = omega arith;
      date_int = omega arith;
    },
    tt,
  ),
)

load_wordlist-dump_wordlist_example :
    (db' : map_db.Db) × (load_wordlist map_db settings as_it_is keeps
        (dump_wordlist as_it_is tokens)
        no_data
      ≡ done (0, db'))
    × ((u : Word)
        → SameCounts
            (value_of map_db settings map_db-Healthy db' u)
            (loaded tokens u (value_of map_db settings map_db-Healthy no_data u)))
load_wordlist-dump_wordlist_example =
    load_wordlist-dump_wordlist map_db settings map_db-Healthy keeps keeps-Commits as_it_is tokens
      no_data (refl, refl) tokens-Loadable

-- A count that no int can hold is lost.
great_count :
    parse_line as_it_is 20261125
      (dump_line (codes "a") (record { spamcount = 2 ^ 31; goodcount = 1; date = 0 }))
    ≡ entry (codes "a") 0 1 20261125
unfolding parse_line dump_line
great_count = refl
