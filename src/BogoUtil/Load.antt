-- ===== src/BogoUtil/Load.antt =====
-- The load of a dump, on a database whose calls succeed.
use bogofilter.WordHash.Bins.{same_word_sound}
use bogofilter.Prelude.{
  All, Bool, Bytes, List, Option, Option-cases, [], ap, arith, false, if◌then◌else◌, inl, inr,
  length, none, refl, some, subst, suc, sym, true, zero, ℕ, ◌++◌, ◌<◌, ◌==◌, ◌∙◌, ◌∷◌, ◌≡◌,
}
use bogofilter.Word.{Word}
use bogofilter.WordHash.{same_word}
use bogofilter.Mime.Header.{c_string}
use bogofilter.Buff.{fgets_loop}
use bogofilter.Datastore.{
  Dbv, Backend, Settings, Dsv, Outcome, done, ds_read, ds_write, convert_external_to_internal,
}
use bogofilter.Datastore.Healthy.{
  Healthy, SameCounts, FitsU32, value_of, from_contents, ds_read-none, ds_read-some,
}
use bogofilter.Register.Update.{written, write_ok}
use bogofilter.BogoUtil.{
  dump_line, dump_wordlist, Setup, entry, is_count, read_value, is_loaded, load_token, load_entry,
  after_entry, load_lines, Txn, load_wordlist,
}
use bogofilter.BogoUtil.Line.{
  dump_body, dump_line-dump_body, dump_body-IsLine, parse_line-dump_line,
}
use bogofilter.BogoUtil.Sum.{
  whole_line, Loadable, add_value, loaded, loaded_congr, choose, TakesAll, hook_lem,
  length-dump_wordlist,
}

abbrev on_day : Settings → ℕ → Settings
on_day s date = record s { today = date }

-- The day has no part in what is read.
from_contents-day :
    (s : Settings) (date : ℕ) (o : Option Dbv) → from_contents (on_day s date) o ≡ from_contents s o
unfolding from_contents convert_external_to_internal
from_contents-day s date none = refl
from_contents-day s date (some ex) = refl

module _ (b : Backend) (s : Settings) (h : Healthy b) where
  value_of-day :
      (date : ℕ) (db : b.Db) (w : Word) → value_of b (on_day s date) h db w ≡ value_of b s h db w
  unfolding value_of
  value_of-day date db w = from_contents-day s date (h.contents db w)

  -- What a read gives, for the load.
  read_day :
      (date : ℕ) (db : b.Db) (w : Word)
      → (read_value (ds_read b (on_day s date) db w).0
          ≡ some (value_of b (on_day s date) h db w, true))
        × ((ds_read b (on_day s date) db w).1 ≡ db)
  unfolding read_value value_of from_contents
  read_day date db w = elim (Option-cases (h.contents db w)) [
    | inl e ↦ rw (e, ds_read-none b (on_day s date) h db w e) (refl, refl)
    | inr (ex, e) ↦ rw (e, ds_read-some b (on_day s date) h db w ex e) (refl, refl)
  ]

  -- The database after a token was added.
  abbrev with_token : Word → Dsv → ℕ → b.Db → b.Db
  with_token w e date db =
      (ds_write b (on_day s date) db w (add_value e (value_of b (on_day s date) h db w))).2

  token_lem :
      (w : Word) (e : Dsv) (date : ℕ) (db : b.Db)
      → load_token b s w e.spamcount e.goodcount date db ≡ some (true, with_token w e date db)
  unfolding load_token add_value
  token_lem w e date db =
      let (r, d) = read_day date db w in
      rw (r, d, write_ok b (on_day s date) h db w (add_value e (value_of b (on_day s date) h db w)))
        refl

  loaded_all :
      (o : Setup) (w : Word) (spam good date : ℕ)
      → o.maintain ≡ false
      → is_count w ≡ true
      → is_loaded o w spam good date ≡ true
  unfolding is_loaded
  loaded_all o w spam good date m c = rw (m, c) refl

  entry_lem :
      (o : Setup) (w : Word) (e : Dsv) (date : ℕ) (db : b.Db)
      → TakesAll o
      → is_count w ≡ true
      → load_entry b s o w e.spamcount e.goodcount date (true, db)
        ≡ some (true, with_token w e date db)
  unfolding load_entry
  entry_lem o w e date db (m, r) c =
      rw (r, loaded_all o w e.spamcount e.goodcount date m c, token_lem w e date db) refl

  after_lem :
      (o : Setup) (w : Word) (e : Dsv) (date : ℕ) (db : b.Db)
      (next : Bool × b.Db → Outcome (Bool × b.Db))
      → TakesAll o
      → is_count w ≡ true
      → after_entry b s o (entry w e.spamcount e.goodcount date) (true, db) next
        ≡ next (true, with_token w e date db)
  unfolding after_entry
  after_lem o w e date db next p c = rw (entry_lem o w e date db p c, after_entry) refl

  -- A line of a dump adds its token.
  line_lem :
      (o : Setup) (n : ℕ) (w : Word) (e : Dsv) (rest : Bytes) (db : b.Db)
      → TakesAll o
      → Loadable o (w, e)
      → load_lines b s o (suc n) (dump_line w e ++ rest) (true, db)
        ≡ load_lines b s o n rest
            (true, with_token w e (if e.date == 0 then s.today else e.date) db)
  unfolding load_lines
  line_lem o n w e rest db p l =
      let (got, (str, pos)) =
        whole_line (dump_line w e) (dump_body w e) rest (dump_line-dump_body w e l.plain)
          (dump_body-IsLine w e l.plain) l.fits_line in
      rw
        (
          got,
          str,
          pos,
          parse_line-dump_line o s.today w e l.filled l.plain l.fits_token l.spam_int l.good_int
              l.date_int,
        )
        (after_lem o w e _ db _ p l.counted)

  add_value-FitsU32 : (e v : Dsv) → FitsU32 (add_value e v)
  unfolding add_value
  add_value-FitsU32 e v = omega arith

  -- The counts of a word after a token was added.
  added :
      (w : Word) (e : Dsv) (date : ℕ) (db : b.Db) (u : Word)
      → SameCounts
          (value_of b s h (with_token w e date db) u)
          (if same_word w u then add_value e (value_of b s h db u) else value_of b s h db u)
  added w e date db u =
      let s' = on_day s date in
      let val = add_value e (value_of b s' h db w) in
      let r = written b s' h db w val u (add_value-FitsU32 e (value_of b s' h db w)) in
      let back = value_of-day date (ds_write b s' db w val).2 u in
      let old = value_of-day date db in
      let r' =
        subst (λ x. SameCounts x (if same_word w u then val else value_of b s' h db u)) back r in
      choose (same_word w u) (value_of b s h (with_token w e date db) u) val
        (add_value e (value_of b s h db u)) (value_of b s' h db u) (value_of b s h db u) r'
        (λ k. ap (add_value e) (old w ∙ ap (value_of b s h db) (same_word_sound w u k))) (old u)

  -- A load that ends with success.
  pub record Loads (o : Setup) (items : List (Word × Dsv)) (db : b.Db) (run : Outcome (Bool × b.Db))
      : Type 0 where
    pub after : b.Db
    pub ends : run ≡ done (true, after)
    pub counts :
        (u : Word) → SameCounts (value_of b s h after u) (loaded items u (value_of b s h db u))

  end_lem : (o : Setup) (n : ℕ) (st : Bool × b.Db) → load_lines b s o (suc n) [] st ≡ done st
  unfolding load_lines fgets_loop c_string
  end_lem o n st = refl

  lines-Loads :
      (o : Setup) (items : List (Word × Dsv)) (n : ℕ) (db : b.Db)
      → TakesAll o
      → All (Loadable o) items
      → length items < n
      → Loads o items db (load_lines b s o n (dump_wordlist o items) (true, db))
  unfolding dump_wordlist loaded
  lines-Loads o items zero db p l f = absurd (omega arith)
  lines-Loads o [] (suc n) db p l f = record {
    after = db;
    ends = end_lem o n (true, db);
    counts = λ u. (refl, refl);
  }
  lines-Loads o ((w, e) ∷ items) (suc n) db p l f =
      let date = if e.date == 0 then s.today else e.date in
      let db1 = with_token w e date db in
      let r = lines-Loads o items n db1 p l.1 (omega arith) in
      record {
        after = r.after;
        ends =
            ap (λ t. load_lines b s o (suc n) (t ++ dump_wordlist o items) (true, db))
              (hook_lem o w e p)
            ∙ line_lem o n w e (dump_wordlist o items) db p l.0
            ∙ r.ends;
        counts = λ u.
            let c = loaded_congr items u _ _ (added w e date db u) in
            let d = r.counts u in (d.0 ∙ c.0, d.1 ∙ c.1);
      }

-- The calls around the load succeed, and leave the data alone.
pub record Commits (b : Backend) (h : Healthy b) (txn : Txn b.Db) : Type 0 where
  pub begin_ok : (db : b.Db) → (b.txn_begin db).0 ≡ false
  pub begin_contents : (db : b.Db) (w : Word) → h.contents (b.txn_begin db).1 w ≡ h.contents db w
  pub commit_ok : (db : b.Db) → (txn.commit db).0 ≡ true
  pub commit_contents : (db : b.Db) (w : Word) → h.contents (txn.commit db).1 w ≡ h.contents db w

module _ (b : Backend) (s : Settings) (h : Healthy b) (txn : Txn b.Db) (k : Commits b h txn) where
  same_value :
      (db db' : b.Db) (u : Word)
      → h.contents db u ≡ h.contents db' u
      → value_of b s h db u ≡ value_of b s h db' u
  unfolding value_of
  same_value db db' u e = ap (from_contents s) e

  committed :
      (o : Setup) (text : Bytes) (db after : b.Db)
      → load_lines b s o (suc (length text)) text (true, (b.txn_begin db).1) ≡ done (true, after)
      → load_wordlist b s o txn text db ≡ done (0, (txn.commit after).1)
  unfolding load_wordlist
  committed o text db after e = rw (k.begin_ok db, e, k.commit_ok after) refl

  -- With neither maintenance nor the replacement of bytes that are not ASCII, the load of a dump
  -- ends with success, and adds to each word of the database the counts of its lines, modulo
  -- 2 ^ 32, if each token of the dump can be read back: it is not empty, has no space and no NUL, is
  -- not too long for the options and the buffer, is no reserved word but the two with counts, and an
  -- int can hold its numbers. The calls around the load succeed, and leave the data alone.
  pub load_wordlist-dump_wordlist :
      (o : Setup) (items : List (Word × Dsv)) (db : b.Db)
      → TakesAll o
      → All (Loadable o) items
      → (db' : b.Db) × (load_wordlist b s o txn (dump_wordlist o items) db ≡ done (0, db'))
        × ((u : Word) → SameCounts (value_of b s h db' u) (loaded items u (value_of b s h db u)))
  load_wordlist-dump_wordlist o items db p l =
      let text = dump_wordlist o items in
      let db1 = (b.txn_begin db).1 in
      let n = length-dump_wordlist o items p l in
      let r = lines-Loads b s h o items (suc (length text)) db1 p l (omega (arith, n)) in
      (
        (txn.commit r.after).1,
        committed o text db r.after r.ends,
        λ u.
            subst (λ v. SameCounts v (loaded items u (value_of b s h db u)))
              (sym (same_value (txn.commit r.after).1 r.after u (k.commit_contents r.after u)))
              (subst (λ v. SameCounts (value_of b s h r.after u) (loaded items u v))
                (same_value db1 db u (k.begin_contents db u)) (r.counts u)),
      )
