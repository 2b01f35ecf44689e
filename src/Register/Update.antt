-- ===== src/Register/Update.antt =====
-- What bogofilter/src/register.c leaves in a database whose calls succeed.
use bogofilter.Datastore.Healthy.{
  Healthy, SameCounts, FitsU32, value_of, from_contents, ds_read-none, ds_read-some,
}
use bogofilter.Prelude.{
  Bool-cases, List, Option-cases, [], ap, arith, if◌then◌else◌, inl, inr, refl, some, ℕ, ◌+◌, ◌<◌,
  ◌^◌, ◌∙◌, ◌∷◌, ◌≡◌,
}
use bogofilter.Word.{Word}
use bogofilter.WordHash.{same_word}
use bogofilter.Datastore.{
  Backend, Settings, Status, ok, Dsv, convert_external_to_internal, convert_internal_to_external,
  ds_read, ds_write,
}
use bogofilter.Datastore.RoundTrip.{dated, convert_counts}
use bogofilter.Register.{
  after_read, after_write, Sh, ix_spam, ix_undf, count_at, update_counts, update_msgs, Pass,
  register_pass,
}

pub update_counts_congr :
    (incr decr : Sh) (freq : ℕ) (v v' : Dsv)
    → SameCounts v v'
    → SameCounts (update_counts incr decr freq v) (update_counts incr decr freq v')
unfolding update_counts
update_counts_congr ix_spam ix_spam freq v v' h = ground arith
update_counts_congr incr decr freq v v' h = ground arith

pub update_counts-FitsU32 :
    (incr decr : Sh) (freq : ℕ) (v : Dsv) → FitsU32 v → FitsU32 (update_counts incr decr freq v)
unfolding update_counts
update_counts-FitsU32 ix_spam ix_spam freq v h = ground arith
update_counts-FitsU32 incr decr freq v h = ground arith

pub update_msgs_congr :
    (incr decr : Sh) (m : ℕ) (v v' : Dsv)
    → SameCounts v v'
    → SameCounts (update_msgs incr decr m v) (update_msgs incr decr m v')
unfolding update_msgs
update_msgs_congr ix_spam ix_spam m v v' h = ground arith
update_msgs_congr incr decr m v v' h = ground arith

pub update_msgs-FitsU32 :
    (incr decr : Sh) (m : ℕ) (v : Dsv) → FitsU32 v → FitsU32 (update_msgs incr decr m v)
unfolding update_msgs
update_msgs-FitsU32 ix_spam ix_spam m v h = ground arith
update_msgs-FitsU32 incr decr m v h = ground arith

-- Words that are added and then taken out again have the counts that they had, if nothing
-- overflowed.
pub update_counts_undo :
    (i : Sh) (freq : ℕ) (v : Dsv)
    → count_at i v + freq < 2 ^ 32
    → update_counts ix_undf i freq (update_counts i ix_undf freq v) ≡ v
unfolding update_counts
update_counts_undo ix_spam freq v h = ground arith
update_counts_undo i freq v h = ground arith

dated-SameCounts : (s : Settings) (v : Dsv) → SameCounts (dated s v) v
dated-SameCounts s v = ground arith

pub after_write_ok :
    {Db : Type 0} (r : Status × Dsv × Db) (next : Db → Pass Db)
    → r.0 ≡ ok
    → after_write r next ≡ next r.2
after_write_ok (r, v, d) next e =
    ap (λ x. after_write (x, v, d) next) e ∙ (unfold after_write in refl)

-- The counts of a word after a pass over `words`, from the value that it had.
unfoldable pub registered : Sh → Sh → List (Word × ℕ) → Word → Dsv → Dsv
registered incr decr [] u v = v
registered incr decr ((w, freq) ∷ words) u v =
    registered incr decr words u (if same_word w u then update_counts incr decr freq v else v)

module _ (b : Backend) (s : Settings) (h : Healthy b) where
  pub written :
      (db : b.Db) (w : Word) (val : Dsv) (u : Word)
      → FitsU32 val
      → SameCounts
          (value_of b s h (ds_write b s db w val).2 u)
          (if same_word w u then val else value_of b s h db u)
  unfolding value_of ds_write from_contents
  written db w val u f =
      let v' = dated s val in
      let ex = convert_internal_to_external s v' in
      let same = dated-SameCounts s val in
      let (p, q) = convert_counts s v' (omega arith) (omega arith) in
      let e = ap (from_contents s) (h.set_contents db w ex u) in
      elim (Bool-cases (same_word w u)) [
        | inl k ↦
            let e' : value_of b s h (ds_write b s db w val).2 u
                ≡ convert_external_to_internal s ex =
              e ∙ ap (λ t. from_contents s (if t then some ex else h.contents db u)) k in
            rw (e', k) (p ∙ same.0, q ∙ same.1)
        | inr k ↦
            let e' : value_of b s h (ds_write b s db w val).2 u ≡ value_of b s h db u =
              e ∙ ap (λ t. from_contents s (if t then some ex else h.contents db u)) k in
            rw (e', k) (refl, refl)
      ]

  pub write_ok : (db : b.Db) (w : Word) (val : Dsv) → (ds_write b s db w val).0 ≡ ok
  unfolding ds_write
  write_ok db w val = h.set_ok db w (convert_internal_to_external s (dated s val))

  pub read_lem :
      (db : b.Db) (w : Word) (next : Dsv → b.Db → Pass b.Db)
      → after_read (ds_read b s db w) next ≡ next (value_of b s h db w) db
  unfolding after_read value_of from_contents
  read_lem db w next = elim (Option-cases (h.contents db w)) [
    | inl e ↦ rw (e, ds_read-none b s h db w e) refl
    | inr (ex, e) ↦ rw (e, ds_read-some b s h db w ex e) refl
  ]

  pub pass_step :
      (incr decr : Sh) (msgcount : ℕ) (w : Word) (freq : ℕ) (words : List (Word × ℕ)) (db : b.Db)
      → register_pass b s incr decr msgcount ((w, freq) ∷ words) db
        ≡ register_pass b s incr decr msgcount words
            (ds_write b s db w (update_counts incr decr freq (value_of b s h db w))).2
  unfolding register_pass
  pass_step incr decr msgcount w freq words db =
      read_lem db w _
      ∙ after_write_ok _ _ (write_ok db w (update_counts incr decr freq (value_of b s h db w)))
