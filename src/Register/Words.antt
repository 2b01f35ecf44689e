-- ===== src/Register/Words.antt =====
-- The whole of `register_words` of bogofilter/src/register.c on a database whose calls succeed.
use bogofilter.Datastore.Healthy.{Healthy, SameCounts, value_of, value_of-FitsU32}
use bogofilter.Prelude.{
  Bool, Bool-cases, List, [], ap, false, if◌then◌else◌, inl, inr, refl, subst, suc, true, ℕ, ◌==◌,
  ◌∙◌, ◌∷◌, ◌≡◌,
}
use bogofilter.Word.{Word}
use bogofilter.WordHash.{same_word}
use bogofilter.Datastore.{
  Backend, Settings, Dsv, Outcome, done, msg_count_tok, ds_get_msgcounts, ds_set_msgcounts,
  ds_write,
}
use bogofilter.Register.{
  Sh, update_counts, update_msgs, finished, register_msgs, register_pass, register_loop,
  register_words,
}
use bogofilter.Register.Tally.{
  after_run, after_tokens, update_msgs-tallied, registered-after_tokens,
}
use bogofilter.Register.Update.{
  update_counts_congr, update_counts-FitsU32, update_msgs_congr, update_msgs-FitsU32,
  after_write_ok, registered, written, write_ok, read_lem, pass_step,
}
use bogofilter.WordHash.Bins.{same_word_sound, same_word_refl}

same_trans : (x y z : Dsv) → SameCounts x y → SameCounts y z → SameCounts x z
same_trans x y z p q = (p.0 ∙ q.0, p.1 ∙ q.1)

same_counts_ap : (f : Word → Dsv) (w u : Word) → w ≡ u → SameCounts (f w) (f u)
same_counts_ap f w u e = (λ i. (f (e i)).spamcount, λ i. (f (e i)).goodcount)

choose :
    (t : Bool) (x : Dsv) (y y' z : Dsv)
    → SameCounts x (if t then y else z)
    → (t ≡ true → SameCounts y y')
    → SameCounts x (if t then y' else z)
choose true x y y' z h e = same_trans x y y' h (e refl)
choose false x y y' z h e = h

choose_true :
    (t : Bool) (x y z : Dsv) → t ≡ true → SameCounts x (if t then y else z) → SameCounts x y
choose_true t x y z e h = subst (λ t'. SameCounts x (if t' then y else z)) e h

-- The same, with the updates of the code.
pub run_values : Sh → Sh → ℕ → List (Word × ℕ) → Word → Dsv → Dsv
run_values incr decr msgcount words u v =
    let r = registered incr decr words u v in
    if same_word msg_count_tok u then update_msgs incr decr msgcount r else r

registered_congr :
    (incr decr : Sh) (words : List (Word × ℕ)) (u : Word) (v v' : Dsv)
    → SameCounts v v'
    → SameCounts (registered incr decr words u v) (registered incr decr words u v')
unfolding registered
registered_congr incr decr [] u v v' h = h
registered_congr incr decr ((w, freq) ∷ words) u v v' h =
    registered_congr incr decr words u _ _ (elim (Bool-cases (same_word w u)) [
      | inl k ↦ rw k (update_counts_congr incr decr freq v v' h)
      | inr k ↦ rw k h
    ])

run_values_congr :
    (incr decr : Sh) (m : ℕ) (words : List (Word × ℕ)) (u : Word) (v v' : Dsv)
    → SameCounts v v'
    → SameCounts (run_values incr decr m words u v) (run_values incr decr m words u v')
unfolding run_values
run_values_congr incr decr m words u v v' h =
    let r = registered_congr incr decr words u v v' h in
    elim (Bool-cases (same_word msg_count_tok u)) [
      | inl k ↦ rw k (update_msgs_congr incr decr m _ _ r)
      | inr k ↦ rw k r
    ]

run_values-after_run :
    (incr decr : Sh) (m : ℕ) (words : List (Word × ℕ)) (u : Word) (v : Dsv)
    → run_values incr decr m words u v ≡ after_run incr decr m words u v
unfolding run_values after_run
run_values-after_run incr decr m words u v =
    ap (λ x. if same_word msg_count_tok u then update_msgs incr decr m x else x)
      (registered-after_tokens incr decr words u v)
    ∙ ap (λ x. if same_word msg_count_tok u then x else after_tokens incr decr words u v)
        (update_msgs-tallied incr decr m (after_tokens incr decr words u v))

module _ (b : Backend) (s : Settings) (h : Healthy b) where
  -- A pass that ends, with the database and the counts of messages that it leaves.
  pub record Ends (incr decr : Sh) (m : ℕ) (words : List (Word × ℕ)) (db : b.Db) : Type 0 where
    pub after : b.Db
    pub saved : Dsv
    pub ends : register_pass b s incr decr m words db ≡ finished after saved
    pub saved_counts : SameCounts (value_of b s h after msg_count_tok) saved
    pub counts :
        (u : Word)
        → SameCounts (value_of b s h after u) (run_values incr decr m words u (value_of b s h db u))

  -- A run that ends so.
  pub record Registered (incr decr : Sh) (m : ℕ) (words : List (Word × ℕ)) (db : b.Db)
      (run : Outcome (b.Db × Dsv)) : Type 0 where
    pub after : b.Db
    pub saved : Dsv
    pub ends : run ≡ done (after, saved)
    pub saved_counts : SameCounts (value_of b s h after msg_count_tok) saved
    pub counts :
        (u : Word)
        → SameCounts (value_of b s h after u) (after_run incr decr m words u (value_of b s h db u))

  msgs_step :
      (incr decr : Sh) (m : ℕ) (db : b.Db)
      → register_pass b s incr decr m [] db
        ≡ finished
            (ds_set_msgcounts b s db (update_msgs incr decr m (value_of b s h db msg_count_tok))).2
            (update_msgs incr decr m (value_of b s h db msg_count_tok))
  unfolding register_pass register_msgs ds_get_msgcounts ds_set_msgcounts
  msgs_step incr decr m db =
      read_lem b s h db msg_count_tok _ ∙ after_write_ok _ _ (write_ok b s h db msg_count_tok _)

  pass-Ends :
      (incr decr : Sh) (m : ℕ) (words : List (Word × ℕ)) (db : b.Db) → Ends incr decr m words db
  unfolding registered run_values ds_set_msgcounts
  pass-Ends incr decr m [] db =
      let val = update_msgs incr decr m (value_of b s h db msg_count_tok) in
      let dated_val : Dsv = record val { date = s.today } in
      let f = update_msgs-FitsU32 incr decr m _ (value_of-FitsU32 b s h db msg_count_tok) in
      let out = λ (u : Word). written b s h db msg_count_tok dated_val u f in
      record {
        after = (ds_set_msgcounts b s db val).2;
        saved = val;
        ends = msgs_step incr decr m db;
        saved_counts =
            choose_true (same_word msg_count_tok msg_count_tok)
              (value_of b s h (ds_set_msgcounts b s db val).2 msg_count_tok) dated_val
              (value_of b s h db msg_count_tok) (same_word_refl msg_count_tok) (out msg_count_tok);
        counts = λ u.
            choose (same_word msg_count_tok u) (value_of b s h (ds_set_msgcounts b s db val).2 u)
              dated_val (update_msgs incr decr m (value_of b s h db u)) (value_of b s h db u)
              (out u)
              λ k.
                same_counts_ap (λ x. update_msgs incr decr m (value_of b s h db x)) msg_count_tok u
                  (same_word_sound msg_count_tok u k);
      }
  pass-Ends incr decr m ((w, freq) ∷ words) db =
      let val = update_counts incr decr freq (value_of b s h db w) in
      let db1 = (ds_write b s db w val).2 in
      let f = update_counts-FitsU32 incr decr freq _ (value_of-FitsU32 b s h db w) in
      let rest = pass-Ends incr decr m words db1 in
      record {
        after = rest.after;
        saved = rest.saved;
        ends = pass_step b s h incr decr m w freq words db ∙ rest.ends;
        saved_counts = rest.saved_counts;
        counts = λ u.
            let v = value_of b s h db u in
            let v1 = value_of b s h db1 u in
            let new = update_counts incr decr freq v in
            let mid = if same_word w u then new else v in
            same_trans (value_of b s h rest.after u) (run_values incr decr m words u v1)
              (run_values incr decr m words u mid) (rest.counts u)
              (run_values_congr incr decr m words u v1 mid (
                choose (same_word w u) v1 val new v (written b s h db w val u f) λ k.
                  same_counts_ap (λ x. update_counts incr decr freq (value_of b s h db x)) w u
                    (same_word_sound w u k)));
      }

  loop_step :
      (begin : b.Db → Outcome b.Db) (n : ℕ) (incr decr : Sh) (m : ℕ) (words : List (Word × ℕ))
      (db db' : b.Db) (v : Dsv)
      → register_pass b s incr decr m words db ≡ finished db' v
      → register_loop b s begin (suc n) incr decr m words db ≡ done (db', v)
  unfolding register_loop
  loop_step begin n incr decr m words db db' v e = rw (e, register_loop) refl

  -- An update of the word list ends without a retry or an exit when the database's calls succeed,
  -- whatever `begin_wordlist` would do: each key of the database then has the counts of its words
  -- added modulo 2 ^ 32, or taken out down to 0, in their order and on the side that the run adds to
  -- or takes from, the key of the message counts has those updated too, the
  -- other keys keep their counts, and the list's saved message counts are those of the database.
  -- For an empty table no message is counted.
  pub register_words-after_run :
      (begin : b.Db → Outcome b.Db) (incr decr : Sh) (wordcount : ℕ) (words : List (Word × ℕ))
      (msgcount : ℕ) (db : b.Db)
      → Registered incr decr
          (if wordcount == 0 then 0 else msgcount)
          words
          db
          (register_words b s begin incr decr wordcount words msgcount db)
  unfolding register_words
  register_words-after_run begin incr decr wordcount words msgcount db =
      let r = pass-Ends incr decr (if wordcount == 0 then 0 else msgcount) words db in
      record {
        after = r.after;
        saved = r.saved;
        ends =
            loop_step begin 59 incr decr (if wordcount == 0 then 0 else msgcount) words db r.after
              r.saved r.ends;
        saved_counts = r.saved_counts;
        counts = λ u.
            subst (SameCounts (value_of b s h r.after u))
              (run_values-after_run incr decr (if wordcount == 0 then 0 else msgcount) words u
                (value_of b s h db u))
              (r.counts u);
      }
