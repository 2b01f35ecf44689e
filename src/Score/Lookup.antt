-- ===== src/Score/Lookup.antt =====
-- What `lookup` and `lookup_words` of bogofilter/src/score.c count on databases whose calls succeed.
use bogofilter.Prelude.{
  All, Bool, Bool-cases, List, Option, Option-cases, [], ap, arith, false, if◌then◌else◌, inl, inr,
  ltb, none, refl, some, subst, sym, true, ℕ, ◌%◌, ◌&&◌, ◌+◌, ◌<◌, ◌^◌, ◌||◌, ◌∙◌, ◌∷◌, ◌≡◌, ◌≤◌,
}
use bogofilter.Word.{Word}
use bogofilter.WordHash.{WordCnts}
use bogofilter.Datastore.{Dbv, Backend, Settings, done, Dsv}
use bogofilter.Datastore.Healthy.{Healthy, ds_read-none, ds_read-some, value_of, from_contents}
use bogofilter.WordLists.{Wordlist, int_zero}
use bogofilter.WordLists.Queue.{Ascending}
use bogofilter.Score.{
  Looked, look_at, put_back, looked_up, lookup_lists, is_ignore, add_counts, lookup,
}

abbrev pub CntsFit : WordCnts → Type 0
CntsFit c = (c.good < 2 ^ 32) × (c.bad < 2 ^ 32) × (c.msgs_good < 2 ^ 32) × (c.msgs_bad < 2 ^ 32)

is_there : {A : Type 0} → Option A → Bool
is_there none = false
is_there (some x) = true

total : {A : Type 0} → (A → ℕ) → List A → ℕ
total f [] = 0
total f (x ∷ l) = f x + total f l

module _ (b : Backend) (s : Settings) (h : Healthy b) (token : Word) where
  open b use {Db}

  -- An ignore list that has the token.
  hits : Wordlist Db → Bool
  hits l = is_ignore l.type && is_there (h.contents l.dsh token)

  any_hit : List (Wordlist Db) → Bool
  any_hit [] = false
  any_hit (l ∷ lists) = hits l || any_hit lists

  -- The lists in front of the first that hits.
  counted : List (Wordlist Db) → List (Wordlist Db)
  counted [] = []
  counted (l ∷ lists) = if hits l then [] else l ∷ counted lists

  -- The counts of the token after a look-up in `lists`: those of the lists in front of the first
  -- ignore list that has it, and none of the word's own if there is one.
  pub after_lookup : List (Wordlist Db) → WordCnts → WordCnts
  after_lookup lists c =
      let ls = counted lists in
      let hit = any_hit lists in
      record {
        good =
            if hit
            then 0
            else (c.good + total (λ l. (value_of b s h l.dsh token).goodcount) ls) % 2 ^ 32;
        bad =
            if hit
            then 0
            else (c.bad + total (λ l. (value_of b s h l.dsh token).spamcount) ls) % 2 ^ 32;
        msgs_good = (c.msgs_good + total (λ l. l.msgs_good) ls) % 2 ^ 32;
        msgs_bad = (c.msgs_bad + total (λ l. l.msgs_spam) ls) % 2 ^ 32;
      }

  -- The lists that are searched: none, if the first has a negative precedence.
  pub searched : List (Wordlist Db) → List (Wordlist Db)
  searched [] = []
  searched (l ∷ lists) = if ltb l.override int_zero then [] else l ∷ lists

  after_lookup_nil : (c : WordCnts) → CntsFit c → after_lookup [] c ≡ c
  unfolding after_lookup total counted any_hit
  after_lookup_nil c (g, p, q, r) i = record {
    good = e c.good g i;
    bad = e c.bad p i;
    msgs_good = e c.msgs_good q i;
    msgs_bad = e c.msgs_bad r i;
  }
    where
      e : (n : ℕ) → n < 2 ^ 32 → (n + 0) % 2 ^ 32 ≡ n
      e n lt = omega arith

  after_lookup_hit :
      (l : Wordlist Db) (lists : List (Wordlist Db)) (c : WordCnts)
      → CntsFit c
      → hits l ≡ true
      → after_lookup (l ∷ lists) c ≡ record c { good = 0; bad = 0 }
  unfolding after_lookup total counted any_hit
  after_lookup_hit l lists c f e = ground arith

  after_lookup_step :
      (l : Wordlist Db) (lists : List (Wordlist Db)) (c : WordCnts)
      → hits l ≡ false
      → after_lookup (l ∷ lists) c
        ≡ after_lookup lists (add_counts c (value_of b s h l.dsh token) l)
  unfolding after_lookup total counted any_hit add_counts
  after_lookup_step l lists c e = ground arith

  add_counts-CntsFit : (c : WordCnts) (v : Dsv) (l : Wordlist Db) → CntsFit (add_counts c v l)
  unfolding add_counts
  add_counts-CntsFit c v l = (omega arith, omega arith, omega arith, omega arith)

  module _ (fuel version : ℕ) where
    carry :
        (l : Wordlist Db) (lists : List (Wordlist Db)) (c c' : WordCnts)
        (next : WordCnts → Looked Db) (o : Option Dbv)
        → h.contents l.dsh token ≡ o
        → (next (add_counts c (value_of b s h l.dsh token) l)
            ≡ done (looked_up, c', version, lists))
        → put_back l (next (add_counts c (from_contents s o) l))
          ≡ done (looked_up, c', version, l ∷ lists)
    unfolding put_back value_of
    carry l lists c c' next o e ih =
        ap (λ x. put_back l (next (add_counts c (from_contents s x) l))) (sym e)
        ∙ ap (put_back l) ih

    look_at_lem :
        (l : Wordlist Db) (lists : List (Wordlist Db)) (c : WordCnts) (next : WordCnts → Looked Db)
        → CntsFit c
        → (next (add_counts c (value_of b s h l.dsh token) l)
            ≡ done (
              looked_up,
              after_lookup lists (add_counts c (value_of b s h l.dsh token) l),
              version,
              lists,
            ))
        → look_at b s fuel version token lists next l c
          ≡ done (looked_up, after_lookup (l ∷ lists) c, version, l ∷ lists)
    unfolding look_at from_contents hits is_there
    look_at_lem l lists c next f ih = elim (Option-cases (h.contents l.dsh token)) [
      | inl e ↦
          let miss : hits l ≡ false = ground arith in
          let r = ds_read-none b s h l.dsh token e in
          rw (ap (λ x. x.0) r, look_at)
            (rw (ap (λ x. x.1) r, after_lookup_step l lists c miss)
              (carry l lists c (after_lookup lists (add_counts c (value_of b s h l.dsh token) l))
                next none e ih))
      | inr (ex, e) ↦
          let r = ds_read-some b s h l.dsh token ex e in
          elim (Bool-cases (is_ignore l.type)) [
            | inl k ↦
                let hit : hits l ≡ true = ground arith in
                rw (ap (λ x. x.0) r, look_at)
                  (rw (ap (λ x. x.1) r, k, after_lookup_hit l lists c f hit) refl)
            | inr k ↦
                let miss : hits l ≡ false = ground arith in
                rw (ap (λ x. x.0) r, look_at)
                  (rw (ap (λ x. x.1) r, k, after_lookup_step l lists c miss)
                    (carry l lists c
                      (after_lookup lists (add_counts c (value_of b s h l.dsh token) l)) next
                      (some ex) e ih))
          ]
    ]

    pub lookup_lists_lem :
        (lists : List (Wordlist Db)) (override : ℕ) (c : WordCnts)
        → CntsFit c
        → All (λ l. override ≤ l.override) lists
        → Ascending lists
        → lookup_lists b s fuel version token lists override c
          ≡ done (looked_up, after_lookup lists c, version, lists)
    unfolding lookup_lists
    lookup_lists_lem [] override c f le a =
        ap (λ x. done (looked_up, x, version, [])) (sym (after_lookup_nil c f))
    lookup_lists_lem (l ∷ lists) override c f (le, les) (la, a) =
        let v = value_of b s h l.dsh token in
        let ih =
          lookup_lists_lem lists l.override (add_counts c v l) (add_counts-CntsFit c v l) la a in
        let go : ltb l.override override ≡ false = ground arith in
        rw go (look_at_lem l lists c (lookup_lists b s fuel version token lists l.override) f ih)

    All-override :
        (k : ℕ) (l : Wordlist Db) (lists : List (Wordlist Db))
        → k ≤ l.override
        → All (λ q. l.override ≤ q.override) lists
        → All (λ q. k ≤ q.override) lists
    All-override k l [] le a = tt
    All-override k l (q ∷ lists) le (lq, a) = (omega arith, All-override k l lists le a)

    -- On a queue in the order of precedence, with databases whose calls succeed and counts that fit 32
    -- bits, a look-up takes the counts of all lists in front of the
    -- first ignore list that has the token, on top of the counts that the word had, and no counts of
    -- the word if there is such an ignore list; with a first list of negative precedence it searches
    -- none. The queue stays as it is, and no list is left out for its precedence.
    pub lookup-after_lookup :
        (c : WordCnts) (lists : List (Wordlist Db))
        → CntsFit c
        → Ascending lists
        → lookup b s fuel version token c lists
          ≡ done (
            looked_up,
            after_lookup (searched lists) (record c { msgs_good = 0; msgs_bad = 0 }),
            version,
            lists,
          )
    unfolding lookup searched lookup_lists
    lookup-after_lookup c [] f a =
        lookup_lists_lem [] int_zero _ (f.0, f.1, omega arith, omega arith) tt tt
    lookup-after_lookup c (l ∷ lists) f (la, a) =
        let c0 : WordCnts = record c { msgs_good = 0; msgs_bad = 0 } in
        let f0 : CntsFit c0 = (f.0, f.1, omega arith, omega arith) in
        elim (Bool-cases (ltb l.override int_zero)) [
          | inl e ↦
              rw e
                (ap (λ x. done (looked_up, x, version, l ∷ lists)) (sym (after_lookup_nil c0 f0)))
          | inr e ↦
              let le : int_zero ≤ l.override = ground arith in
              subst
                (λ t.
                  lookup b s fuel version token c (l ∷ lists)
                  ≡ done (
                    looked_up,
                    after_lookup (if t then [] else l ∷ lists) c0,
                    version,
                    l ∷ lists,
                  ))
                (sym e)
                (lookup_lists_lem (l ∷ lists) int_zero c0 f0
                  (le, All-override int_zero l lists le la) (la, a))
        ]
