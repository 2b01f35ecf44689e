-- ===== src/Score/Boundary.antt =====
-- `find_scoring_boundary` of bogofilter/src/score.c, outside of bogotune. The deviation of a node's
-- score from 0.5 is of a type `R` with a comparison, that of the doubles without NaN. A node is
-- marked with its field `used`. The score that the sort reads is the one that `calc_prob` gave for the
-- same counts, so both loops have one `dev`.
use bogofilter.Prelude.{
  All, Bool, List, Option, Ordering, [], ap, false, if◌then◌else◌, map, max, refl, some, subst, suc,
  sym, take, true, zero, ℕ, ◌==◌, ◌>>=◌, ◌∙◌, ◌∷◌, ◌≡◌, ◌≢◌,
}
use bogofilter.ListSort.{listsort}
use bogofilter.ListSort.Merge.{IsOrder, Le, Sorted}
use bogofilter.ListSort.Sorted.{IsStableSort, listsort-IsStableSort}
use bogofilter.Word.Order.{flip}

abbrev not_less : Ordering → Bool
not_less Ordering.lt = false
not_less Ordering.eq = true
not_less Ordering.gt = true

not_less-flip : (c : Ordering) → flip c ≢ Ordering.gt → not_less c ≡ true
not_less-flip Ordering.lt h = absurd (h refl)
not_less-flip Ordering.eq h = refl
not_less-flip Ordering.gt h = refl

not_less_same : (c : Ordering) → c ≡ flip c → not_less c ≡ true
not_less_same Ordering.lt e = cc
not_less_same Ordering.eq e = refl
not_less_same Ordering.gt e = refl

module _ {A R : Type 0} (cmp : R → R → Ordering) (dev : A → R) where
  -- `compare_hashnode_t`: the greater deviation comes first.
  pub compare_deviations : A → A → Ordering
  compare_deviations x y = flip (cmp (dev x) (dev y))

  -- `d >= e`
  pub at_least : R → R → Bool
  at_least d e = not_less (cmp d e)

  -- The loop over the sorted nodes: the marked nodes and `min_prob`.
  pub mark_nodes : List A → ℕ → R → List (A × Bool) × R
  unfolding at_least
  mark_nodes [] count min_prob = ([], min_prob)
  mark_nodes (x ∷ l) zero min_prob =
      let (marked, m) = mark_nodes l zero min_prob in ((x, at_least (dev x) min_prob) ∷ marked, m)
  mark_nodes (x ∷ l) (suc count) min_prob =
      let (marked, m) = mark_nodes l count (dev x) in ((x, true) ∷ marked, m)

  -- `one` is 1.0. A limit of 0 is none.
  unfoldable pub find_scoring_boundary : R → R → ℕ → ℕ → ℕ → List A → Option (List (A × Bool) × R)
  unfolding mark_nodes compare_deviations
  find_scoring_boundary one min_dev token_count_min token_count_max token_count_fix nodes =
      listsort compare_deviations nodes >>= λ l. some (
        mark_nodes l (max token_count_fix (max token_count_min token_count_max))
          (if token_count_max == 0 then min_dev else one))

  module _ (o : IsOrder cmp) where
    flipped : (x y : A) → compare_deviations x y ≡ cmp (dev y) (dev x)
    unfolding compare_deviations
    flipped x y = sym (o.flips (dev x) (dev y))

    pub compare_deviations-IsOrder : IsOrder compare_deviations
    compare_deviations-IsOrder = record {
      flips = λ a b. rw (flipped a b, flipped b a) (o.flips (dev b) (dev a));
      trans = λ a b c h k.
          rw (flipped a c)
            (o.trans (dev c) (dev b) (dev a) (rw (flipped b c) at k) (rw (flipped a b) at h));
    }

    at_least-Le : (x y : A) → Le compare_deviations x y → at_least (dev x) (dev y) ≡ true
    unfolding at_least compare_deviations
    at_least-Le x y h = not_less-flip (cmp (dev x) (dev y)) h

    All-at_least :
        (x : A) (l : List A)
        → All (Le compare_deviations x) l
        → All (λ y. at_least (dev x) (dev y) ≡ true) l
    All-at_least x [] h = tt
    All-at_least x (y ∷ l) (hy, h) = (at_least-Le x y hy, All-at_least x l h)

    at_least_refl : (d : R) → at_least d d ≡ true
    unfolding at_least
    at_least_refl d = not_less_same (cmp d d) (o.flips d d)

    boundary_below :
        (l : List A) (count : ℕ) (m d : R)
        → All (λ y. at_least d (dev y) ≡ true) l
        → at_least d m ≡ true
        → at_least d (mark_nodes l count m).1 ≡ true
    unfolding mark_nodes
    boundary_below [] count m d a h = h
    boundary_below (x ∷ l) zero m d (ax, a) h = boundary_below l zero m d a h
    boundary_below (x ∷ l) (suc count) m d (ax, a) h = boundary_below l count (dev x) d a ax

    boundary_stays : (l : List A) (m : R) → (mark_nodes l zero m).1 ≡ m
    unfolding mark_nodes
    boundary_stays [] m = refl
    boundary_stays (x ∷ l) m = boundary_stays l m

    -- Each mark is the test against the boundary that is returned in the end.
    marks_lem :
        (l : List A) (count : ℕ) (m : R)
        → Sorted compare_deviations l
        → All (λ p. p.1 ≡ at_least (dev p.0) (mark_nodes l count m).1) (mark_nodes l count m).0
    unfolding mark_nodes
    marks_lem [] count m s = tt
    marks_lem (x ∷ l) zero m (sx, s) =
        (ap (at_least (dev x)) (sym (boundary_stays l m)), marks_lem l zero m s)
    marks_lem (x ∷ l) (suc count) m (sx, s) = (
      sym (boundary_below l count (dev x) (dev x) (All-at_least x l sx) (at_least_refl (dev x))),
      marks_lem l count (dev x) s,
    )

    nodes_lem : (l : List A) (count : ℕ) (m : R) → map (λ p. p.0) (mark_nodes l count m).0 ≡ l
    unfolding mark_nodes
    nodes_lem [] count m = refl
    nodes_lem (x ∷ l) zero m = ap (◌∷◌ x) (nodes_lem l zero m)
    nodes_lem (x ∷ l) (suc count) m = ap (◌∷◌ x) (nodes_lem l count (dev x))

    first_lem :
        (l : List A) (count : ℕ) (m : R)
        → All (λ p. p.1 ≡ true) (take count (mark_nodes l count m).0)
    unfolding mark_nodes
    first_lem [] zero m = tt
    first_lem [] (suc count) m = tt
    first_lem (x ∷ l) zero m = tt
    first_lem (x ∷ l) (suc count) m = (refl, first_lem l count (dev x))

    -- The deviation of the last node, or the given one if there is none.
    pub last_dev : R → List A → R
    last_dev d [] = d
    last_dev d (x ∷ l) = last_dev (dev x) l

    boundary_lem :
        (l : List A) (count : ℕ) (m : R) → (mark_nodes l count m).1 ≡ last_dev m (take count l)
    unfolding mark_nodes last_dev
    boundary_lem [] zero m = refl
    boundary_lem [] (suc count) m = refl
    boundary_lem (x ∷ l) zero m = boundary_lem l zero m
    boundary_lem (x ∷ l) (suc count) m = boundary_lem l count (dev x)

    -- The nodes in the order of their deviations with their marks, and the boundary.
    pub record Marked (nodes : List A) (count : ℕ) (start : R) (r : Option (List (A × Bool) × R))
        : Type 0 where
      pub marked : List (A × Bool)
      pub boundary : R
      pub result : r ≡ some (marked, boundary)
      pub sorts :
          IsStableSort compare_deviations compare_deviations-IsOrder nodes (map (λ p. p.0) marked)
      pub at_limit : boundary ≡ last_dev start (take count (map (λ p. p.0) marked))
      pub enough : All (λ p. p.1 ≡ true) (take count marked)
      pub by_boundary : All (λ p. p.1 ≡ at_least (dev p.0) boundary) marked

    -- For a comparison that is an order, the boundary is always found. The nodes are sorted by
    -- descending deviation. The boundary is the deviation of the last of the first nodes, as many
    -- as the greatest of the three limits, or, if there are none, the least deviation when the
    -- greatest count is 0 and 1.0 otherwise. These first nodes are used, and a node is used exactly
    -- if its deviation is at least the boundary, so nodes behind the limit are used too if they are
    -- level with the last one in front of it.
    pub find_scoring_boundary-Marked :
        (one min_dev : R) (token_count_min token_count_max token_count_fix : ℕ) (nodes : List A)
        → Marked nodes
            (max token_count_fix (max token_count_min token_count_max))
            (if token_count_max == 0 then min_dev else one)
            (find_scoring_boundary one min_dev token_count_min token_count_max token_count_fix
              nodes)
    unfolding find_scoring_boundary
    find_scoring_boundary-Marked one min_dev token_count_min token_count_max token_count_fix nodes =
        let (z, e, st) =
          listsort-IsStableSort compare_deviations compare_deviations-IsOrder nodes in
        let count = max token_count_fix (max token_count_min token_count_max) in
        let start = if token_count_max == 0 then min_dev else one in
        record {
          marked = (mark_nodes z count start).0;
          boundary = (mark_nodes z count start).1;
          result = rw e refl;
          sorts =
              subst (IsStableSort compare_deviations compare_deviations-IsOrder nodes)
                (sym (nodes_lem z count start)) st;
          at_limit =
              boundary_lem z count start
              ∙ ap (λ l. last_dev start (take count l)) (sym (nodes_lem z count start));
          enough = first_lem z count start;
          by_boundary = marks_lem z count start st.sorted;
        }
