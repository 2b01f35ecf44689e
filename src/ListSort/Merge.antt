-- ===== src/ListSort/Merge.antt =====
-- What one merge of two runs of bogofilter/src/listsort.c returns.
use mathlib.Core.List.{Perm, perm_middle}
use mathlib.Core.List.Perm
use bogofilter.Prelude.{
  All, List, Ordering, [], append-nil, append_assoc, arith, drop, inl, inr, length, refl, some, suc,
  sym, take, zero, ℕ, ◌++◌, ◌+◌, ◌∷◌, ◌≡◌, ◌≢◌, ◌≤◌, ◌⊎◌,
}
use bogofilter.ListSort.{merge}
use bogofilter.Word.Order.{flip}

-- What the sort relies on of the comparison function: its sign changes with the order of the
-- arguments, and "not greater" is transitive.
pub record IsOrder {ℓ} {A : Type ℓ} (compare_fcn : A → A → Ordering) : Type ℓ where
  pub flips : (a b : A) → compare_fcn b a ≡ flip (compare_fcn a b)
  pub trans :
      (a b c : A)
      → compare_fcn a b ≢ Ordering.gt
      → compare_fcn b c ≢ Ordering.gt
      → compare_fcn a c ≢ Ordering.gt

module _ {ℓ} {A : Type ℓ} (compare_fcn : A → A → Ordering) where
  abbrev pub Le : A → A → Type 0
  Le a b = compare_fcn a b ≢ Ordering.gt

  abbrev pub Sorted : List A → Type 0
  Sorted [] = Unit
  Sorted (x ∷ xs) = All (Le x) xs × Sorted xs

  -- The elements that compare equal to `a`, in their order.
  abbrev pub same_key : A → List A → List A
  same_key a [] = []
  same_key a (x ∷ xs) = elim (compare_fcn x a) [
    | Ordering.eq ↦ x ∷ same_key a xs
    | _ ↦ same_key a xs
  ]

  pub record IsMerge (xs ys z : List A) : Type ℓ where
    pub sorted : Sorted z
    pub perm : Perm z (xs ++ ys)
    pub size : length z ≡ length xs + length ys
    pub below : (b : A) → All (Le b) xs → All (Le b) ys → All (Le b) z
    pub stable : (a : A) → same_key a z ≡ same_key a xs ++ same_key a ys

  pub same_key-append :
      (a : A) (xs ys : List A) → same_key a (xs ++ ys) ≡ same_key a xs ++ same_key a ys
  same_key-append a [] ys = refl
  same_key-append a (x ∷ xs) ys = ground (arith, same_key-append a xs ys)

eq_cases : (r : Ordering) → (r ≡ Ordering.eq) ⊎ (r ≢ Ordering.eq)
eq_cases Ordering.lt = inr (cc)
eq_cases Ordering.eq = inl refl
eq_cases Ordering.gt = inr (cc)

gt_cases : (r : Ordering) → (r ≡ Ordering.gt) ⊎ (r ≢ Ordering.gt)
gt_cases Ordering.lt = inr (cc)
gt_cases Ordering.eq = inr (cc)
gt_cases Ordering.gt = inl refl

module _ {ℓ} {A : Type ℓ} (compare_fcn : A → A → Ordering) (o : IsOrder compare_fcn) where
  Le-All :
      (x y : A) (ys : List A)
      → Le compare_fcn x y
      → All (Le compare_fcn y) ys
      → All (Le compare_fcn x) ys
  Le-All x y [] h k = tt
  Le-All x y (z ∷ ys) h (k, ks) = (o.trans x y z h k, Le-All x y ys h ks)

  -- What is at least `x` is not equal to something below `x`.
  same_key-nil :
      (a x y : A) (xs : List A)
      → compare_fcn x y ≡ Ordering.gt
      → compare_fcn y a ≡ Ordering.eq
      → All (Le compare_fcn x) xs
      → same_key compare_fcn a xs ≡ []
  same_key-nil a x y [] g e h = refl
  same_key-nil a x y (z ∷ xs) g e (h, hs) =
      ground (arith, same_key-nil a x y xs g e hs, o.flips y a, o.trans z a y, o.trans x z y)

  IsMerge-nil_left : (ys : List A) → Sorted compare_fcn ys → IsMerge compare_fcn [] ys ys
  IsMerge-nil_left ys s = record {
    sorted = s;
    perm = Perm.refl ys;
    size = omega arith;
    below = λ b _ h. h;
    stable = λ a. refl;
  }

  IsMerge-nil_right : (xs : List A) → Sorted compare_fcn xs → IsMerge compare_fcn xs [] xs
  IsMerge-nil_right xs s = record {
    sorted = s;
    perm = rw (append-nil xs) (Perm.refl xs);
    size = omega arith;
    below = λ b h _. h;
    stable = λ a. sym (append-nil _);
  }

  IsMerge-skip_left :
      (y : A) (ys z : List A)
      → Sorted compare_fcn (y ∷ ys)
      → IsMerge compare_fcn [] ys z
      → IsMerge compare_fcn [] (y ∷ ys) (y ∷ z)
  IsMerge-skip_left y ys z (hy, s) m = record {
    sorted = (m.below y tt hy, m.sorted);
    perm = Perm.cons y m.perm;
    size = omega (arith, m.size);
    below = λ b _ (hb, hbs). (hb, m.below b tt hbs);
    stable = λ a. ground (arith, m.stable a);
  }

  IsMerge-take_left :
      (x : A) (xs ys z : List A)
      → Sorted compare_fcn (x ∷ xs)
      → All (Le compare_fcn x) ys
      → IsMerge compare_fcn xs ys z
      → IsMerge compare_fcn (x ∷ xs) ys (x ∷ z)
  IsMerge-take_left x xs ys z (hx, s) hy m = record {
    sorted = (m.below x hx hy, m.sorted);
    perm = Perm.cons x m.perm;
    size = omega (arith, m.size);
    below = λ b (hb, hbs) k. (hb, m.below b hbs k);
    stable = λ a. ground (arith, m.stable a);
  }

  IsMerge-take_right :
      (x y : A) (xs ys z : List A)
      → compare_fcn x y ≡ Ordering.gt
      → Sorted compare_fcn (x ∷ xs)
      → Sorted compare_fcn (y ∷ ys)
      → IsMerge compare_fcn (x ∷ xs) ys z
      → IsMerge compare_fcn (x ∷ xs) (y ∷ ys) (y ∷ z)
  IsMerge-take_right x y xs ys z g (hx, sx) (hy, sy) m =
      let yx : Le compare_fcn y x = ground (arith, o.flips x y) in
      let xx : Le compare_fcn x x = ground (arith, o.flips x x) in
      record {
        sorted = (m.below y (yx, Le-All y x xs yx hx) hy, m.sorted);
        perm = Perm.trans (Perm.cons y m.perm) (Perm.symm (perm_middle (x ∷ xs) ys));
        size = omega (arith, m.size);
        below = λ b h (hb, hbs). (hb, m.below b h hbs);
        stable = λ a.
            let rest = same_key compare_fcn a (x ∷ xs) in
            elim (eq_cases (compare_fcn y a)) [
              | inl e ↦
                  let gone : rest ≡ [] = same_key-nil a x y (x ∷ xs) g e (xx, hx) in
                  ground (arith, m.stable a, gone)
              | inr e ↦ ground (arith, m.stable a, e)
            ];
      }

  merge_keep :
      (e e' : A) (p : List A) (psize : ℕ) (q : List A) (qsize : ℕ) (out : List A)
      → Le compare_fcn e e'
      → merge compare_fcn (e ∷ p) (suc psize) (e' ∷ q) (suc qsize) out
        ≡ merge compare_fcn p psize (e' ∷ q) (suc qsize) (out ++ e ∷ [])
  unfolding merge
  merge_keep e e' p psize q qsize out g = ground arith

  -- One merge: the runs are taken whole, and what is built is their stable merge.
  pub merge_lem :
      (p : List A) (psize : ℕ) (q : List A) (qsize : ℕ) (out : List A)
      → psize ≤ length p
      → Sorted compare_fcn (take psize p)
      → Sorted compare_fcn (take qsize q)
      → (z : List A) × (merge compare_fcn p psize q qsize out ≡ some (out ++ z, drop qsize q))
        × IsMerge compare_fcn (take psize p) (take qsize q) z
  unfolding merge
  merge_lem p zero q zero out h sp sq = ([], rw (append-nil out), IsMerge-nil_left [] tt)
  merge_lem p zero [] (suc qsize) out h sp sq = ([], rw (append-nil out), IsMerge-nil_left [] tt)
  merge_lem p zero (e ∷ q) (suc qsize) out h sp sq =
      let (z, r, m) = merge_lem p zero q qsize (out ++ e ∷ []) h sp sq.1 in
      (e ∷ z, rw (r, append_assoc), IsMerge-skip_left e (take qsize q) z sq m)
  merge_lem [] (suc psize) q qsize out h sp sq = absurd (omega arith)
  merge_lem (e ∷ p) (suc psize) q zero out h sp sq =
      let (z, r, m) = merge_lem p psize q zero (out ++ e ∷ []) (omega arith) sp.1 tt in
      (e ∷ z, rw (r, append_assoc), IsMerge-take_left e (take psize p) [] z sp tt m)
  merge_lem (e ∷ p) (suc psize) [] (suc qsize) out h sp sq =
      let (z, r, m) = merge_lem p psize [] (suc qsize) (out ++ e ∷ []) (omega arith) sp.1 tt in
      (e ∷ z, rw (r, append_assoc), IsMerge-take_left e (take psize p) [] z sp tt m)
  merge_lem (e ∷ p) (suc psize) (e' ∷ q) (suc qsize) out h sp sq =
      elim (gt_cases (compare_fcn e e')) [
        | inl g ↦
            let (z, r, m) = merge_lem (e ∷ p) (suc psize) q qsize (out ++ e' ∷ []) h sp sq.1 in
            (
              e' ∷ z,
              rw (g, merge) (rw (r, append_assoc)),
              IsMerge-take_right e e' (take psize p) (take qsize q) z g sp sq m,
            )
        | inr g ↦
            let (z, r, m) =
              merge_lem p psize (e' ∷ q) (suc qsize) (out ++ e ∷ []) (omega arith) sp.1 sq in
            (
              e ∷ z,
              rw (merge_keep e e' p psize q qsize out g, r, append_assoc),
              IsMerge-take_left e (take psize p) (take (suc qsize) (e' ∷ q)) z sp
                  (g, Le-All e e' (take qsize q) g sq.0) m,
            )
      ]
