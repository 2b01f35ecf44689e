-- ===== src/ListSort/Sorted.antt =====
-- What `listsort` of bogofilter/src/listsort.c returns: the passes, and the whole sort.
use mathlib.Core.List.{Perm}
use mathlib.Core.List.Perm
use native.Mathlib.Decide.{dec_le, dec_lt}
use Prim.Native.Nat.add
use bogofilter.Prelude.{
  Bool-cases, List, Ordering, [], ap, append-nil, append_assoc, arith, drop, drop-append_length,
  drop_all, inl, inr, leb, leb→le, length, length-append, length-drop, length-take, min, refl, some,
  subst, suc, take, take-append-drop, take-append_length, take_all, take_of_length, true, zero, ℕ,
  ◌*◌, ◌++◌, ◌+◌, ◌<◌, ◌∙◌, ◌∷◌, ◌≡◌, ◌≤◌,
}
use bogofilter.ListSort.{step_along, merge_pass, merge_passes, listsort}
use bogofilter.ListSort.Merge.{IsOrder, Sorted, same_key, same_key-append, IsMerge, merge_lem}

module _ {ℓ} {A : Type ℓ} where
  step_along_lem :
      (i : ℕ) (q : List A) (psize : ℕ)
      → (compare_fcn : A → A → Ordering)
      → step_along compare_fcn i q psize ≡ (psize + min i (length q), drop i q)
  unfolding step_along
  step_along_lem zero q psize c = ground arith
  step_along_lem (suc i) [] psize c = ground arith
  step_along_lem (suc i) (x ∷ q) psize c = ground (arith, step_along_lem i q (psize + 1) c)

module _ {ℓ} {A : Type ℓ} (compare_fcn : A → A → Ordering) where
  -- The list falls into sorted runs of `k` elements, the last one perhaps shorter.
  data Runs (k : ℕ) : List A → Type ℓ where
    end : Runs k []
    run : (l : List A) → Sorted compare_fcn (take k l) → Runs k (drop k l) → Runs k l

  Runs-first : {k : ℕ} {l : List A} → Runs k l → Sorted compare_fcn (take k l) × Runs k (drop k l)
  Runs-first {k = zero} end = (tt, end)
  Runs-first {k = suc k} end = (tt, end)
  Runs-first (run l s r) = (s, r)

  -- What a pass over `p` with `n` merges before it, that built `z` in `n'` merges, has done.
  record IsPass (k n : ℕ) (p z : List A) (n' : ℕ) : Type ℓ where
    runs : Runs (k * 2) z
    perm : Perm z p
    stable : (a : A) → same_key compare_fcn a z ≡ same_key compare_fcn a p
    size : length z ≡ length p
    idle : length p ≡ 0 → n' ≡ n
    grows : 0 < length p → n < n'
    once : n' ≤ n + 1 → Sorted compare_fcn z
    short : length p ≤ k * 2 → n' ≤ n + 1

  Runs-append :
      (k : ℕ) (r rest : List A)
      → Sorted compare_fcn r
      → length r ≤ k
      → (0 < length rest → length r ≡ k)
      → Runs k rest
      → Runs k (r ++ rest)
  Runs-append k r [] s le full runs =
      rw (append-nil r) (run r (rw (take_all k r le) s) (rw (drop_all k r le) runs))
  Runs-append k r (x ∷ rest) s le full runs =
      let e : length r ≡ k = full (omega arith) in
      rw (← e) (
        run (r ++ x ∷ rest) (rw (take-append_length r (x ∷ rest)) s)
          (rw (drop-append_length r (x ∷ rest)) (rw e runs)))

module _ {ℓ} {A : Type ℓ} where
  nil_of_length : (l : List A) → length l ≡ 0 → l ≡ []
  nil_of_length [] h = refl
  nil_of_length (x ∷ l) h = absurd (omega arith)

  take-min : (k : ℕ) (l : List A) → take (min k (length l)) l ≡ take k l
  take-min k l = elim (dec_le k (length l)) [
    | yes h ↦ let e : min k (length l) ≡ k = omega arith in rw e
    | no h ↦
        let e : min k (length l) ≡ length l = omega arith in
        rw (e, take_of_length l, take_all k l (omega arith))
  ]

module _ {ℓ} {A : Type ℓ} (compare_fcn : A → A → Ordering) where
  -- One round: two runs are merged into `z1`, and the other rounds build `z2`.
  IsPass-round :
      {k n n' : ℕ} (l r1 r2 rest z1 z2 : List A)
      → r1 ++ r2 ++ rest ≡ l
      → 0 < length l
      → length r1 ≤ k
      → length r2 ≤ k
      → (0 < length rest → (length r1 ≡ k) × (length r2 ≡ k))
      → IsMerge compare_fcn r1 r2 z1
      → IsPass compare_fcn k (n + 1) rest z2 n'
      → IsPass compare_fcn k n l (z1 ++ z2) n'
  IsPass-round {k} {n} {n'} l r1 r2 rest z1 z2 whole pos le1 le2 full m ih =
      let len : length r1 + length r2 + length rest ≡ length l =
        omega (arith, ap length whole, length-append (r1 ++ r2) rest, length-append r1 r2) in
      let more : n + 1 ≤ n' = elim (dec_lt 0 (length rest)) [
        | yes h ↦ omega (arith, ih.grows h)
        | no h ↦ omega (arith, ih.idle (omega arith))
      ] in
      record {
        runs =
            Runs-append compare_fcn (k * 2) z1 z2 m.sorted (omega (arith, m.size))
              (λ h. ground (arith, m.size, ih.size, full)) ih.runs;
        perm = subst (λ t. Perm (z1 ++ z2) t) whole (Perm.append m.perm ih.perm);
        stable = λ a.
            rw (same_key-append compare_fcn a z1 z2, m.stable a, ih.stable a, ← whole)
              (rw (
                same_key-append compare_fcn a (r1 ++ r2) rest,
                same_key-append compare_fcn a r1 r2,
              ));
        size = omega (arith, length-append z1 z2, m.size, ih.size, len);
        idle = λ e. absurd (omega arith);
        grows = λ _. omega arith;
        once = λ h.
            let over : length rest ≡ 0 = elim (dec_lt 0 (length rest)) [
              | yes k ↦ absurd (omega (arith, ih.grows k))
              | no k ↦ omega arith
            ] in
            rw (nil_of_length z2 (omega (arith, ih.size)), append-nil z1) m.sorted;
        short = λ h. elim (dec_lt 0 (length rest)) [
          | yes k ↦ absurd (omega (arith, full k))
          | no k ↦ omega (arith, ih.idle (omega arith))
        ];
      }

module _ {ℓ} {A : Type ℓ} (compare_fcn : A → A → Ordering) (o : IsOrder compare_fcn) where
  merge_pass_lem :
      (fuel k : ℕ) (p : List A) (n : ℕ) (out : List A)
      → length p ≤ fuel
      → 0 < k
      → Runs compare_fcn k p
      → (z : List A) × (n' : ℕ) × (merge_pass compare_fcn fuel k p n out ≡ some (out ++ z, n'))
        × IsPass compare_fcn k n p z n'
  unfolding merge_pass
  merge_pass_lem fuel k [] n out h pos r = (
    [],
    n,
    rw (append-nil out),
    record {
      runs = end;
      perm = Perm.refl [];
      stable = λ a. refl;
      size = refl;
      idle = λ _. refl;
      grows = λ h. absurd (omega arith);
      once = λ _. tt;
      short = λ _. omega arith;
    },
  )
  merge_pass_lem zero k (x ∷ p) n out h pos r = absurd (omega arith)
  merge_pass_lem (suc fuel) k (x ∷ p) n out h pos r =
      let l = x ∷ p in
      let q = drop k l in
      let rest = drop k q in
      let (s1, r1) = Runs-first compare_fcn r in
      let (s2, r2) = Runs-first compare_fcn r1 in
      let (z1, e1, m) =
        merge_lem compare_fcn o l (min k (length l)) q k out (omega arith) (rw (take-min k l) s1)
          s2 in
      let (z2, n', e2, ih) =
        merge_pass_lem fuel k rest (n + 1) (out ++ z1)
          (omega (arith, length-drop k q, length-drop k l)) pos r2 in
      let whole : take k l ++ take k q ++ rest ≡ l =
        append_assoc (take k l) (take k q) rest
        ∙ ap (λ t. take k l ++ t) (take-append-drop k q)
        ∙ take-append-drop k l in
      (
        z1 ++ z2,
        n',
        rw (step_along_lem k l 0 compare_fcn, add.zero, e1) (rw (e2, append_assoc)),
        IsPass-round compare_fcn l (take k l) (take k q) rest z1 z2 whole (omega arith)
            (omega (arith, length-take k l)) (omega (arith, length-take k q))
            (λ h. omega (arith, length-drop k q, length-drop k l, length-take k l, length-take k q))
            (rw (take-min k l) at m) ih,
      )

  -- The result is sorted, and a rearrangement that keeps equal elements in their order.
  pub record IsStableSort (l z : List A) : Type ℓ where
    pub sorted : Sorted compare_fcn z
    pub perm : Perm z l
    pub stable : (a : A) → same_key compare_fcn a z ≡ same_key compare_fcn a l

  merge_passes_lem :
      (fuel k : ℕ) (l : List A)
      → 0 < k
      → length l ≤ k * 2 + fuel
      → Runs compare_fcn k l
      → (z : List A) × (merge_passes compare_fcn (suc fuel) k l ≡ some z) × IsStableSort l z
  unfolding merge_passes
  merge_passes_lem zero k l pos h r =
      let (z, n', e, ip) = merge_pass_lem (length l) k l 0 [] (omega arith) pos r in
      let few : n' ≤ 0 + 1 = ip.short (omega arith) in
      let done : leb n' 1 ≡ true = ground arith in
      (z, rw (e, done), record { sorted = ip.once few; perm = ip.perm; stable = ip.stable })
  merge_passes_lem (suc fuel) k l pos h r =
      let (z, n', e, ip) = merge_pass_lem (length l) k l 0 [] (omega arith) pos r in
      elim (Bool-cases (leb n' 1)) [
        | inl done ↦ (
          z,
          rw (e, done),
          record {
            sorted = ip.once (omega (arith, leb→le n' 1 done));
            perm = ip.perm;
            stable = ip.stable;
          },
        )
        | inr more ↦
            let (z', e', rest) =
              merge_passes_lem fuel (k * 2) z (omega arith) (omega (arith, ip.size)) ip.runs in
            (
              z',
              rw (e, more) e',
              record {
                sorted = rest.sorted;
                perm = Perm.trans rest.perm ip.perm;
                stable = λ a. rest.stable a ∙ ip.stable a;
              },
            )
      ]

  Runs-one : (l : List A) → Runs compare_fcn 1 l
  Runs-one [] = end
  Runs-one (x ∷ l) = run (x ∷ l) (tt, tt) (Runs-one l)

  -- `listsort` always returns, and its result is a stable sort of the list: the same elements, in
  -- an order where each is not greater than those behind it, and where elements that compare equal
  -- to any given one stand in the order that they had.
  pub listsort-IsStableSort :
      (l : List A) → (z : List A) × (listsort compare_fcn l ≡ some z) × IsStableSort l z
  unfolding listsort
  listsort-IsStableSort [] =
      ([], refl, record { sorted = tt; perm = Perm.refl []; stable = λ a. refl })
  listsort-IsStableSort (x ∷ l) =
      merge_passes_lem (length l) 1 (x ∷ l) (omega arith) (omega arith) (Runs-one (x ∷ l))
