-- ===== src/WordLists/Queue.antt =====
-- The order of the queue of word lists of bogofilter/src/wordlists_base.c.
use bogofilter.Prelude.{
  All, Bool, Bool-cases, List, [], arith, false, if◌then◌else◌, inl, inr, ltb, ltb→lt, refl, true,
  ℕ, ◌<◌, ◌||◌, ◌∷◌, ◌≡◌, ◌≤◌,
}
use bogofilter.WordLists.{Wordlist, is_dup_wordlist, enqueue_after, init_wordlist}

module _ {Db : Type 0} where
  -- Ascending by precedence.
  abbrev pub Ascending : List (Wordlist Db) → Type 0
  Ascending [] = Unit
  Ascending (p ∷ l) = All (λ q. p.override ≤ q.override) l × Ascending l

  -- Some list of the queue matches the new one.
  pub has_dup : Wordlist Db → List (Wordlist Db) → Bool
  has_dup n [] = false
  has_dup n (p ∷ l) = is_dup_wordlist n p || has_dup n l

  -- The new list behind all those of the same or a lower precedence number.
  pub placed : Wordlist Db → List (Wordlist Db) → List (Wordlist Db)
  placed n [] = n ∷ []
  placed n (p ∷ l) = if ltb n.override p.override then n ∷ p ∷ l else p ∷ placed n l

  dup_override : (n p : Wordlist Db) → is_dup_wordlist n p ≡ true → n.override ≡ p.override
  unfolding is_dup_wordlist
  dup_override n p h = ground arith

  no_dup_above :
      (n : Wordlist Db) (k : ℕ) (l : List (Wordlist Db))
      → n.override < k
      → All (λ q. k ≤ q.override) l
      → has_dup n l ≡ false
  unfolding has_dup
  no_dup_above n k [] h a = refl
  no_dup_above n k (p ∷ l) h (le, a) = ground (arith, dup_override n p, no_dup_above n k l h a)

  All-le :
      (j k : ℕ) (l : List (Wordlist Db))
      → j ≤ k
      → All (λ q. k ≤ q.override) l
      → All (λ q. j ≤ q.override) l
  All-le j k [] h a = tt
  All-le j k (p ∷ l) h (le, a) = (omega arith, All-le j k l h a)

  enqueue_after_lem :
      (n p : Wordlist Db) (l : List (Wordlist Db))
      → p.override ≤ n.override
      → Ascending (p ∷ l)
      → enqueue_after n (p ∷ l) ≡ (if has_dup n (p ∷ l) then p ∷ l else placed n (p ∷ l))
  unfolding enqueue_after has_dup placed
  enqueue_after_lem n p [] h a = ground arith
  enqueue_after_lem n p (q ∷ l) h ((le, lp), (lq, al)) =
      elim (Bool-cases (ltb n.override q.override)) [
        | inl e ↦
            let lt = ltb→lt n.override q.override e in
            let none_above = no_dup_above n q.override l lt lq in
            let not_q : is_dup_wordlist n q ≡ false = ground (arith, dup_override n q) in
            ground arith
        | inr e ↦ let ih = enqueue_after_lem n q l (ground arith) (lq, al) in ground arith
      ]

  placed-All :
      (k : ℕ) (n : Wordlist Db) (l : List (Wordlist Db))
      → k ≤ n.override
      → All (λ q. k ≤ q.override) l
      → All (λ q. k ≤ q.override) (placed n l)
  unfolding placed
  placed-All k n [] h a = (h, tt)
  placed-All k n (p ∷ l) h (le, a) = elim (Bool-cases (ltb n.override p.override)) [
    | inl e ↦ rw (e, placed) (h, (le, a))
    | inr e ↦ rw (e, placed) (le, placed-All k n l h a)
  ]

  placed-Ascending :
      (n : Wordlist Db) (l : List (Wordlist Db)) → Ascending l → Ascending (placed n l)
  unfolding placed
  placed-Ascending n [] a = (tt, tt)
  placed-Ascending n (p ∷ l) (le, a) = elim (Bool-cases (ltb n.override p.override)) [
    | inl e ↦
        let lt = ltb→lt n.override p.override e in
        rw (e, placed) ((omega arith, All-le n.override p.override l (omega arith) le), (le, a))
    | inr e ↦ rw (e, placed) (placed-All p.override n l (ground arith) le, placed-Ascending n l a)
  ]

  init_wordlist_lem :
      (n : Wordlist Db) (l : List (Wordlist Db))
      → Ascending l
      → init_wordlist n l ≡ (if has_dup n l then l else placed n l)
  unfolding init_wordlist has_dup placed
  init_wordlist_lem n [] a = refl
  init_wordlist_lem n (p ∷ l) (lp, al) = elim (Bool-cases (ltb n.override p.override)) [
    | inl e ↦
        let lt = ltb→lt n.override p.override e in
        let none_above = no_dup_above n p.override l lt lp in
        let not_p : is_dup_wordlist n p ≡ false = ground (arith, dup_override n p) in ground arith
    | inr e ↦ let ih = enqueue_after_lem n p l (ground arith) (lp, al) in ground arith
  ]

  -- `init_wordlist` leaves an ascending queue as it is if it has a list of the same type, name,
  -- precedence and path; otherwise it puts the new list behind all those of the same or a lower
  -- precedence number. The queue stays ascending.
  pub init_wordlist-placed :
      (n : Wordlist Db) (l : List (Wordlist Db))
      → Ascending l
      → (init_wordlist n l ≡ (if has_dup n l then l else placed n l))
        × Ascending (init_wordlist n l)
  init_wordlist-placed n l a =
      let e = init_wordlist_lem n l a in
      (
        e,
        elim (Bool-cases (has_dup n l)) [
          | inl d ↦ rw (e, d) a
          | inr d ↦ rw (e, d) (placed-Ascending n l a)
        ],
      )
