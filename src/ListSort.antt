-- ===== src/ListSort.antt =====
-- bogofilter/src/listsort.c: the bottom-up merge sort of linked lists. A pointer into a list is the
-- list that starts there. An element is relinked only after it was taken off, so no pointer that is
-- still read sees a changed link, and the list under construction is `out`.
pub mod Merge
pub mod Sorted
use bogofilter.Prelude.{
  List, Option, Ordering, [], if◌then◌else◌, leb, length, none, some, suc, zero, ℕ, ◌*◌, ◌++◌, ◌+◌,
  ◌>>=◌, ◌∷◌,
}

module _ {ℓ} {A : Type ℓ} (compare_fcn : A → A → Ordering) where
  -- The `for` loop that steps `q` along `insize` places; the result is `psize` and `q`.
  pub step_along : ℕ → List A → ℕ → ℕ × List A
  step_along zero q psize = (psize, q)
  step_along (suc i) [] psize = (psize, [])
  step_along (suc i) (x ∷ q) psize = step_along i q (psize + 1)

  -- The loop that merges two runs. `none` is a step through a null `p`.
  pub merge : List A → ℕ → List A → ℕ → List A → Option (List A × List A)
  merge p zero q zero out = some (out, q)
  merge p zero [] (suc qsize) out = some (out, [])
  merge p zero (e ∷ q) (suc qsize) out = merge p zero q qsize (out ++ e ∷ [])
  merge [] (suc psize) q qsize out = none
  merge (e ∷ p) (suc psize) q zero out = merge p psize q zero (out ++ e ∷ [])
  merge (e ∷ p) (suc psize) [] (suc qsize) out = merge p psize [] (suc qsize) (out ++ e ∷ [])
  merge (e ∷ p) (suc psize) (e' ∷ q) (suc qsize) out = elim (compare_fcn e e') [
    | Ordering.gt ↦ merge (e ∷ p) (suc psize) q qsize (out ++ e' ∷ [])
    | _ ↦ merge p psize (e' ∷ q) (suc qsize) (out ++ e ∷ [])
  ]

  -- One pass over the list: the new list and `nmerges`. Each round takes an element off `p`.
  pub merge_pass : ℕ → ℕ → List A → ℕ → List A → Option (List A × ℕ)
  merge_pass fuel insize [] nmerges out = some (out, nmerges)
  merge_pass zero insize (x ∷ p) nmerges out = none
  merge_pass (suc fuel) insize (x ∷ p) nmerges out =
      let (psize, q) = step_along insize (x ∷ p) 0 in
      merge (x ∷ p) psize q insize out >>= λ r. merge_pass fuel insize r.1 (nmerges + 1) r.0

  -- The outer loop, with `insize` doubled from pass to pass.
  pub merge_passes : ℕ → ℕ → List A → Option (List A)
  merge_passes zero insize l = none
  merge_passes (suc fuel) insize l = merge_pass (length l) insize l 0 [] >>= λ r.
      let more = merge_passes fuel (insize * 2) r.0 in if leb r.1 1 then some r.0 else more

  -- As many passes as there are elements are always enough.
  pub listsort : List A → Option (List A)
  listsort [] = some []
  listsort (x ∷ l) = merge_passes (length (x ∷ l)) 1 (x ∷ l)
