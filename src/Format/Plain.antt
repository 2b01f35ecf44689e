-- ===== src/Format/Plain.antt =====
-- A format without directives in bogofilter/src/format.c.
use bogofilter.Prelude.{
  All, Bool-cases, Bytes, [], ap, append-nil, append_assoc, arith, false, inl, inr, length,
  length-append, length-take, ltb, ltb-false, ltb→lt, refl, suc, sym, take, true, zero, ℕ, ◌*◌,
  ◌++◌, ◌+◌, ◌-◌, ◌<◌, ◌==◌, ◌↔◌, ◌∙◌, ◌∷◌, ◌≡◌, ◌≤◌,
}
use bogofilter.Datastore.{done}
use bogofilter.Format.{Values, Machine, no_spec, s_default, run, convert_format_to_string}
use bogofilter.Format.Steps.{at, run_next}
use bogofilter.Format.Directives.{byte_step, expanded_as}

-- Neither the end of a format nor the beginning of a directive.
abbrev pub IsText : ℕ → Type 0
IsText c = ((c == 0) ≡ false) × ((c == b'%') ≡ false)

take_more :
    (size c : ℕ) (out format : Bytes)
    → length out < size
    → (out ++ c ∷ []) ++ take (size - length (out ++ c ∷ [])) format
      ≡ out ++ take (size - length out) (c ∷ format)
take_more size c out format l =
    let e : size - length out ≡ suc (size - length (out ++ c ∷ [])) =
      omega (arith, length-append out (c ∷ [])) in
    rw e (append_assoc out (c ∷ []) (take (size - length (out ++ c ∷ [])) format))

take_none : (room : ℕ) (out format : Bytes) → room ≡ 0 → out ≡ out ++ take room format
take_none room out format e = rw e (sym (append-nil out))

take_nil : (n : ℕ) → ◌≡◌ {A = Bytes} (take n []) []
take_nil zero = refl
take_nil (suc n) = refl

-- The loop stops at a full buffer.
run_full :
    (v : Values) (size n c : ℕ) (format : Bytes) (m : Machine)
    → (c == 0) ≡ false
    → ltb (length m.out) size ≡ false
    → run v size (suc n) (c ∷ format) m ≡ done m
unfolding run
run_full v size n c format m z k = rw (z, k) refl

run-text :
    (v : Values) (size n : ℕ) (format out : Bytes)
    → All IsText format
    → length format < n
    → length out ≤ size
    → run v size n format (at s_default no_spec false out)
      ≡ done (at s_default no_spec false (out ++ take (size - length out) format))
run-text v size zero format out h w l = absurd (omega arith)
run-text v size (suc n) [] out h w l =
    unfold run in
    ap (λ x. done (at s_default no_spec false x))
      (sym (append-nil out) ∙ ap (λ x. out ++ x) (sym (take_nil (size - length out))))
run-text v size (suc n) (c ∷ format) out h w l = elim (Bool-cases (ltb (length out) size)) [
  | inl k ↦
      let room = ltb→lt _ _ k in
      run_next v size n c format (at s_default no_spec false out)
        (at s_default no_spec false (out ++ c ∷ [])) true h.0.0 room
        (byte_step v size c false out h.0.1)
      ∙ run-text v size n format (out ++ c ∷ []) h.1 (omega arith)
          (omega (arith, length-append out (c ∷ [])))
      ∙ ap (λ x. done (at s_default no_spec false x)) (take_more size c out format room)
  | inr k ↦
      run_full v size n c format (at s_default no_spec false out) h.0.0 k
      ∙ ap (λ x. done (at s_default no_spec false x))
          (take_none (size - length out) out (c ∷ format)
            (omega (arith, ltb-false (length out) size k)))
]

-- A format without directives is copied up to the size of the buffer. Its NUL stands behind the
-- copy, so that it is within the buffer exactly if the format is shorter than the buffer.
pub convert_format_to_string-text :
    (v : Values) (size : ℕ) (format : Bytes)
    → All IsText format
    → (convert_format_to_string v size format ≡ done (take size format))
      × (length (take size format) < size ↔ length format < size)
convert_format_to_string-text v size format h = (
  let e : size - 0 ≡ size = omega arith in
      expanded_as v size format (at s_default no_spec false (take size format)) (
        run-text v size (4 * length format + 4) format [] h (omega arith) (omega arith)
        ∙ ap (λ n. done (at s_default no_spec false (take n format))) e),
  ((λ p. omega (arith, length-take size format)), (λ p. omega (arith, length-take size format))),
)
