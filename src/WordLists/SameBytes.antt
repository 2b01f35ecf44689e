-- ===== src/WordLists/SameBytes.antt =====
-- The comparison of texts that the models share, `same_bytes`, decides their equality.
use bogofilter.Prelude.{Bytes, [], arith, refl, subst, true, ◌↔◌, ◌∷◌, ◌≡◌}
use bogofilter.WordLists.{same_bytes}

pub same_bytes_sound : (a b : Bytes) → same_bytes a b ≡ true → a ≡ b
unfolding same_bytes
same_bytes_sound [] [] h = refl
same_bytes_sound [] (y ∷ b) h = absurd cc
same_bytes_sound (x ∷ a) [] h = absurd cc
same_bytes_sound (x ∷ a) (y ∷ b) h = ground (arith, same_bytes_sound a b)

same_bytes_refl : (a : Bytes) → same_bytes a a ≡ true
unfolding same_bytes
same_bytes_refl [] = refl
same_bytes_refl (x ∷ a) = ground (arith, same_bytes_refl a)

pub same_bytes_iff : (a b : Bytes) → same_bytes a b ≡ true ↔ a ≡ b
same_bytes_iff a b =
    (same_bytes_sound a b, λ e. subst (λ c. same_bytes a c ≡ true) e (same_bytes_refl a))
