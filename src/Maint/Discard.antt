-- ===== src/Maint/Discard.antt =====
-- Which tokens `discard_token` of bogofilter/src/maint.c discards, and what the replacement of bytes does.
use bogofilter.Prelude.{
  All, Bool-cases, Bytes, [], ap, arith, drop, false, get_or, if◌then◌else◌, inl, inr, leb,
  leb-false, leb→le, length, map, refl, true, ℕ, ◌<◌, ◌↔◌, ◌∷◌, ◌≡◌, ◌≢◌, ◌≤◌, ◌⊎◌,
}
use bogofilter.Word.{Word}
use bogofilter.Datastore.{wordlist_encoding_tok, msg_count_tok, Dsv}
use bogofilter.Maint.{robx_tok, Maintenance, do_replace_nonascii_characters}

-- A constraint is given.
abbrev pub IsGiven : Maintenance → Type 0
IsGiven m = (m.thresh_count ≢ 0) ⊎ ((m.thresh_date ≢ 0) ⊎ ((m.size_min ≢ 0) ⊎ (m.size_max ≢ 0)))

-- Each constraint that is given rejects the token.
abbrev pub Rejects : Maintenance → Word → Dsv → Type 0
Rejects m token v =
    ((m.thresh_count ≡ 0) ⊎ ((v.spamcount ≤ m.thresh_count) × (v.goodcount ≤ m.thresh_count)))
    × ((m.thresh_date ≡ 0) ⊎ (v.date ≤ m.thresh_date))
    × (((m.size_min ≡ 0) × (m.size_max ≡ 0))
        ⊎ ((length token < m.size_min) ⊎ (m.size_max < length token)))

true≢false : true ≢ false
true≢false = λ e. cc

-- One of the three words that are kept.
abbrev pub IsReserved : Word → Type 0
IsReserved token = (token ≡ msg_count_tok) ⊎ ((token ≡ robx_tok) ⊎ (token ≡ wordlist_encoding_tok))

-- The bytes of the result, one by one.
abbrev pub to_ascii : ℕ → ℕ
to_ascii c = if leb 128 c then b'?' else c

abbrev pub IsAscii : ℕ → Type 0
IsAscii c = c < 128

-- Each byte that is not ASCII becomes a question mark and the others stay; the result is ASCII, and
-- the flag says that the text was changed.
pub do_replace_nonascii_characters-map :
    (str : Bytes)
    → ((do_replace_nonascii_characters str).1 ≡ map to_ascii str)
      × All IsAscii (do_replace_nonascii_characters str).1
      × ((do_replace_nonascii_characters str).0 ≡ false
          ↔ (do_replace_nonascii_characters str).1 ≡ str)
unfolding do_replace_nonascii_characters
do_replace_nonascii_characters-map [] = (refl, tt, (λ e. refl, λ e. refl))
do_replace_nonascii_characters-map (c ∷ str) =
    let (mapped, ascii, same) = do_replace_nonascii_characters-map str in
    elim (Bool-cases (leb 128 c)) [
      | inl e ↦
          let big = leb→le 128 c e in
          rw e (
            ap (◌∷◌ b'?') mapped,
            (omega arith, ascii),
            (λ f. absurd (true≢false f), λ f. absurd (omega (arith, ap (λ l. get_or l 0 0) f))),
          )
      | inr e ↦
          let small = leb-false 128 c e in
          rw e (
            ap (◌∷◌ c) mapped,
            (omega arith, ascii),
            (λ f. ap (◌∷◌ c) (same.0 f), λ f. same.1 (ap (drop 1) f)),
          )
    ]
