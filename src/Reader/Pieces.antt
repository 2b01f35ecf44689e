-- ===== src/Reader/Pieces.antt =====
-- The pieces in which a stream is read by a client that has an empty buffer for each of them, and the tests
-- of bogofilter/src/bogoreader.c on them.
use bogofilter.Prelude.{
  Bool-cases, Bytes, List, [], ap, arith, codes, concat, inl, inr, leb, leb→le, length, ltb, refl,
  some, suc, sym, take, zero, ℕ, ◌&&◌, ◌++◌, ◌<◌, ◌==◌, ◌||◌, ◌∙◌, ◌∷◌, ◌≡◌, ◌≢◌, ◌≤◌,
}
use bogofilter.Word.{}
use bogofilter.WordLists.{same_bytes}
use bogofilter.Buff.{Buff, fgets_loop}
use bogofilter.Buff.Contents.{contents, IsSound}
use bogofilter.Buff.Fgets.{take-take, take-memcpy, fgets_loop-parts, fgets_loop-cons}
use bogofilter.Reader.{has_separator, is_eol, mark_end}

-- The list is that of the pieces which the stream is read in.
abbrev pub IsCut : ℕ → Bytes → List Bytes → Type 0
IsCut size s [] = s ≡ []
IsCut size s (p ∷ ps) = (s ≢ []) × ((fgets_loop size s).0 ≡ p) × IsCut size (fgets_loop size s).1 ps

pub concat-IsCut : (size : ℕ) (ps : List Bytes) (s : Bytes) → IsCut size s ps → concat ps ≡ s
concat-IsCut size [] s e = sym e
concat-IsCut size (p ∷ ps) s (_, e, cut) =
    ap (λ t. t ++ concat ps) (sym e)
    ∙ ap (◌++◌ (fgets_loop size s).0) (concat-IsCut size ps (fgets_loop size s).1 cut)
    ∙ fgets_loop-parts size s

-- The pieces by recursion, with as much fuel as the stream has bytes.
pub pieces : ℕ → ℕ → Bytes → List Bytes
pieces zero size s = []
pieces (suc k) size [] = []
pieces (suc k) size (c ∷ s) =
    (fgets_loop size (c ∷ s)).0 ∷ pieces k size (fgets_loop size (c ∷ s)).1

cons≢nil : {A : Type 0} (x : A) (xs : List A) → (x ∷ xs) ≢ []
cons≢nil x xs = λ e. cc

pub pieces-IsCut :
    (k size : ℕ) (s : Bytes) → length s ≤ k → 0 < size → IsCut size s (pieces k size s)
unfolding pieces
pieces-IsCut zero size [] h pos = refl
pieces-IsCut zero size (c ∷ s) h pos = absurd (omega arith)
pieces-IsCut (suc k) size [] h pos = refl
pieces-IsCut (suc k) zero (c ∷ s) h pos = absurd (omega arith)
pieces-IsCut (suc k) (suc n) (c ∷ s) h pos = (
  cons≢nil c s,
  refl,
  pieces-IsCut k (suc n) (fgets_loop (suc n) (c ∷ s)).1 (omega (arith, fgets_loop-cons n c s)) pos,
)

-- The tests read no more of a text than the line that it begins with.
pub has_separator-line :
    (sep text line : Bytes) (n : ℕ)
    → take n text ≡ line
    → has_separator sep (some n) text ≡ has_separator sep (some n) line
unfolding has_separator
has_separator-line sep text line n e = elim (Bool-cases (leb (length sep) n)) [
  | inl h ↦ rw h (
      ap (λ t. same_bytes t sep)
        (sym (take-take (length sep) n text (leb→le (length sep) n h)) ∙ ap (take (length sep)) e))
  | inr h ↦ rw h refl
]

guarded_eq :
    (m n : ℕ) (w text line : Bytes)
    → take n text ≡ line
    → (n == m && same_bytes (take m text) w) ≡ (n == m && same_bytes (take m line) w)
guarded_eq m n w text line e = elim (Bool-cases (n == m)) [
  | inl h ↦
      rw h (ap (λ t. same_bytes t w) (sym (take-take m n text (ground arith)) ∙ ap (take m) e))
  | inr h ↦ rw h refl
]

pub is_eol-line :
    (text line : Bytes) (n : ℕ) → take n text ≡ line → is_eol text (some n) ≡ is_eol line (some n)
unfolding is_eol
is_eol-line text line n e =
    ap (λ t. t || (n == 2 && same_bytes (take 2 text) (codes "\r\n")))
      (guarded_eq 1 n (codes "\n") text line e)
    ∙ ap (λ t. (n == 1 && same_bytes (take 1 line) (codes "\n")) || t)
        (guarded_eq 2 n (codes "\r\n") text line e)

-- A NUL behind the contents does not change them.
pub mark_end-contents : (b : Buff) → IsSound b → contents (mark_end b) ≡ contents b
unfolding mark_end
mark_end-contents b (h, k) = elim (Bool-cases (ltb b.leng b.size)) [
  | inl e ↦ rw e (take-memcpy b.text b.leng (0 ∷ []) b.leng (omega arith) (omega arith))
  | inr e ↦ rw e refl
]

pub mark_end-leng : (b : Buff) → (mark_end b).leng ≡ b.leng
unfolding mark_end
mark_end-leng b = elim (Bool-cases (ltb b.leng b.size)) [ inl e ↦ rw e refl | inr e ↦ rw e refl ]

pub length-pieces : (k size : ℕ) (s : Bytes) → length (pieces k size s) ≤ k
unfolding pieces
length-pieces zero size s = omega arith
length-pieces (suc k) size [] = omega arith
length-pieces (suc k) size (c ∷ s) = omega (arith, length-pieces k size (fgets_loop size (c ∷ s)).1)
