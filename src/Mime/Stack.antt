-- ===== src/Mime/Stack.antt =====
-- What a boundary line does to the stack of bogofilter/src/mime.c.
use bogofilter.Prelude.{
  All, Bool, Bool-cases, Bytes, List, [], ap, arith, false, get_or, if◌then◌else◌, inl, inr, length,
  length-append, ltb, none, refl, some, subst, true, ℕ, ◌&&◌, ◌++◌, ◌==◌, ◌∙◌, ◌∷◌, ◌≡◌, ◌⊎◌,
}
use bogofilter.Mime.{
  MimePart, is_mime_container, mime_init, mime_push, is_final_boundary, strip_eol, matches,
  find_boundary, get_boundary_props, mime_is_boundary, pop_to, push_next, got_mime_boundary,
}

-- The depth of each part is the number of its ancestors.
abbrev pub WellStacked : List MimePart → Type 0
WellStacked [] = Unit
WellStacked (p ∷ parents) = (p.depth ≡ length parents) × WellStacked parents

pub mime_push-WellStacked :
    (stack : List MimePart) → WellStacked stack → WellStacked (mime_push stack)
unfolding mime_push mime_init
mime_push-WellStacked [] h = (refl, tt)
mime_push-WellStacked (p ∷ parents) (d, h) = (omega arith, (d, h))

pub suffix-WellStacked :
    (above stack : List MimePart) → WellStacked (above ++ stack) → WellStacked stack
suffix-WellStacked [] stack h = h
suffix-WellStacked (p ∷ above) stack (d, h) = suffix-WellStacked above stack h

pop_to_lem :
    (above : List MimePart) (p : MimePart) (outer : List MimePart)
    → WellStacked (above ++ p ∷ outer)
    → pop_to p.depth (above ++ p ∷ outer) ≡ p ∷ outer
unfolding pop_to
pop_to_lem [] p outer h = ground arith
pop_to_lem (q ∷ above) p outer (d, h) =
    let e : p.depth ≡ length outer = (suffix-WellStacked above (p ∷ outer) h).0 in
    let n = length-append above (p ∷ outer) in
    let gt : ltb p.depth q.depth ≡ true = ground arith in rw gt (pop_to_lem above p outer h)

pub push_next_lem :
    (p : MimePart) (outer : List MimePart)
    → is_mime_container p ≡ true
    → push_next (p ∷ outer) ≡ mime_push (p ∷ outer)
unfolding push_next
push_next_lem p [] h = refl
push_next_lem p (q ∷ outer) h = rw h refl

matches-is_mime_container :
    (buf : Bytes) (blen : ℕ) (p : MimePart) → matches buf blen p ≡ true → is_mime_container p ≡ true
unfolding matches
matches-is_mime_container buf blen p h = ground arith

-- The part that a boundary line belongs to: the innermost one whose boundary the line has.
pub record Closest (buf : Bytes) (blen : ℕ) (stack : List MimePart) : Type 0 where
  pub above : List MimePart
  pub container : MimePart
  pub outer : List MimePart
  pub split : stack ≡ above ++ container ∷ outer
  pub none_above : All (λ p. matches buf blen p ≡ false) above
  pub has_it : matches buf blen container ≡ true

-- What a search finds.
abbrev Search : Bytes → ℕ → List MimePart → Type 0
Search buf blen stack =
    ((find_boundary buf blen stack ≡ none) × All (λ p. matches buf blen p ≡ false) stack)
    ⊎ ((c : Closest buf blen stack) × (find_boundary buf blen stack
          ≡ some (record {
            depth = c.container.depth;
            is_final = is_final_boundary buf blen c.container.boundary_len;
          })))

Search-cons :
    (buf : Bytes) (blen : ℕ) (p : MimePart) (parents : List MimePart)
    → matches buf blen p ≡ false
    → Search buf blen parents
    → Search buf blen (p ∷ parents)
unfolding find_boundary
Search-cons buf blen p parents h (inl (e, a)) = inl (rw h e, (h, a))
Search-cons buf blen p parents h (inr (c, e)) = inr (
  record {
    above = p ∷ c.above;
    container = c.container;
    outer = c.outer;
    split = ap (◌∷◌ p) c.split;
    none_above = (h, c.none_above);
    has_it = c.has_it;
  },
  rw h e,
)

search : (buf : Bytes) (blen : ℕ) (stack : List MimePart) → Search buf blen stack
unfolding find_boundary
search buf blen [] = inl (refl, tt)
search buf blen (p ∷ parents) = elim (Bool-cases (matches buf blen p)) [
  | inl h ↦ inr (
    record {
      above = [];
      container = p;
      outer = parents;
      split = refl;
      none_above = tt;
      has_it = h;
    },
    rw h refl,
  )
  | inr h ↦ Search-cons buf blen p parents h (search buf blen parents)
]

-- A boundary line: more than two bytes that begin with two dashes.
abbrev pub starts_boundary : Bytes → Bool
starts_boundary buf = ltb 2 (length buf) && get_or buf 0 0 == b'-' && get_or buf 1 0 == b'-'

abbrev pub line_length : Bytes → ℕ
line_length buf = strip_eol buf (length buf)

-- The line belongs to no part, and changes nothing.
abbrev pub Ignored : Bytes → List MimePart → Bool × List MimePart → Type 0
Ignored buf stack r =
    (r ≡ (false, stack))
    × (mime_is_boundary buf stack ≡ false)
    × (starts_boundary buf ≡ true → All (λ p. matches buf (line_length buf) p ≡ false) stack)

-- The line belongs to the closest part whose boundary it has. The parts in it are popped; it is
-- then on top if the boundary is a final one, and otherwise gets a new child.
abbrev pub Closes : Bytes → List MimePart → Bool × List MimePart → Type 0
Closes buf stack r =
    (c : Closest buf (line_length buf) stack) × (mime_is_boundary buf stack ≡ true)
    × (r ≡ (
      true,
      if is_final_boundary buf (line_length buf) c.container.boundary_len
          then c.container ∷ c.outer
          else mime_init (c.container ∷ c.outer) ∷ c.container ∷ c.outer,
    ))

pub props_line :
    (buf : Bytes) (stack : List MimePart)
    → starts_boundary buf ≡ true
    → get_boundary_props buf stack ≡ find_boundary buf (line_length buf) stack
unfolding get_boundary_props
props_line buf stack k = rw (k, get_boundary_props) refl

props_other :
    (buf : Bytes) (stack : List MimePart)
    → starts_boundary buf ≡ false
    → get_boundary_props buf stack ≡ none
unfolding get_boundary_props
props_other buf stack k = rw (k, get_boundary_props) refl

ignored_props :
    (buf : Bytes) (stack : List MimePart)
    → get_boundary_props buf stack ≡ none
    → (got_mime_boundary buf stack ≡ (false, stack)) × (mime_is_boundary buf stack ≡ false)
unfolding got_mime_boundary mime_is_boundary
ignored_props buf stack e = (rw (e, got_mime_boundary) refl, rw (e, mime_is_boundary) refl)

found_boundary :
    (buf : Bytes) (stack : List MimePart) (c : Closest buf (line_length buf) stack)
    → WellStacked stack
    → starts_boundary buf ≡ true
    → (find_boundary buf (line_length buf) stack
        ≡ some (record {
          depth = c.container.depth;
          is_final = is_final_boundary buf (line_length buf) c.container.boundary_len;
        }))
    → Closes buf stack (got_mime_boundary buf stack)
unfolding got_mime_boundary mime_is_boundary mime_push
found_boundary buf stack c h k e =
    let popped : pop_to c.container.depth stack ≡ c.container ∷ c.outer =
      ap (pop_to c.container.depth) c.split
      ∙ pop_to_lem c.above c.container c.outer (subst WellStacked c.split h) in
    let next =
      push_next_lem c.container c.outer (matches-is_mime_container buf _ c.container c.has_it) in
    let props = props_line buf stack k ∙ e in
    (c, rw (props, mime_is_boundary) refl, rw (props, got_mime_boundary) (rw (popped, next) refl))

-- On a stack where the depth of each part is the number of its ancestors, a line is ignored and
-- changes nothing, or it ends the parts inside the closest part that it is a boundary of.
pub got_mime_boundary-Closes :
    (buf : Bytes) (stack : List MimePart)
    → WellStacked stack
    → Ignored buf stack (got_mime_boundary buf stack)
      ⊎ Closes buf stack (got_mime_boundary buf stack)
got_mime_boundary-Closes buf stack h = elim (Bool-cases (starts_boundary buf)) [
  | inr k ↦ let (x, y) = ignored_props buf stack (props_other buf stack k) in inl (x, y, λ t. cc)
  | inl k ↦ elim (search buf (line_length buf) stack) [
    | inl (e, a) ↦
        let (x, y) = ignored_props buf stack (props_line buf stack k ∙ e) in inl (x, y, λ _. a)
    | inr (c, e) ↦ inr (found_boundary buf stack c h k e)
  ]
]
