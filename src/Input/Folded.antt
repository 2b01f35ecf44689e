-- ===== src/Input/Folded.antt =====
-- The end of the loop of `skip_folded_line` in bogofilter/src/lexer.c.
use bogofilter.Prelude.{
  Bool-cases, Bytes, Option, [], ap, arith, false, get_or, inl, inr, length, length-take, ltb,
  lt→ltb, min, refl, some, suc, sym, true, zero, ℕ, ◌-◌, ◌<◌, ◌∙◌, ◌∷◌, ◌≡◌, ◌≢◌, ◌⊎◌,
}
use bogofilter.Word.{memcpy}
use bogofilter.Buff.{Buff, Stream, buff_fgetsl, uint_max, fgets_loop}
use bogofilter.Buff.Contents.{IsSound, EndsRight, contents, buff_fgetsln-Reads, read_count}
use bogofilter.Buff.Fgets.{length-memcpy, fgets_loop-nil, fgets_loop-cons}
use bogofilter.Reader.{Reader, GotLine, simple_getline, mark_end}
use bogofilter.Input.{ends_field, after_folded, skip_folded_line}

true≢false : true ≢ false
true≢false = λ e. cc

mark_end-size : (b : Buff) → (mark_end b).size ≡ b.size
unfolding mark_end
mark_end-size b = elim (Bool-cases (ltb b.leng b.size)) [ inl e ↦ rw e refl | inr e ↦ rw e refl ]

mark_end-IsSound : (b : Buff) → IsSound b → IsSound (mark_end b)
unfolding mark_end
mark_end-IsSound b (h, k) = elim (Bool-cases (ltb b.leng b.size)) [
  | inl e ↦ let same = length-memcpy b.text b.leng (0 ∷ []) (omega arith) in rw e (h, omega arith)
  | inr e ↦ rw e (h, k)
]

-- An empty buffer with room begins with a NUL.
mark_end-nul : (b : Buff) → b.leng ≡ 0 → 0 < b.size → get_or (mark_end b).text 0 0 ≡ 0
unfolding mark_end
mark_end-nul b e h =
    rw (lt→ltb b.leng b.size (omega arith)) (ap (λ n. get_or (memcpy b.text n (0 ∷ [])) 0 0) e)

-- A line that was read into a buffer that was emptied.
LineRead : Buff → Reader → Type 0
LineRead b r =
    (count : Option ℕ) × (b' : Buff) × (s : Stream) × (simple_getline (record b { leng = 0 }) r
      ≡ some (count, mark_end b', record r { fpin = s }))
    × IsSound b'
    × (b'.size ≡ b.size)
    × EndsRight s
    × (((b'.leng ≡ 0) × (s.rest ≡ [])) ⊎ (length s.rest < length r.fpin.rest))

simple_getline-read :
    (b : Buff) (r : Reader) (count : Option ℕ) (b' : Buff) (s : Stream)
    → buff_fgetsl b r.fpin ≡ some (count, (b', s))
    → simple_getline b r ≡ some (count, mark_end b', record r { fpin = s })
unfolding simple_getline
simple_getline-read b r count b' s e = rw e refl

shorter : (room : ℕ) (s : Bytes) → 0 < room → (s ≡ []) ⊎ (length (fgets_loop room s).1 < length s)
shorter zero s h = absurd (omega arith)
shorter (suc room) [] h = inl refl
shorter (suc room) (c ∷ s) h = inr (omega (arith, fgets_loop-cons room c s))

emptied : (b : Buff) → IsSound b → contents b ≡ [] → b.leng ≡ 0
emptied b (h, k) e = omega (arith, ap length e, length-take b.leng b.text)

line_read : (b : Buff) (r : Reader) → IsSound b → EndsRight r.fpin → 0 < b.size → LineRead b r
unfolding LineRead
line_read b r (h, k) ends pos =
    let b0 : Buff = record b { leng = 0 } in
    let room = min (b.size - 0) uint_max in
    let (b', s, e, text, rest, sound, ends', size, _) =
      buff_fgetsln-Reads b0 r.fpin uint_max (omega arith, k) ends in
    let line = fgets_loop room r.fpin.rest in
    (
      read_count room line.0,
      b',
      s,
      simple_getline-read b0 r (read_count room line.0) b' s e,
      sound,
      size,
      ends',
      elim (shorter room r.fpin.rest (omega arith)) [
        | inl nil ↦ inl (
          emptied b' sound (text ∙ ap (λ l. l.0) (ap (fgets_loop room) nil ∙ fgets_loop-nil room)),
          rest ∙ ap (λ t. (fgets_loop room t).1) nil ∙ ap (λ l. l.1) (fgets_loop-nil room),
        )
        | inr less ↦ inr (omega (arith, ap length rest))
      ],
    )

ends_field-nul : (count : Option ℕ) (b : Buff) → get_or b.text 0 0 ≡ 0 → ends_field count b ≡ true
unfolding ends_field
ends_field-nul count b e = rw e refl

after_folded-ends :
    (count : Option ℕ) (b : Buff) (r : Reader) (next : Buff → Reader → GotLine)
    → ends_field count b ≡ true
    → after_folded (some (count, b, r)) next ≡ some (count, b, r)
unfolding after_folded
after_folded-ends count b r next e = rw e refl

after_folded-next :
    (count : Option ℕ) (b : Buff) (r : Reader) (next : Buff → Reader → GotLine)
    → ends_field count b ≡ false
    → after_folded (some (count, b, r)) next ≡ next b r
unfolding after_folded
after_folded-next count b r next e = rw e refl

-- The loop's first pass, for the line that was read.
skip-line :
    (k : ℕ) (b : Buff) (r : Reader) (count : Option ℕ) (b' : Buff) (r' : Reader)
    → simple_getline (record b { leng = 0 }) r ≡ some (count, b', r')
    → skip_folded_line simple_getline (suc k) b r
      ≡ after_folded (some (count, b', r')) (λ b'' r''. skip_folded_line simple_getline k b'' r'')
unfolding skip_folded_line
skip-line k b r count b' r' e =
    ap (λ g. after_folded g (λ b'' r''. skip_folded_line simple_getline k b'' r'')) e

-- A single mail is read into a sound buffer of some size, from a stream that ends properly. With
-- fuel for one pass more than the stream has bytes, the loop ends, in a sound buffer whose line is
-- not folded or is empty. At the end of the file, where nothing is read, this holds because the
-- reader sets a NUL behind the text.
pub skip_folded_line-ends :
    (k : ℕ) (b : Buff) (r : Reader)
    → length r.fpin.rest < k
    → IsSound b
    → 0 < b.size
    → EndsRight r.fpin
    → (count : Option ℕ) × (b' : Buff) × (r' : Reader) × (skip_folded_line simple_getline k b r
        ≡ some (count, b', r'))
      × (ends_field count b' ≡ true)
      × IsSound b'
unfolding LineRead
skip_folded_line-ends zero b r h sound pos ends = absurd (omega arith)
skip_folded_line-ends (suc k) b r h sound pos ends =
    let (count, b1, s, e, sound1, size, ends1, progress) = line_read b r sound ends pos in
    let b' = mark_end b1 in
    let r' = record r { fpin = s } in
    let first = skip-line k b r count b' r' e in
    let next = λ (b'' : Buff) (r'' : Reader). skip_folded_line simple_getline k b'' r'' in
    elim (Bool-cases (ends_field count b')) [
      | inl t ↦ (
        count,
        b',
        r',
        first ∙ after_folded-ends count b' r' next t,
        t,
        mark_end-IsSound b1 sound1,
      )
      | inr t ↦ elim progress [
        | inl (nothing, _) ↦
            absurd (
              true≢false
                (sym (ends_field-nul count b' (mark_end-nul b1 nothing (omega arith))) ∙ t))
        | inr less ↦
            let (count2, b2, r2, run, t2, sound2) =
              skip_folded_line-ends k b' r' (omega arith) (mark_end-IsSound b1 sound1)
                (omega (arith, mark_end-size b1)) ends1 in
            (count2, b2, r2, first ∙ after_folded-next count b' r' next t ∙ run, t2, sound2)
      ]
    ]
