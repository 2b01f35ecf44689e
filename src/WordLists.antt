-- ===== src/WordLists.antt =====
-- bogofilter/src/wordlists_base.c and the configuration of word lists in bogofilter/src/wordlists.c.
-- The queue `word_lists` is a list of records. An `int` (the precedence) is kept as its distance
-- from INT_MIN, so that its order is that of the natural numbers.
pub mod Queue
pub mod Begin
pub mod SameBytes
use bogofilter.Prelude.{
  Bool, Bytes, List, Option, [], false, get_or, if◌then◌else◌, leb, ltb, none, not, some, true, ℕ,
  ◌&&◌, ◌-◌, ◌==◌, ◌>>=◌, ◌^◌, ◌||◌, ◌∷◌,
}

pub data WlType : Type 0 where
  wl_regular wl_ignore : WlType

-- 0 as an `int`
abbrev pub int_zero : ℕ
int_zero = 2 ^ 31

-- `wordlist_t`, with the state of the open database; `path` is `bfp->filepath`.
pub record Wordlist (Db : Type 0) : Type 0 where
  pub listname : Bytes
  pub path : Option Bytes
  pub dsh : Db
  pub msgs_good : ℕ
  pub msgs_spam : ℕ
  pub type : WlType
  pub override : ℕ
  pub encoding : ℕ

unfoldable pub same_bytes : Bytes → Bytes → Bool
same_bytes [] [] = true
same_bytes [] (y ∷ b) = false
same_bytes (x ∷ a) [] = false
same_bytes (x ∷ a) (y ∷ b) = x == y && same_bytes a b

same_type : WlType → WlType → Bool
same_type wl_regular wl_regular = true
same_type wl_ignore wl_ignore = true
same_type _ _ = false

-- The paths differ only if both are there.
paths_differ : Option Bytes → Option Bytes → Bool
unfolding same_bytes
paths_differ (some a) (some b) = not (same_bytes a b)
paths_differ (some a) none = false
paths_differ none b = false

module _ {Db : Type 0} where
  pub is_dup_wordlist : Wordlist Db → Wordlist Db → Bool
  unfolding same_bytes same_type paths_differ
  is_dup_wordlist a b =
      if not (same_type a.type b.type)
      then false
      else if not (a.override == b.override)
      then false
      else if not (same_bytes a.listname b.listname)
      then false
      else not (paths_differ a.path b.path)

  -- The loop behind the head of the queue.
  pub enqueue_after : Wordlist Db → List (Wordlist Db) → List (Wordlist Db)
  enqueue_after n [] = []
  enqueue_after n (p ∷ []) = if is_dup_wordlist n p then p ∷ [] else p ∷ n ∷ []
  enqueue_after n (p ∷ q ∷ rest) =
      let later = enqueue_after n (q ∷ rest) in
      if is_dup_wordlist n p
      then p ∷ q ∷ rest
      else if ltb n.override q.override
      then p ∷ n ∷ q ∷ rest
      else p ∷ later

  -- The queue after a call for the list `n`.
  unfoldable pub init_wordlist : Wordlist Db → List (Wordlist Db) → List (Wordlist Db)
  unfolding enqueue_after
  init_wordlist n [] = n ∷ []
  init_wordlist n (p ∷ rest) =
      if ltb n.override p.override then n ∷ p ∷ rest else enqueue_after n (p ∷ rest)

  -- `none` is the exit with a message.
  unfoldable pub get_default_wordlist : List (Wordlist Db) → Option (Wordlist Db)
  get_default_wordlist [] = none
  get_default_wordlist (l ∷ ls) = elim l.type [
    | wl_ignore ↦ get_default_wordlist ls
    | wl_regular ↦ some l
  ]

-- The characters up to one of ", \t", and what follows that one.
break_word : Bytes → Bytes × Option Bytes
break_word [] = ([], none)
break_word (c ∷ p) =
    let (w, rest) = break_word p in
    if c == b',' || c == b' ' || c == b'\t' then ([], some p) else (c ∷ w, rest)

skip_blanks : Bytes → Bytes
skip_blanks [] = []
skip_blanks (c ∷ p) = let rest = skip_blanks p in if c == b' ' || c == b'\t' then rest else c ∷ p

-- The word that the delimiter's NUL ends, and the pointer that is returned.
unfoldable pub spanword : Bytes → Bytes × Bytes
unfolding break_word skip_blanks
spanword p = let (w, rest) = break_word p in (w, elim rest [ none ↦ [] | some r ↦ skip_blanks r ])

-- `toupper` in the C locale
abbrev pub toupper : ℕ → ℕ
toupper c = if leb b'a' c && leb c b'z' then c - 32 else c

-- The fields of one `wordlist` line: type, name, file and the text of the precedence. A type other
-- than R and I is an error.
unfoldable pub parse_wordlist : Bytes → Option (WlType × Bytes × Bytes × Bytes)
unfolding spanword
parse_wordlist val =
    let ch = get_or val 0 0 in
    let (_, p1) = spanword val in
    let (listname, p2) = spanword p1 in
    let (filename, p3) = spanword p2 in
    if toupper ch == b'R'
    then some (wl_regular, listname, filename, p3)
    else if toupper ch == b'I'
    then some (wl_ignore, listname, filename, p3)
    else none

-- `atoi` of the C library and the fresh record of a list are arguments.
unfoldable pub configure_wordlist :
    {Db : Type 0}
    → (Bytes → ℕ)
    → (WlType → Bytes → Bytes → ℕ → Wordlist Db)
    → Bytes
    → List (Wordlist Db)
    → Bool × List (Wordlist Db)
unfolding parse_wordlist init_wordlist
configure_wordlist atoi new_list val lists = elim (parse_wordlist val) [
  | none ↦ (false, lists)
  | some (type, listname, filename, tmp) ↦
      (true, init_wordlist (new_list type listname filename (atoi tmp)) lists)
]
