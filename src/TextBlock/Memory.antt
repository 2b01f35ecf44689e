-- ===== src/TextBlock/Memory.antt =====
-- The account of memory of bogofilter/src/textblock.c.
use bogofilter.Prelude.{
  Bytes, List, [], append-nil, append_assoc, arith, length, sym, ℕ, ◌%◌, ◌*◌, ◌++◌, ◌+◌, ◌∙◌, ◌∷◌,
  ◌≡◌,
}
use bogofilter.TextBlock.{
  TextBlocks, size_mod, sub_mem, count_mem, free_nodes, textblock_init, textblock_add,
  textblock_free,
}

-- The lines are added one after the other.
unfoldable pub add_all : ℕ → List Bytes → TextBlocks → TextBlocks
unfolding textblock_add
add_all node [] t = t
add_all node (line ∷ lines) t = add_all node lines (textblock_add node line t)

-- The memory of the blocks.
total : ℕ → List Bytes → ℕ
total node [] = 0
total node (line ∷ lines) = length line + node + total node lines

total-append :
    (node : ℕ) (xs ys : List Bytes) → total node (xs ++ ys) ≡ total node xs + total node ys
unfolding total
total-append node [] ys = omega arith
total-append node (x ∷ xs) ys = omega (arith, total-append node xs ys)

-- Reduced, the counter is what it should be from `base` on.
record Counts (node base : ℕ) (t : TextBlocks) : Type 0 where
  counted : t.cur_mem ≡ (base + total node t.blocks) % size_mod

add-Counts :
    (node base : ℕ) (text : Bytes) (t : TextBlocks)
    → Counts node base t
    → Counts node base (textblock_add node text t)
unfolding textblock_add count_mem total
add-Counts node base text t c = record {
  counted = omega (arith, c.counted, total-append node t.blocks (text ∷ []));
}

add_all-Counts :
    (node base : ℕ) (lines : List Bytes) (t : TextBlocks)
    → Counts node base t
    → Counts node base (add_all node lines t)
unfolding add_all
add_all-Counts node base [] t c = c
add_all-Counts node base (line ∷ lines) t c =
    add_all-Counts node base lines _ (add-Counts node base line t c)

add_all-blocks :
    (node : ℕ) (lines : List Bytes) (t : TextBlocks)
    → (add_all node lines t).blocks ≡ t.blocks ++ lines
unfolding add_all textblock_add count_mem
add_all-blocks node [] t = sym (append-nil t.blocks)
add_all-blocks node (line ∷ lines) t =
    add_all-blocks node lines (textblock_add node line t) ∙ append_assoc t.blocks (line ∷ []) lines

free_nodes_lem :
    (node : ℕ) (blocks : List Bytes) (cur : ℕ)
    → free_nodes node blocks cur ≡ sub_mem cur (total node blocks + node)
unfolding free_nodes total
free_nodes_lem node [] cur = omega arith
free_nodes_lem node (text ∷ blocks) cur =
    omega (arith, free_nodes_lem node blocks (sub_mem cur (length text + node)))

-- From the setup on, the blocks are the lines that were added, in their order; and after they are
-- freed, the counter of memory is smaller than before the setup by the size of a node, which is
-- subtracted once more than it was added.
pub textblock_free-cur_mem :
    (node pointer : ℕ) (lines : List Bytes) (t : TextBlocks)
    → ((add_all node lines (textblock_init node pointer t)).blocks ≡ lines)
      × ((textblock_free node pointer (add_all node lines (textblock_init node pointer t))).cur_mem
          ≡ sub_mem t.cur_mem node)
unfolding textblock_init textblock_free count_mem total
textblock_free-cur_mem node pointer lines t =
    let s = textblock_init node pointer t in
    let e = add_all-blocks node lines s in
    let c =
      add_all-Counts node (t.cur_mem + (2 * pointer + node)) lines s
        (record { counted = omega arith }) in
    (
      e,
      omega (
        arith,
        c.counted,
        free_nodes_lem node (add_all node lines s).blocks (add_all node lines s).cur_mem,
      ),
    )
