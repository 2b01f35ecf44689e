-- ===== src/TextBlock.antt =====
-- bogofilter/src/textblock.c: the lines of a message that are kept to be written again. The linked
-- list ends with a node that is not filled yet; it is left out of the list of blocks here, and the
-- tail is the end of it. The sizes of a node and of a pointer are arguments, and the three totals
-- wrap around as a `size_t` of 64 bits.
pub mod Memory
use bogofilter.Prelude.{Bytes, List, [], length, max, ℕ, ◌%◌, ◌*◌, ◌++◌, ◌+◌, ◌-◌, ◌>>=◌, ◌^◌, ◌∷◌}

pub record TextBlocks : Type 0 where
  pub blocks : List Bytes
  pub cur_mem : ℕ
  pub max_mem : ℕ
  pub tot_mem : ℕ

abbrev pub size_mod : ℕ
size_mod = 2 ^ 64

-- The totals after an allocation.
unfoldable pub count_mem : ℕ → TextBlocks → TextBlocks
count_mem mem t =
    let cur = (t.cur_mem + mem) % size_mod in
    record t { cur_mem = cur; tot_mem = (t.tot_mem + mem) % size_mod; max_mem = max t.max_mem cur }

-- `x -= y` of a `size_t`.
abbrev pub sub_mem : ℕ → ℕ → ℕ
sub_mem x y = (x + size_mod - y % size_mod) % size_mod

-- The nodes from the head on, the last one included.
unfoldable pub free_nodes : ℕ → List Bytes → ℕ → ℕ
free_nodes node [] cur = sub_mem cur node
free_nodes node (text ∷ blocks) cur = free_nodes node blocks (sub_mem cur (length text + node))

module _ (node : ℕ) where
  -- A `textblock_t` is two pointers.
  unfoldable pub textblock_init : ℕ → TextBlocks → TextBlocks
  unfolding count_mem
  textblock_init pointer t = record (count_mem (2 * pointer + node) t) { blocks = [] }

  -- The text is not empty, and its size is the length of the list; the byte behind it is copied
  -- too, and then cleared.
  unfoldable pub textblock_add : Bytes → TextBlocks → TextBlocks
  unfolding count_mem
  textblock_add text t = record (count_mem (length text + node) t) {
    blocks = t.blocks ++ text ∷ [];
  }

  unfoldable pub textblock_free : ℕ → TextBlocks → TextBlocks
  unfolding free_nodes
  textblock_free pointer t = record t {
    blocks = [];
    cur_mem = sub_mem (sub_mem (free_nodes node t.blocks t.cur_mem) node) (pointer + pointer);
  }
