-- ===== src/Merkle.antt =====
-- nssa/src/merkle_tree/mod.rs: the Merkle tree of the commitments, level by level in one vector.
-- `None` is a panic: an index out of bounds, an underflow, or more levels than the table has.
mod Defaults
pub use Defaults.{default_values}
use logos_execution_zone.Prelude.{
  ℕ, zero, suc, ◌+◌, ◌-◌, ◌*◌, ◌/◌, ◌%◌, ◌^◌, Bool, true, false, Option, none, some, List, [], ◌∷◌,
  ◌++◌, length, get_elem?, set, replicate, and_then, checked_sub, le_bytes, ltb, leb, ◌==◌,
  if◌then◌else◌,
}

abbrev pub Node : Type 0
Node = ℕ

pub record MerkleTree : Type 0 where
  pub nodes : List Node
  pub capacity : ℕ
  pub len : ℕ

-- The exponent of `n.next_power_of_two()`, counted up from `k` in at most `fuel` steps.
unfoldable pub log2_ceil_from : ℕ → ℕ → ℕ → ℕ
log2_ceil_from zero k n = k
log2_ceil_from (suc fuel) k n =
    let next = log2_ceil_from fuel (k + 1) n in if leb n (2 ^ k) then k else next

-- A `usize` has 64 bits.
unfoldable pub log2_ceil : ℕ → ℕ
unfolding log2_ceil_from
log2_ceil n = log2_ceil_from 64 0 n

abbrev pub next_power_of_two : ℕ → ℕ
next_power_of_two n = 2 ^ log2_ceil n

-- `prev_power_of_two`, by halving until nothing is left.
prev_power_from : ℕ → ℕ → ℕ
prev_power_from zero x = 1
prev_power_from (suc fuel) x =
    let half = 2 * prev_power_from fuel (x / 2) in if leb x 1 then 1 else half

unfoldable pub prev_power_of_two : ℕ → ℕ
unfolding prev_power_from
prev_power_of_two x = if x == 0 then 0 else prev_power_from 64 x

-- The levels from the root down: level `level` has `2^level` copies of its default value.
default_levels : ℕ → ℕ → Option (List Node)
default_levels zero level =
    and_then (get_elem? default_values 0) λ value. some (replicate (2 ^ level) value)
default_levels (suc height) level = and_then (get_elem? default_values (suc height)) λ value.
    and_then (default_levels height (level + 1))
      λ below. some (replicate (2 ^ level) value ++ below)

unfoldable pub with_capacity : ℕ → Option MerkleTree
unfolding default_levels and_then log2_ceil
with_capacity capacity =
    and_then (default_levels (log2_ceil capacity) 0)
      λ nodes. some (record { nodes = nodes; capacity = next_power_of_two capacity; len = 0 })

-- Number of levels below the root of the part in use. The capacity is a power of two, so that its
-- trailing zeros are its logarithm.
abbrev pub depth : MerkleTree → ℕ
depth tree = log2_ceil tree.len

abbrev pub capacity_depth : MerkleTree → ℕ
capacity_depth tree = log2_ceil tree.capacity

unfoldable pub root_index : MerkleTree → ℕ
unfolding log2_ceil
root_index tree =
    if depth tree == capacity_depth tree then 0 else 2 ^ (capacity_depth tree - depth tree) - 1

-- `root`
unfoldable pub root : MerkleTree → Option Node
unfolding root_index
root tree = get_elem? tree.nodes (root_index tree)

unfoldable pub set_node : List Node → ℕ → Node → Option (List Node)
set_node nodes index node = if ltb index (length nodes) then some (set nodes index node) else none

-- The loop of `reallocate_to_double_capacity`: `index` is the place of the head of the old nodes.
copy_nodes : ℕ → List Node → List Node → Option (List Node)
copy_nodes index [] new = some new
copy_nodes index (value ∷ old) new =
    and_then (set_node new (index + prev_power_of_two (index + 1)) value)
      λ next. copy_nodes (index + 1) old next

unfoldable pub reallocate_to_double_capacity : MerkleTree → Option MerkleTree
unfolding with_capacity copy_nodes set_node prev_power_of_two
reallocate_to_double_capacity tree = and_then (with_capacity (tree.capacity * 2)) λ new.
    and_then (copy_nodes 0 tree.nodes new.nodes)
      λ nodes. some (record new { nodes = nodes; len = tree.len })

module _ (sha256 : List ℕ → ℕ) where
  -- The hash of two child nodes.
  unfoldable pub hash_two : Node → Node → Node
  hash_two left right = sha256 (le_bytes 32 left ++ le_bytes 32 right)

  unfoldable pub hash_value : ℕ → Node
  hash_value value = sha256 (le_bytes 32 value)

  -- The loop of `insert`, `levels` rounds up from `node_index`.
  unfoldable pub update_parents : ℕ → ℕ → List Node → Option (List Node)
  update_parents zero node_index nodes = some nodes
  update_parents (suc levels) node_index nodes = and_then (checked_sub node_index 1) λ below.
      let parent = below / 2 in
      and_then (get_elem? nodes (parent * 2 + 1)) λ left.
        and_then (get_elem? nodes (parent * 2 + 2)) λ right.
          and_then (set_node nodes parent (hash_two left right))
            λ next. update_parents levels parent next

  -- `insert`, after the room has been made.
  unfoldable pub insert_leaf : ℕ → MerkleTree → Option (ℕ × MerkleTree)
  insert_leaf value tree =
      let node_index = tree.len + tree.capacity - 1 in
      and_then (set_node tree.nodes node_index (hash_value value)) λ placed.
        and_then (update_parents (log2_ceil (tree.len + 1)) node_index placed)
          λ nodes. some (tree.len, record tree { nodes = nodes; len = tree.len + 1 })

  unfoldable pub insert : ℕ → MerkleTree → Option (ℕ × MerkleTree)
  unfolding reallocate_to_double_capacity insert_leaf update_parents hash_two hash_value set_node
      and_then
  insert value tree =
      if tree.len == tree.capacity
      then and_then (reallocate_to_double_capacity tree) (insert_leaf value)
      else insert_leaf value tree

-- The loop of `get_authentication_path_for`, with the depth of the tree as the bound on its rounds.
path_from : ℕ → MerkleTree → ℕ → Option (List Node)
path_from zero tree node_index = if node_index == root_index tree then some [] else none
path_from (suc rounds) tree node_index =
    let rest = and_then (checked_sub node_index 1) λ below.
      let sibling = if node_index % 2 == 1 then node_index + 1 else node_index - 1 in
      and_then (get_elem? tree.nodes sibling)
        λ node. and_then (path_from rounds tree (below / 2)) λ path. some (node ∷ path) in
    if node_index == root_index tree then some [] else rest

-- The source's `None` for an index that is not in use is `some none`.
unfoldable pub get_authentication_path_for : MerkleTree → ℕ → Option (Option (List Node))
unfolding path_from root_index and_then
get_authentication_path_for tree index =
    if leb tree.len index
    then some none
    else and_then (path_from (depth tree) tree (tree.capacity + index - 1)) λ path. some (some path)
