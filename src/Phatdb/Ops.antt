-- ===== src/Phatdb/Ops.antt =====
-- The operations of phatdb/phatdb.go. Each returns the tree afterwards and an outcome.
pub mod View
pub mod Writes
pub mod Reads
pub mod Removal
pub mod Twice
pub mod Root
use go_phat.Prelude.{
  ℕ, zero, suc, String, Option, none, some, List, [], ◌∷◌, Bool, true, false, not, ◌==◌,
  if◌then◌else◌,
}
use go_phat.Phatdb.Path.{get_node_path}
use go_phat.Phatdb.Tree.{
  StatNode, DataNode, FileNode, file, node_data, children, child_names, without_child,
  traverse_to_node, write_node, set_data,
}

-- An error of package os, or a run-time panic: a nil pointer, or slice bounds out of range.
pub data Outcome (A : Type 0) : Type 0 where
  value : A → Outcome A
  not_exist exist panic : Outcome A

-- `_setNode(n, val)` on the node at a path, and its data afterwards; nil data panics.
unfoldable pub set_node_at :
    FileNode → List String → FileNode → String → FileNode × Outcome DataNode
unfolding set_data
set_node_at root parts n val = elim (node_data n) [
  | none ↦ (root, panic)
  | some d ↦
      let d' = set_data d val in (write_node root parts (file (some d') (children n)), value d')
]

abbrev version_of : Option DataNode → Option ℕ
version_of none = none
version_of (some d) = some d.stats.version

pub create_found : FileNode → List String → FileNode → String → FileNode × Outcome DataNode
create_found root parts n val = elim (version_of (node_data n)) [
  | none ↦ (root, panic)
  | some version ↦ if version == 0 then set_node_at root parts n val else (root, exist)
]

-- The second result of `traverseToNode` is ignored: with `createMissing` a node is always found.
unfoldable pub create_node : FileNode → String → String → FileNode × Outcome DataNode
unfolding create_found
create_node root path val =
    let (root', n) = traverse_to_node root (get_node_path path) true in
    elim n [ none ↦ (root', panic) | some n ↦ create_found root' (get_node_path path) n val ]

unfoldable pub set_node : FileNode → String → String → FileNode × Outcome DataNode
set_node root path val =
    let (root', n) = traverse_to_node root (get_node_path path) false in
    elim n [ none ↦ (root', not_exist) | some n ↦ set_node_at root' (get_node_path path) n val ]

-- parts[:len(parts)-1] and parts[len(parts)-1]; `none` on no parts, where the slice panics.
unfoldable pub split_last : List String → Option (List String × String)
split_last [] = none
split_last (part ∷ parts) = elim (split_last parts) [
  | none ↦ some ([], part)
  | some (front, last) ↦ some (part ∷ front, last)
]

unfoldable pub stats_of : Option DataNode → Outcome StatNode
stats_of none = panic
stats_of (some d) = value d.stats

pub delete_from : FileNode → FileNode → Option (List String × String) → FileNode × Outcome StatNode
unfolding stats_of
delete_from root n none = (root, panic)
delete_from root n (some (front, last)) =
    let (root', p) = traverse_to_node root front false in
    elim p [
      | none ↦ (root', not_exist)
      | some p ↦ (
        write_node root' front (file (node_data p) (without_child last (children p))),
        stats_of (node_data n),
      )
    ]

unfoldable pub delete_node : FileNode → String → FileNode × Outcome StatNode
unfolding delete_from split_last
delete_node root path =
    let (root', n) = traverse_to_node root (get_node_path path) false in
    elim n [
      | none ↦ (root', not_exist)
      | some n ↦ delete_from root' n (split_last (get_node_path path))
    ]

-- A read leaves the tree as it is.
unfoldable pub exists_node : FileNode → String → Bool
exists_node root path = elim (traverse_to_node root (get_node_path path) false).1 [
  | none ↦ false
  | some n ↦ true
]

-- Go iterates over a map in no fixed order; here the names come in the order of the entries.
unfoldable pub get_children : FileNode → String → Outcome (List String)
get_children root path = elim (traverse_to_node root (get_node_path path) false).1 [
  | none ↦ not_exist
  | some n ↦ value (child_names (children n))
]

-- The data of the root is a nil pointer.
unfoldable pub get_node : FileNode → String → Outcome (Option DataNode)
get_node root path = elim (traverse_to_node root (get_node_path path) false).1 [
  | none ↦ not_exist
  | some n ↦ value (node_data n)
]
