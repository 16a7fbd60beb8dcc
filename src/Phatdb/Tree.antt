-- ===== src/Phatdb/Tree.antt =====
-- The tree of files (phatdb/phatdb.go). A node is created in one place and stays there, so that a
-- pointer to a node is a path from the root; the data of the root is nil.
use go_phat.Prelude.{
  ℕ, ◌+◌, String, Option, none, some, List, [], ◌∷◌, Bool, str_eq, u64, if◌then◌else◌,
}

pub record StatNode : Type 0 where
  pub version : ℕ
  pub c_version : ℕ
  pub num_children : ℕ

pub record DataNode : Type 0 where
  pub value : String
  pub stats : StatNode

-- The children are a map from names to nodes.
mutual
  pub data FileNode : Type 0 where
    file : Option DataNode → Children → FileNode

  pub data Children : Type 0 where
    no_children : Children
    child_entry : String → FileNode → Children → Children

abbrev pub node_data : FileNode → Option DataNode
node_data (file d kids) = d

abbrev pub children : FileNode → Children
children (file d kids) = kids

-- temp.Children[part]
unfoldable pub child : String → Children → Option FileNode
child part no_children = none
child part (child_entry name node rest) = if str_eq name part then some node else child part rest

-- temp.Children[part] = node
unfoldable pub with_child : String → FileNode → Children → Children
with_child part new no_children = child_entry part new no_children
with_child part new (child_entry name node rest) =
    if str_eq name part
    then child_entry part new rest
    else child_entry name node (with_child part new rest)

-- delete(p.Children, part)
unfoldable pub without_child : String → Children → Children
without_child part no_children = no_children
without_child part (child_entry name node rest) =
    let others = without_child part rest in
    if str_eq name part then others else child_entry name node others

unfoldable pub child_names : Children → List String
child_names no_children = []
child_names (child_entry name node rest) = name ∷ child_names rest

abbrev pub zero_data : DataNode
zero_data = record { value = ""; stats = record { version = 0; c_version = 0; num_children = 0 } }

-- A node as `traverseToNode` creates it.
abbrev pub new_node : FileNode
new_node = file (some zero_data) no_children

-- The node is put in the place of the child.
abbrev pub set_child : FileNode → String → FileNode → FileNode
set_child (file d kids) part new = file d (with_child part new kids)

-- `traverseToNode`: the tree afterwards, and the node that was found; `none` is `ErrNotExist`.
unfoldable pub traverse_to_node :
    FileNode → List String → (create_missing : Bool) → FileNode × Option FileNode
traverse_to_node temp [] create_missing = (temp, some temp)
traverse_to_node temp (part ∷ parts) create_missing = elim (child part (children temp)) [
  | none ↦
      if create_missing
      then (let (c, found) = traverse_to_node new_node parts create_missing in
          (set_child temp part c, found))
      else (temp, none)
  | some c ↦
      let (c', found) = traverse_to_node c parts create_missing in (set_child temp part c', found)
]

-- A write through the pointer to the node at a path that is there.
unfoldable pub write_node : FileNode → List String → FileNode → FileNode
write_node temp [] new = new
write_node temp (part ∷ parts) new = elim (child part (children temp)) [
  | none ↦ temp
  | some c ↦ set_child temp part (write_node c parts new)
]

-- `_setNode` on data that is not nil
unfoldable pub set_data : DataNode → String → DataNode
set_data d val = record {
  value = val;
  stats = record (d.stats) { version = u64 (d.stats.version + 1) };
}
