-- ===== src/Phatdb/Ops/Reads.antt =====
-- The operations of phatdb/phatdb.go as changes of what is at each path.
use go_phat.Prelude.{
  String, ◌≡◌, refl, sym, ◌∙◌, ap, Option, none, some, List, Bool, true, false, if◌then◌else◌,
  Option-cases, inl, inr, arith,
}
use go_phat.Phatdb.Path.{get_node_path}
use go_phat.Phatdb.Tree.{DataNode, FileNode, file, Children, node_data, traverse_to_node, set_data}
use go_phat.Phatdb.Ops.{
  Outcome, value, not_exist, set_node_at, create_found, create_node, set_node, delete_node,
  exists_node, get_children, get_node,
}
use go_phat.Phatdb.Ops.View.{
  view, subtree, list_eq, is_prefix, or_zero, traverse_to_node-finds, traverse_to_node-creates,
  view-subtree, view-traverse_to_node,
}
use go_phat.Phatdb.Ops.Writes.{view-write_data}

abbrev pub read : Option (Option DataNode) → Outcome (Option DataNode)
read none = not_exist
read (some d) = value d

abbrev pub found : Option (Option DataNode) → Bool
found none = false
found (some d) = true

same_tree : (root : FileNode) (ps : List String) → (traverse_to_node root ps false).0 ≡ root
same_tree root ps = ap (λ r. r.0) (traverse_to_node-finds root ps)

finds :
    (root : FileNode) (ps : List String) (o : Option FileNode)
    → subtree root ps ≡ o
    → (traverse_to_node root ps false).1 ≡ o
finds root ps o e = ap (λ r. r.1) (traverse_to_node-finds root ps) ∙ e

-- GET answers what is at the path, and EXISTS whether anything is.
pub get_node-view :
    (root : FileNode) (path : String)
    → (get_node root path ≡ read (view root (get_node_path path)))
      × (exists_node root path ≡ found (view root (get_node_path path)))
unfolding get_node exists_node
get_node-view root path =
    let ps = get_node_path path in
    elim (Option-cases (subtree root ps)) [
      | inl e ↦ (
        rw (view-subtree root ps, e, finds root ps none e, get_node) refl,
        rw (view-subtree root ps, e, finds root ps none e, exists_node) refl,
      )
      | inr (n, e) ↦ (
        rw (view-subtree root ps, e, finds root ps (some n) e, get_node) refl,
        rw (view-subtree root ps, e, finds root ps (some n) e, exists_node) refl,
      )
    ]

-- Where no node is, SET and DELETE fail and change nothing, and GET, CHILDREN and EXISTS say so.
pub missing-not_exist :
    (root : FileNode) (path val : String)
    → subtree root (get_node_path path) ≡ none
    → (set_node root path val ≡ (root, not_exist))
      × (delete_node root path ≡ (root, not_exist))
      × (get_node root path ≡ not_exist)
      × (get_children root path ≡ not_exist)
      × (exists_node root path ≡ false)
unfolding set_node delete_node get_node get_children exists_node
missing-not_exist root path val e =
    let tree = same_tree root (get_node_path path) in
    let node = finds root (get_node_path path) none e in
    (
      rw (node, tree, set_node) refl,
      rw (node, tree, delete_node) refl,
      rw (node, get_node) refl,
      rw (node, get_children) refl,
      rw (node, exists_node) refl,
    )

set_node-there :
    (root n : FileNode) (path val : String)
    → subtree root (get_node_path path) ≡ some n
    → set_node root path val ≡ set_node_at root (get_node_path path) n val
unfolding set_node
set_node-there root n path val e =
    let ps = get_node_path path in rw (finds root ps (some n) e, same_tree root ps, set_node) refl

-- SET on a path where a node with data is stores the value, counts the version up (modulo 2 ^ 64),
-- keeps the children and changes no other path.
pub set_node-view :
    (root : FileNode) (path val : String) (d : DataNode) (kids : Children)
    → subtree root (get_node_path path) ≡ some (file (some d) kids)
    → ((set_node root path val).1 ≡ value (set_data d val))
      × ((qs : List String)
          → view (set_node root path val).0 qs ≡ (
              if list_eq qs (get_node_path path)
              then some (some (set_data d val))
              else view root qs))
unfolding set_node_at
set_node-view root path val d kids e =
    let ps = get_node_path path in
    rw (set_node-there root (file (some d) kids) path val e)
      (refl, λ qs. view-write_data root ps qs (file (some d) kids) (some (set_data d val)) e)

-- The data at a path after the walk that creates missing nodes.
abbrev pub walked : FileNode → List String → List String → Option (Option DataNode)
walked root ps qs = if is_prefix qs ps then or_zero (view root qs) else view root qs

data_at :
    (o : Option FileNode) (x : Option DataNode)
    → (elim o [ none ↦ none | some n ↦ some (node_data n) ]) ≡ some x
    → (kids : Children) × (o ≡ some (file x kids))
data_at none x e = absurd (ground arith)
data_at (some (file d kids)) x e =
    let same : d ≡ x = ground arith in (kids, ap (λ d. some (file d kids)) same)

pub create_node-walked :
    (root : FileNode) (path val : String) (x : Option DataNode)
    → walked root (get_node_path path) (get_node_path path) ≡ some x
    → (kids : Children) × (subtree
          (traverse_to_node root (get_node_path path) true).0
          (get_node_path path)
        ≡ some (file x kids))
      × (create_node root path val
          ≡ create_found
              (traverse_to_node root (get_node_path path) true).0
              (get_node_path path)
              (file x kids)
              val)
unfolding create_node
create_node-walked root path val x e =
    let ps = get_node_path path in
    let root' = (traverse_to_node root ps true).0 in
    let (kids, there) =
      data_at (subtree root' ps) x
        (sym (view-subtree root' ps) ∙ view-traverse_to_node root ps ps ∙ e) in
    let node : (traverse_to_node root ps true).1 ≡ some (file x kids) =
      traverse_to_node-creates root ps ∙ there in
    (kids, there, rw (node, create_node) refl)

-- CREATE on a path whose node has version 0, or is missing, adds the missing nodes on the way with
-- empty data, stores the value, counts the version up, and changes no other path.
pub create_node-view :
    (root : FileNode) (path val : String) (d : DataNode)
    → walked root (get_node_path path) (get_node_path path) ≡ some (some d)
    → d.stats.version ≡ 0
    → ((create_node root path val).1 ≡ value (set_data d val))
      × ((qs : List String)
          → view (create_node root path val).0 qs ≡ (
              if list_eq qs (get_node_path path)
              then some (some (set_data d val))
              else walked root (get_node_path path) qs))
unfolding create_found set_node_at
create_node-view root path val d e zero_version =
    let ps = get_node_path path in
    let (kids, there, run) = create_node-walked root path val (some d) e in
    let root' = (traverse_to_node root ps true).0 in
    let set : create_node root path val ≡ set_node_at root' ps (file (some d) kids) val =
      rw (run, zero_version) refl in
    rw set (
      refl,
      λ qs.
          view-write_data root' ps qs (file (some d) kids) (some (set_data d val)) there
          ∙ ap (λ rest. if list_eq qs ps then some (some (set_data d val)) else rest)
              (view-traverse_to_node root ps qs),
    )
