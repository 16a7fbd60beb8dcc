-- ===== src/Phatdb/Ops/Root.antt =====
-- The writes at the root (phatdb/phatdb.go): a path without a name leads to the root, which has no
-- data, and the server panics.
use go_phat.Prelude.{String, ◌≡◌, refl, Option, none, some, List, [], Bool, true, false}
use go_phat.Phatdb.Path.{get_node_path}
use go_phat.Phatdb.Tree.{DataNode, FileNode, file, Children, node_data, traverse_to_node}
use go_phat.Phatdb.Ops.{panic, set_node_at, split_last, create_node, set_node, delete_node}

stays :
    (root : FileNode) (ps : List String) (create_missing : Bool)
    → ps ≡ []
    → (traverse_to_node root ps create_missing).0 ≡ root
unfolding traverse_to_node
stays root ps create_missing e = rw e refl

stops :
    (d : Option DataNode) (kids : Children) (ps : List String) (create_missing : Bool)
    → d ≡ none
    → ps ≡ []
    → (traverse_to_node (file d kids) ps create_missing).1 ≡ some (file none kids)
unfolding traverse_to_node
stops d kids ps create_missing no_data e = rw (no_data, e) refl

-- On a path without a name, such as "/" or "", CREATE, SET and DELETE all panic when the root has
-- no data, and leave the tree as it is.
pub root-panics :
    (root : FileNode) (path val : String)
    → node_data root ≡ none
    → get_node_path path ≡ []
    → (create_node root path val ≡ (root, panic))
      × (set_node root path val ≡ (root, panic))
      × (delete_node root path ≡ (root, panic))
unfolding create_node set_node delete_node set_node_at split_last
root-panics (file d kids) path val no_data is_root =
    let ps = get_node_path path in
    let root = file d kids in
    (
      rw (stops d kids ps true no_data is_root, stays root ps true is_root, create_node) refl,
      rw (stops d kids ps false no_data is_root, stays root ps false is_root, set_node) refl,
      rw (stops d kids ps false no_data is_root, stays root ps false is_root, is_root, delete_node)
          refl,
    )
