-- ===== src/Phatdb/Tests.antt =====
-- The database (phatdb) on concrete paths and trees, and the theorems about it applied to them.
use go_phat.Prelude.{ℕ, String, ◌≡◌, refl, none, some, List, [], ◌∷◌, false, if◌then◌else◌}
use go_phat.Phatdb.Path.{split_on_slash, get_node_path, AreNames}
use go_phat.Phatdb.Tree.{
  DataNode, FileNode, file, Children, no_children, child_entry, zero_data, set_data,
  traverse_to_node, child, write_node, with_child,
}
use go_phat.Phatdb.Ops.{
  set_node_at, value, not_exist, create_node, set_node, delete_node, exists_node, get_children,
  get_node,
}
use go_phat.Phatdb.Ops.View.{view, subtree, list_eq, is_prefix}
use go_phat.Phatdb.Ops.Reads.{walked, missing-not_exist, set_node-view, create_node-view}
use go_phat.Phatdb.Ops.Removal.{delete_node-view}
use go_phat.Phatdb.Server.{
  DbCommand, data_node, no_reply, reply_with, error_with, empty_root, database_server,
}

abbrev data_of : String → ℕ → DataNode
data_of val version = record {
  value = val;
  stats = record { version = version; c_version = 0; num_children = 0 };
}

-- The tree after CREATE of "/dev/null".
abbrev null_tree : FileNode
null_tree = file none (
    child_entry "dev"
      (file (some zero_data)
        (child_entry "null" (file (some (data_of "empty" 1)) no_children) no_children))
      no_children)

create_null : create_node empty_root "/dev/null" "empty" ≡ (null_tree, value (data_of "empty" 1))
unfolding create_node get_node_path traverse_to_node child set_node_at write_node with_child
create_null = refl

-- A second CREATE fails, and GET answers what SET stored.
abbrev requests : List DbCommand
requests =
    record { command = "CREATE"; path = "/dev/null"; value = "again" }
    ∷ record { command = "SET"; path = "/dev/null"; value = "nullify" }
    ∷ record { command = "GET"; path = "/dev/null/"; value = "" }
    ∷ record { command = "HAMMERTIME"; path = ""; value = "" }
    ∷ record { command = "DELETE"; path = "/"; value = "" }
    ∷ record { command = "GET"; path = "/dev"; value = "" }
    ∷ []

served :
    (database_server (λ root. "") null_tree requests).1
    ≡ error_with "file already exists"
      ∷ reply_with no_reply
      ∷ reply_with (data_node (some (data_of "nullify" 2)))
      ∷ error_with "Unknown command"
      ∷ []
unfolding database_server create_node traverse_to_node get_node_path child set_node with_child
    set_node_at get_node write_node delete_node
served = refl

dev_null_names : AreNames ("dev" ∷ "null" ∷ [])
unfolding split_on_slash
dev_null_names = ((refl, (refl, (refl, tt))), ((refl, (refl, (refl, (refl, tt)))), tt))

no_random : subtree null_tree (get_node_path "/dev/random") ≡ none
unfolding subtree get_node_path child
no_random = refl

missing-not_exist_example :
    (set_node null_tree "/dev/random" "x" ≡ (null_tree, not_exist))
    × (delete_node null_tree "/dev/random" ≡ (null_tree, not_exist))
    × (get_node null_tree "/dev/random" ≡ not_exist)
    × (get_children null_tree "/dev/random" ≡ not_exist)
    × (exists_node null_tree "/dev/random" ≡ false)
missing-not_exist_example = missing-not_exist null_tree "/dev/random" "x" no_random

null_there :
    subtree null_tree (get_node_path "/dev/null")
    ≡ some (file (some (data_of "empty" 1)) no_children)
unfolding subtree get_node_path child
null_there = refl

set_node-view_example :
    ((set_node null_tree "/dev/null" "x").1 ≡ value (set_data (data_of "empty" 1) "x"))
    × ((qs : List String)
        → view (set_node null_tree "/dev/null" "x").0 qs ≡ (
            if list_eq qs (get_node_path "/dev/null")
            then some (some (set_data (data_of "empty" 1) "x"))
            else view null_tree qs))
set_node-view_example =
    set_node-view null_tree "/dev/null" "x" (data_of "empty" 1) no_children null_there

new_there :
    walked null_tree (get_node_path "/dev/full") (get_node_path "/dev/full") ≡ some (some zero_data)
unfolding get_node_path child view is_prefix
new_there = refl

create_node-view_example :
    ((create_node null_tree "/dev/full" "x").1 ≡ value (set_data zero_data "x"))
    × ((qs : List String)
        → view (create_node null_tree "/dev/full" "x").0 qs ≡ (
            if list_eq qs (get_node_path "/dev/full")
            then some (some (set_data zero_data "x"))
            else walked null_tree (get_node_path "/dev/full") qs))
create_node-view_example = create_node-view null_tree "/dev/full" "x" zero_data new_there refl

dev_path : get_node_path "/dev" ≡ "dev" ∷ []
unfolding get_node_path
dev_path = refl

abbrev null_entry : Children
null_entry = child_entry "null" (file (some (data_of "empty" 1)) no_children) no_children

dev_there : subtree null_tree (get_node_path "/dev") ≡ some (file (some zero_data) null_entry)
unfolding subtree get_node_path child
dev_there = refl

delete_node-view_example :
    ((delete_node null_tree "/dev").1 ≡ value zero_data.stats)
    × ((qs : List String)
        → view (delete_node null_tree "/dev").0 qs
          ≡ (if is_prefix (get_node_path "/dev") qs then none else view null_tree qs))
delete_node-view_example =
    delete_node-view null_tree "/dev" "dev" [] zero_data null_entry dev_path dev_there

slashes : get_node_path "//" ≡ []
unfolding get_node_path
slashes = refl

abbrev hammer : DbCommand
hammer = record { command = "HAMMERTIME"; path = "/"; value = "" }
