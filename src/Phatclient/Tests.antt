-- ===== src/Phatclient/Tests.antt =====
-- The client of the database (phatclient/phatclient.go) on the empty tree.
use go_phat.Prelude.{arith, ◌≡◌, refl, String, none, some, [], ◌∷◌}
use go_phat.Phatdb.Path.{get_node_path}
use go_phat.Client.Master.{Returns}
use go_phat.Client.Tests.{silent, at_b, servers, at_b-IsConnected}
use go_phat.Phatdb.Ops.View.{view, is_prefix}
use go_phat.Phatdb.Ops.Reads.{walked}
use go_phat.Phatclient.Twice.{create-retried}
use go_phat.Phatdb.Tree.{FileNode, zero_data, set_data as with_data, child}
use go_phat.Phatdb.Server.{handle, DbResponse, empty_root, text, reply_with, no_reply}
use go_phat.Client.{finished, call_timer, call_done}
use go_phat.Phatclient.{
  run_operation, result, error, returned, create, get_data, set_data, get_children, get_stats,
  delete, get_hash, checked, string_to_error, as_text, as_names,
}
use go_phat.Phatclient.Replies.{Reads, ReadsOrNil, answer, handle-IsTyped}

abbrev no_hash : FileNode → String
no_hash root = ""

handle-IsTyped_example :
    Reads (create "/a" "x") (answer no_hash empty_root (create "/a" "x"))
    × ReadsOrNil (get_data "/a") (answer no_hash empty_root (get_data "/a"))
    × Reads (set_data "/a" "x") (answer no_hash empty_root (set_data "/a" "x"))
    × Reads (get_children "/a") (answer no_hash empty_root (get_children "/a"))
    × Reads (delete "/a") (answer no_hash empty_root (delete "/a"))
    × Reads get_hash (answer no_hash empty_root get_hash)
    × ((resp : DbResponse) × (answer no_hash empty_root (get_stats "/a") ≡ some resp)
        × (returned (get_stats "/a").read resp (finished none) ≡ error "Unknown command"))
handle-IsTyped_example = handle-IsTyped no_hash empty_root "/a" "x"

read_hash : returned as_text (reply_with (text "h")) (finished none) ≡ result "h"
unfolding returned checked string_to_error as_text
read_hash = refl

gave_up :
    returned as_names (reply_with no_reply) (finished (some "Completely timed out"))
    ≡ error "Completely timed out"
unfolding returned
gave_up = refl

new_there : walked empty_root (get_node_path "/a") (get_node_path "/a") ≡ some (some zero_data)
unfolding get_node_path child view is_prefix
new_there = refl

create-retried_example :
    let op = create "/a" "x" in
    let once = (handle no_hash empty_root op.command).0 in
    let twice = handle no_hash once op.command in
    (resp : DbResponse) × (twice.1 ≡ some resp)
    × Returns
        (λ r u. r ≡ error "file already exists")
        (run_operation silent op resp (call_timer ∷ call_done none ∷ []) at_b)
    × (view twice.0 (get_node_path "/a") ≡ some (some (with_data zero_data "x")))
create-retried_example =
    create-retried silent servers at_b no_hash empty_root "/a" "x" zero_data
      (λ t a m e. ground arith) at_b-IsConnected new_there refl
