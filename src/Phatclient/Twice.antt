-- ===== src/Phatclient/Twice.antt =====
-- A CREATE that times out and is called again (phatclient/phatclient.go, client/client.go,
-- phatdb/phatdb_server.go).
use go_phat.Prelude.{String, ◌≡◌, ◌∙◌, refl, ap, none, some, List, [], ◌∷◌, length}
use go_phat.Phatdb.Path.{get_node_path}
use go_phat.Phatdb.Tree.{DataNode, FileNode, set_data}
use go_phat.Phatdb.Ops.View.{view}
use go_phat.Phatdb.Ops.Reads.{walked, create_node-view}
use go_phat.Phatdb.Ops.Twice.{create_node-twice, list_eq_refl}
use go_phat.Phatdb.Server.{DbResponse, error_with, handle, respond}
use go_phat.Client.{Network, ClientWorld, call_timer, call_done, result_of, process_call_with_retry}
use go_phat.Client.Master.{Returns, Returns-then, IsConnected, NamesServers}
use go_phat.Client.Counting.{calls}
use go_phat.Client.Calls.{Gives, process_call_with_retry-Gives}
use go_phat.Phatclient.{
  error, create, returned, checked, string_to_error, as_data_node, run_operation,
}

-- A client whose Create times out once, though the server executed it, calls again and reports
-- "file already exists", while its data is what is stored at the path. The path's node was missing or
-- had version 0; the client is connected, and no server names a master outside the cluster.
pub create-retried :
    (net : Network) (servers : List String) (w : ClientWorld) (hash : FileNode → String)
    (root : FileNode) (path v : String) (d : DataNode)
    → NamesServers (length servers) net
    → IsConnected servers w
    → walked root (get_node_path path) (get_node_path path) ≡ some (some d)
    → d.stats.version ≡ 0
    → let op = create path v in
      let once = (handle hash root op.command).0 in
      let twice = handle hash once op.command in
      (resp : DbResponse) × (twice.1 ≡ some resp)
      × Returns
          (λ r u. r ≡ error "file already exists")
          (run_operation net op resp (call_timer ∷ call_done none ∷ []) w)
      × (view twice.0 (get_node_path path) ≡ some (some (set_data d v)))
unfolding handle create run_operation returned checked string_to_error respond result_of
create-retried net servers w hash root path v d names p e zero_version =
    let (fails, kept) = create_node-twice root path v v d e zero_version in
    let ps = get_node_path path in
    let stored = (create_node-view root path v d e zero_version).1 ps in
    (
      error_with "file already exists",
      rw fails refl,
      Returns-then
          (Gives net servers names "Server.RPCDB" refl (call_timer ∷ call_done none ∷ [])
            (calls "Server.RPCDB" w))
          _ (process_call_with_retry net "Server.RPCDB" (call_timer ∷ call_done none ∷ []) w) _
          (process_call_with_retry-Gives net servers names "Server.RPCDB" refl
            (call_timer ∷ call_done none ∷ []) w p)
          (λ r u g. ap (returned as_data_node (error_with "file already exists")) g.0),
      kept ps ∙ stored ∙ rw (list_eq_refl ps) refl,
    )
