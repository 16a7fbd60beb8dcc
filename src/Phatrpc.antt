-- ===== src/Phatrpc.antt =====
-- The RPC front end of the database (phatRPC/phatRPC.go), on top of vr and phatdb. The context of a
-- replica is the server's database, which only `CommitFunc` writes to. vr has the commands whose
-- `CommitFunc` it called in the context, in order; the database is the tree after these calls. The logger is left out, and so is the start of the listeners.
pub mod Agreement
pub mod Tests
use go_phat.Prelude.{
  ℕ, String, Option, none, some, List, [], ◌∷◌, Bool, true, false, not, ◌&&◌, ◌||◌, ◌==◌, str_eq,
  if◌then◌else◌,
}
use go_phat.Vr.State.{Globals, Replica}
use go_phat.Vr.Exec.{World, Exec, ◌>>=◌, ◌>>◌, pure, get}
use go_phat.Vr.Commit.{is_normal}
use go_phat.Vr.Lease.{get_master_id}
use go_phat.Vr.Normal.{run_vr}
use go_phat.Phatdb.Tree.{FileNode}
use go_phat.Phatdb.Server.{DbCommand, DbResponse, empty_root, handle}

-- `CommitFunc`: the database server handles the command.
unfoldable pub commit_func : (FileNode → String) → DbCommand → FileNode → FileNode
commit_func hash command root = (handle hash root command).0

-- The tree after the commands that a replica has run.
unfoldable pub tree_from : (FileNode → String) → FileNode → List DbCommand → FileNode
unfolding commit_func
tree_from hash root [] = root
tree_from hash root (c ∷ cs) = tree_from hash (commit_func hash c root) cs

abbrev pub database : (FileNode → String) → Replica DbCommand → FileNode
database hash r = tree_from hash empty_root r.context

-- The reply of an RPC: an error, an error with the master's number in the reply, a response, or the
-- number of the channel on which the response of a command comes once it is committed (`none` where
-- `RunVR` returns at once, on a replica that is shut down).
pub data RpcReply : Type 0 where
  rpc_error : String → RpcReply
  not_master : ℕ → RpcReply
  responds : Option DbResponse → RpcReply
  waits_for : Option ℕ → RpcReply

unfoldable pub get_master : Globals → Replica DbCommand → Option ℕ
get_master g r = if is_normal r.rstate.status then some (get_master_id g r) else none

-- The commands that go through `RunVR`.
unfoldable pub is_replicated : String → Bool
is_replicated c = str_eq c "CREATE" || (str_eq c "DELETE" || (str_eq c "SET" || str_eq c "GET"))

unfoldable pub rpc_db : Globals → (FileNode → String) → DbCommand → Exec DbCommand RpcReply
unfolding is_replicated
rpc_db g hash args = do
  r ← get
  if not (is_normal r.rstate.status)
      then pure (rpc_error "Master Failover")
      else if not (r.rstate.replica_number == get_master_id g r)
          && not (str_eq args.command "SHA256")
      then pure (not_master (get_master_id g r))
      else if is_replicated args.command
      then (run_vr g args >>= λ ch. pure (waits_for ch))
      else pure (responds (handle hash (database hash r) args).1)
