-- ===== src/Phatrpc/Tests.antt =====
-- The front end of the database (phatRPC) on two replicas with a small log.
use go_phat.Prelude.{true, ℕ, ◌≤◌, ◌≡◌, refl, String, none, some, [], ◌∷◌, false, take, arith}
use go_phat.Prelude.Assoc.{lookup, insert}
use go_phat.Phatlog.{Log, add, get_command, empty_log}
use go_phat.Phatdb.Tree.{FileNode}
use go_phat.Phatdb.Server.{DbCommand}
use go_phat.Vr.State.{Globals, normal, VrCommand, GetStateResponse}
use go_phat.Vr.Exec.{World, ok, Always}
use go_phat.Vr.Commit.CatchUp.{Holds}
use go_phat.Vr.Coherence.{IsCoherent, Fits}
use go_phat.Vr.Normal.{commit_rpc}
use go_phat.Vr.ViewChange.{fresh_vcstate}
use go_phat.Vr.Recovery.{fresh_rcvstate}
use go_phat.Vr.Lease.{get_master_id}
use go_phat.Phatrpc.{rpc_db, not_master}
use go_phat.Phatrpc.Agreement.{IsServed, commit_rpc-database_server}

abbrev pub three : Globals
three = record { nreplicas = 3; f = 1 }

abbrev create : String → DbCommand
create path = record { command = "CREATE"; path = path; value = "x" }

abbrev entry : DbCommand → VrCommand DbCommand
entry c = record { c = c; done = none }

abbrev two_entries : Log (VrCommand DbCommand)
two_entries = add 2 (some (entry (create "/b"))) (add 1 (some (entry (create "/a"))) empty_log)

abbrev pub db_world : (me commit_number : ℕ) → World DbCommand
db_world me commit_number = record {
  replica = record {
    rstate = record {
      view = 0;
      op_number = 2;
      commit_number = commit_number;
      replica_number = me;
      status = normal;
      normal_view = 0;
      view_change_msgs = 0;
      timer = 0;
    };
    mstate = record { made = true; highest_op = []; timer = none; heartbeats = [] };
    vcstate = fresh_vcstate three;
    rcvstate = fresh_rcvstate three;
    phatlog = some two_entries;
    context = take commit_number (create "/a" ∷ create "/b" ∷ []);
    snapshot_index = 0;
    is_shutdown = false;
  };
  inbox = [];
  outbox = [];
  next_chan = 0;
}

two_entries-Holds : Holds two_entries 1 (entry (create "/a") ∷ entry (create "/b") ∷ [])
unfolding get_command add lookup insert
two_entries-Holds = (refl, (refl, tt))

abbrev db_world-IsCoherent : (me n : ℕ) → n ≤ 2 → IsCoherent (db_world me n)
db_world-IsCoherent me n le = record {
  log = two_entries;
  entries = entry (create "/a") ∷ entry (create "/b") ∷ [];
  has_log = refl;
  holds = two_entries-Holds;
  full = refl;
  behind = le;
  executed = refl;
}

abbrev no_hash : FileNode → String
no_hash root = ""

-- The master's answer to a state transfer: the log with a third command.
abbrev third : GetStateResponse DbCommand
third = record {
  view = 0;
  log = some (add 3 (some (entry (create "/c"))) two_entries);
  op_number = 3;
  commit_number = 3;
}

third-Holds :
    Holds
      (add 3 (some (entry (create "/c"))) two_entries)
      1
      (entry (create "/a") ∷ entry (create "/b") ∷ entry (create "/c") ∷ [])
unfolding get_command add lookup insert
third-Holds = (refl, (refl, (refl, tt)))

abbrev behind : World DbCommand
behind = record (db_world 1 1) { inbox = third ∷ [] }

behind-Fits : Fits behind
behind-Fits = record {
  coherent = record {
    log = two_entries;
    entries = entry (create "/a") ∷ entry (create "/b") ∷ [];
    has_log = refl;
    holds = two_entries-Holds;
    full = refl;
    behind = omega arith;
    executed = refl;
  };
  incoming = (
    add 3 (some (entry (create "/c"))) two_entries,
    entry (create "/a") ∷ entry (create "/b") ∷ entry (create "/c") ∷ [],
    create "/c" ∷ [],
    refl,
    third-Holds,
    refl,
    refl,
    tt,
  );
}

commit_rpc-database_server_example :
    Always
      (IsServed no_hash)
      (commit_rpc three 10 5 (record { view = 0; commit_number = 3 }) behind)
commit_rpc-database_server_example =
    commit_rpc-database_server three no_hash 10 5 (record { view = 0; commit_number = 3 }) behind
      behind-Fits

-- Replica 1 is not the master of view 0.
redirected : rpc_db three no_hash (create "/c") (db_world 1 1) ≡ ok (not_master 0) (db_world 1 1)
unfolding rpc_db get_master_id
redirected = refl
