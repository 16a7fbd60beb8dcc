-- ===== src/Phatrpc/Agreement.antt =====
-- A replica's database and its log (phatRPC/phatRPC.go, vr/vr.go).
use go_phat.Prelude.{
  ℕ, ◌⊎◌, some, Option-cases, ◌+◌, ◌<◌, ◌≡◌, refl, String, List, [], ◌∷◌, not, ◌&&◌, ◌==◌, str_eq,
  Bool-cases, inl, inr, u64_mod, length, take, arith,
}
use go_phat.Vr.State.{Globals, VrCommand, CommitArgs}
use go_phat.Vr.Exec.{pure, World, Always, Always-and_then, Always-mono}
use go_phat.Phatlog.{Log}
use go_phat.Vr.Commit.{is_normal}
use go_phat.Vr.Commit.CatchUp.{Holds, commands}
use go_phat.Vr.Coherence.{IsCoherent, Fits}
use go_phat.Vr.Coherence.Steps.{commit_rpc-IsCoherent, run_vr-IsCoherent}
use go_phat.Vr.Lease.{get_master_id}
use go_phat.Vr.Normal.{run_vr, commit_rpc}
use go_phat.Phatdb.Tree.{FileNode}
use go_phat.Phatdb.Server.{DbCommand, empty_root, handle, database_server}
use go_phat.Phatrpc.{database, commit_func, tree_from, rpc_db, is_replicated, waits_for}

-- The commands one after the other are what the server's loop does, unless it panics on one of them.
tree_from-serves :
    (hash : FileNode → String) (root : FileNode) (cs : List DbCommand)
    → (length (database_server hash root cs).1 < length cs)
      ⊎ (tree_from hash root cs ≡ (database_server hash root cs).0)
unfolding tree_from commit_func database_server
tree_from-serves hash root [] = inr refl
tree_from-serves hash root (c ∷ cs) = elim (Option-cases (handle hash root c).1) [
  | inl panics ↦ rw (panics, database_server) (inl (omega arith))
  | inr (resp, answers) ↦
      rw (answers, database_server)
        (elim (tree_from-serves hash (handle hash root c).0 cs) [
          | inl fewer ↦ inl (omega (arith, fewer))
          | inr same ↦ inr same
        ])
]

-- The replica's database is what `DatabaseServer` makes of an empty one, given the commands of the
-- log up to the commit number, unless it panics on one of them and answers fewer.
abbrev pub IsServed : (FileNode → String) → World DbCommand → Type 0
IsServed hash v =
    (l : Log (VrCommand DbCommand)) × (es : List (VrCommand DbCommand)) × (v.replica.phatlog
      ≡ some l)
    × Holds l 1 es
    × (length es ≡ v.replica.rstate.op_number)
    × ((length
            (database_server hash empty_root (take v.replica.rstate.commit_number (commands es))).1
          < length (take v.replica.rstate.commit_number (commands es)))
        ⊎ (database hash v.replica
            ≡ (database_server hash empty_root
                (take v.replica.rstate.commit_number (commands es))).0))

IsCoherent-IsServed :
    (hash : FileNode → String) (v : World DbCommand) → IsCoherent v → IsServed hash v
IsCoherent-IsServed hash v k = (
  k.log,
  k.entries,
  k.has_log,
  k.holds,
  k.full,
  rw k.executed
      (tree_from-serves hash empty_root (take v.replica.rstate.commit_number (commands k.entries))),
)

-- However `Commit` ends on a coherent replica, it leaves the database that a database server has which
-- got the commands of the replica's log, from the first one up to the commit number, unless that
-- server panics on one of them. Each log that a state transfer brings in extends the replica's.
pub commit_rpc-database_server :
    (g : Globals) (hash : FileNode → String) (now nonce : ℕ) (args : CommitArgs)
    (w : World DbCommand)
    → Fits w
    → Always (IsServed hash) (commit_rpc g now nonce args w)
commit_rpc-database_server g hash now nonce args w fits =
    Always-mono IsCoherent (IsServed hash) (commit_rpc g now nonce args w)
      (IsCoherent-IsServed hash) (commit_rpc-IsCoherent g now nonce args w fits)

-- A client's RPC keeps a replica coherent. The op number must not be the last 64-bit number, and no
-- answer of a state transfer is under way.
rpc_db-IsCoherent :
    (g : Globals) (hash : FileNode → String) (args : DbCommand) (w : World DbCommand)
    → IsCoherent w
    → w.replica.rstate.op_number + 1 < u64_mod
    → w.inbox ≡ []
    → Always IsCoherent (rpc_db g hash args w)
unfolding rpc_db
rpc_db-IsCoherent g hash args w k lt quiet =
    let ran : Always IsCoherent (run_vr g args w) = run_vr-IsCoherent g args w k lt quiet in
    elim (Bool-cases (is_normal w.replica.rstate.status)) [
      | inr failover ↦ rw (failover, rpc_db) k
      | inl up ↦
          elim (Bool-cases (
            not (w.replica.rstate.replica_number == get_master_id g w.replica)
            && not (str_eq args.command "SHA256"))) [
              | inl other ↦ simp (up, other, rpc_db) k
              | inr here ↦ elim (Bool-cases (is_replicated args.command)) [
                | inl log ↦
                    simp (up, here, log, rpc_db)
                      (Always-and_then IsCoherent (run_vr g args w) (λ ch. pure (waits_for ch)) ran
                        (λ ch v c. c))
                | inr direct ↦ simp (up, here, direct, rpc_db) k
              ]
            ]
    ]
