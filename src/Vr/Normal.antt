-- ===== src/Vr/Normal.antt =====
-- Normal operation (vr/vr.go): the master's `RunVR` and `handlePrepareOK`, the replicas' `Prepare`
-- and `Commit`, and the start of a replica.
pub mod Quorum
pub mod SmallCluster
pub mod Majorities
use go_phat.Prelude.{
  ℕ, zero, suc, ◌+◌, ◌-◌, ◌/◌, Option, none, some, List, [], ◌∷◌, Bool, true, false, not, u64, ltb,
  leb, ◌==◌, if◌then◌else◌, length, get_elem?, nat_eq,
}
use go_phat.Prelude.Assoc.{lookup, insert, values}
use go_phat.Prelude.Sort.{sort}
use go_phat.Phatlog.{Log, add, empty_log}
use go_phat.Vr.State.{
  Globals, VrCommand, Status, normal, Replica, ReplicaState, MasterState, PrepareArgs, PrepareReply,
  CommitArgs, HeartbeatReply, prepare, commit,
}
use go_phat.Vr.Exec.{World, Exec, ok, stop, panicked, ◌>>=◌, ◌>>◌, pure, get, put, emit, assert}
use go_phat.Vr.Commit.{is_normal, do_commit, start_state_transfer}
use go_phat.Vr.Lease.{is_master, heartbeat, extend_lease, lease, renew_factor, or_panic}
use go_phat.Vr.ViewChange.{broadcast}
use go_phat.Vr.Recovery.{prepare_recovery}

-- The error values of the RPCs.
pub data RpcError : Type 0 where
  recovering wrong_view not_normal : RpcError
  out_of_sync : (got expected : ℕ) → RpcError

pub data Result (A : Type 0) : Type 0 where
  returned : A → Result A
  error : RpcError → Result A

-- `SortUints`
unfoldable pub sort_uints : List (ℕ × ℕ) → List ℕ
sort_uints uints = sort (values uints)

-- A missing key of a `map[uint]uint` reads as 0.
abbrev pub get_or_zero : Option ℕ → ℕ
get_or_zero none = 0
get_or_zero (some n) = n

module _ {C : Type 0} where
  -- A write to a nil log panics.
  unfoldable pub add_log : VrCommand C → Exec C (Unit {0})
  add_log command w = elim w.replica.phatlog [
    | none ↦ stop panicked w
    | some l ↦ ok tt (record w {
      replica = record (w.replica) {
        phatlog = some (add (u64 (w.replica.rstate.op_number + 1)) (some command) l);
      };
    })
  ]

  -- `r.addLog(command); r.Rstate.OpNumber++`
  unfoldable pub append_op : VrCommand C → Exec C (Unit {0})
  unfolding add_log
  append_op command = do
    add_log command
    r ← get
    put (record r { rstate = record (r.rstate) { op_number = u64 (r.rstate.op_number + 1) } })

  -- The RPC `Prepare`.
  unfoldable pub prepare_rpc :
      Globals → (now nonce : ℕ) → PrepareArgs C → Exec C (Result PrepareReply)
  unfolding append_op extend_lease
  prepare_rpc g now nonce args = do
    r ← get
    if ltb r.rstate.view args.view
        then prepare_recovery g nonce >> pure (error recovering)
        else if ltb args.view r.rstate.view
        then pure (error wrong_view)
        else if not (is_normal r.rstate.status)
        then pure (error not_normal)
        else if ltb (u64 (r.rstate.op_number + 1)) args.op_number
        then (do
          start_state_transfer g
          r ← get
          pure (error (out_of_sync args.op_number (u64 (r.rstate.op_number + 1)))))
        else do
          if ltb r.rstate.op_number args.op_number then append_op args.command else pure tt
          do_commit g args.commit_number
          r ← get
          put (extend_lease now (now + lease) r)
          pure (
              returned (record {
                view = r.rstate.view;
                op_number = r.rstate.op_number;
                replica_number = r.rstate.replica_number;
                lease = now + lease;
              }))

  -- The RPC `Commit`.
  unfoldable pub commit_rpc :
      Globals → (now nonce : ℕ) → CommitArgs → Exec C (Result HeartbeatReply)
  unfolding extend_lease
  commit_rpc g now nonce args = do
    r ← get
    if ltb r.rstate.view args.view
        then prepare_recovery g nonce >> pure (error recovering)
        else if ltb args.view r.rstate.view
        then pure (error wrong_view)
        else do
          do_commit g args.commit_number
          r ← get
          put (extend_lease now (now + lease) r)
          pure (returned (record { replica_number = r.rstate.replica_number; lease = now + lease }))

  -- `make(chan int)`
  abbrev pub make_chan : Exec C ℕ
  make_chan w = ok w.next_chan (record w { next_chan = suc w.next_chan })

  -- `RunVR` up to its wait: the channel on which it waits, or nothing on a replica that is shut.
  unfoldable pub run_vr : Globals → C → Exec C (Option ℕ)
  unfolding append_op is_master
  run_vr g command = do
    r ← get
    if r.is_shutdown then pure none else do
      assert (is_master g r)
      ch ← make_chan
      append_op (record { c = command; done = some ch })
      r ← get
      broadcast g (
          prepare (record {
            view = r.rstate.view;
            command = record { c = command; done = some ch };
            op_number = r.rstate.op_number;
            commit_number = r.rstate.commit_number;
          }))
      pure (some ch)

  -- With F = 0 the index is out of range, and that panics.
  unfoldable pub calc_highest_majority_op : Globals → Exec C ℕ
  unfolding sort_uints
  calc_highest_majority_op g = do
    r ← get
    assert (is_master g r)
    let sorted_ops = sort_uints r.mstate.highest_op
    if ltb (length sorted_ops) g.f
        then pure 0
        else or_panic (get_elem? sorted_ops (length sorted_ops - g.f))

  -- A write to a nil map does not come to this: the heartbeat before it has panicked.
  note_highest_op : PrepareReply → Replica C → Replica C
  note_highest_op reply r =
      if ltb (get_or_zero (lookup reply.replica_number r.mstate.highest_op)) reply.op_number
      then record r {
        mstate = record (r.mstate) {
          highest_op = insert reply.replica_number reply.op_number r.mstate.highest_op;
        };
      }
      else r

  -- `handlePrepareOK`
  unfoldable pub handle_prepare_ok : Globals → (now : ℕ) → PrepareReply → Exec C Bool
  unfolding is_master note_highest_op
  handle_prepare_ok g now reply = do
    r ← get
    if not (is_master g r)
        then pure true
        else if not (reply.view == r.rstate.view)
        then pure false
        else do
          heartbeat g now reply.replica_number reply.lease
          r ← get
          put (note_highest_op reply r)
          high_commit ← calc_highest_majority_op g
          r ← get
          if ltb r.rstate.commit_number high_commit then do_commit g high_commit else pure tt
          pure (leb reply.op_number high_commit)

  -- `sendCommitMsgs`, and the handler of its replies
  unfoldable pub send_commit_msgs : Globals → Exec C (Unit {0})
  send_commit_msgs g = do
    r ← get
    broadcast g (commit (record { view = r.rstate.view; commit_number = r.rstate.commit_number }))

  unfoldable pub handle_heartbeat : Globals → (now : ℕ) → HeartbeatReply → Exec C Bool
  handle_heartbeat g now reply = heartbeat g now reply.replica_number reply.lease >> pure false

  -- `MasterNeedsRenewal`, when the master's timer fires
  unfoldable pub master_needs_renewal : Globals → Exec C (Unit {0})
  unfolding send_commit_msgs
  master_needs_renewal g = do r ← get; if r.is_shutdown then pure tt else send_commit_msgs g

  -- A new replica, before `PrepareRecovery`. The timer of a master is stopped.
  abbrev pub initial_replica : (now i : ℕ) → Replica C
  initial_replica now i = record {
    rstate = record {
      view = 0;
      op_number = 0;
      commit_number = 0;
      replica_number = i;
      status = normal;
      normal_view = 0;
      view_change_msgs = 0;
      timer = now + lease;
    };
    mstate = record { made = false; highest_op = []; timer = none; heartbeats = [] };
    vcstate = record {
      do_view_change_msgs = [];
      do_view_replies = 0;
      start_view_replies = 0;
      start_views = 0;
      do_views = 0;
      normal_view = 0;
    };
    rcvstate = record {
      recovery_response_msgs = [];
      recovery_response_replies = 0;
      empty_logs = 0;
      recovery_responses = 0;
      nonce = 0;
    };
    phatlog = some empty_log;
    context = [];
    snapshot_index = 0;
    is_shutdown = false;
  }

-- NREPLICAS and F from the number of replicas; uint arithmetic wraps at an empty configuration.
unfoldable pub globals : ℕ → Globals
globals n = record { nreplicas = n; f = u64 (n + 18446744073709551615) / 2 }

-- `RunAsReplica`
unfoldable pub run_as_replica : {C : Type 0} → (now nonce n i : ℕ) → Exec C (Unit {0})
unfolding globals
run_as_replica now nonce n i = do put (initial_replica now i); prepare_recovery (globals n) nonce
