-- ===== src/Vr/Recovery.antt =====
-- Recovery (vr/vrrecovery.go).
pub mod Majority
pub mod Counting
use go_phat.Prelude.{
  ℕ, zero, suc, ◌+◌, ◌%◌, Option, none, some, List, [], ◌∷◌, Bool, true, false, ◌&&◌, not, u64,
  has_bit, set_bit, ltb, leb, ◌==◌, if◌then◌else◌, length, get_elem?, set, replicate,
}
use go_phat.Phatlog.{Log, empty_log}
use go_phat.Vr.State.{
  Globals, VrCommand, Status, normal, recovery, view_change, Replica, RecoveryState, RecoveryArgs,
  RecoveryResponse, recover,
}
use go_phat.Vr.Exec.{Exec, ok, stop, panicked, ◌>>=◌, ◌>>◌, pure, get, put, emit, assert}
use go_phat.Vr.Commit.{is_normal, do_commit}
use go_phat.Vr.Lease.{is_master, or_panic}
use go_phat.Vr.ViewChange.{broadcast, prepare_view_change}
use go_phat.Vr.ViewChange.Master.{or_empty}
use go_phat.Vr.Snapshot.{recover_info_from_op_number}

abbrev pub is_recovery : Status → Bool
is_recovery recovery = true
is_recovery normal = false
is_recovery view_change = false

module _ {C : Type 0} where
  abbrev pub zero_response : RecoveryResponse C
  zero_response = record {
    view = 0;
    nonce = 0;
    log = none;
    snapshot = [];
    op_number = 0;
    commit_number = 0;
    replica_number = 0;
    normal = false;
  }

  abbrev pub fresh_rcvstate : Globals → RecoveryState C
  fresh_rcvstate g = record {
    recovery_response_msgs = replicate g.nreplicas zero_response;
    recovery_response_replies = 0;
    empty_logs = 0;
    recovery_responses = 0;
    nonce = 0;
  }

  unfoldable pub reset_rcvstate : Globals → Replica C → Replica C
  reset_rcvstate g r = record r { rcvstate = fresh_rcvstate g }

  -- `nonce` is the random number that the replica draws, below 2^32.
  unfoldable pub prepare_recovery : Globals → (nonce : ℕ) → Exec C (Unit {0})
  unfolding reset_rcvstate
  prepare_recovery g nonce = do
    r ← get
    if is_recovery r.rstate.status then pure tt else do
      let r₁ = reset_rcvstate g (record r { rstate = record (r.rstate) { status = recovery } })
      put (record r₁ { rcvstate = record (r₁.rcvstate) { nonce = nonce } })
      broadcast g (
          recover (record {
            replica_number = r₁.rstate.replica_number;
            nonce = nonce;
            snapshot_index = r₁.snapshot_index;
          }))

  -- The log and the snapshot that a master sends along.
  recovery_info : Globals → (disk : List ℕ) → ℕ → Exec C (Option (Log (VrCommand C)) × List ℕ)
  recovery_info g disk op = do
    r ← get
    if is_master g r then recover_info_from_op_number disk op else pure (none, [])

  -- The RPC `Recovery`.
  unfoldable pub recovery_rpc :
      Globals → (disk : List ℕ) → RecoveryArgs → Exec C (RecoveryResponse C)
  unfolding recovery_info
  recovery_rpc g disk args = do
    info ← recovery_info g disk args.snapshot_index
    r ← get
    pure (record {
      view = r.rstate.view;
      nonce = args.nonce;
      log = info.0;
      snapshot = info.1;
      op_number = r.rstate.op_number;
      commit_number = r.rstate.commit_number;
      replica_number = r.rstate.replica_number;
      normal = is_normal r.rstate.status;
    })

  -- A response is counted; a write out of range panics.
  pub record_response : RecoveryResponse C → Exec C (Unit {0})
  record_response reply = do
    r ← get
    let s = r.rcvstate
    let counted : RecoveryState C = record s {
      recovery_response_replies = set_bit s.recovery_response_replies reply.replica_number;
      recovery_responses =
          if reply.normal then u64 (s.recovery_responses + 1) else s.recovery_responses;
      empty_logs = if reply.op_number == 0 then u64 (s.empty_logs + 1) else s.empty_logs;
    }
    put (record r { rcvstate = counted })
    if ltb reply.replica_number (length s.recovery_response_msgs)
        then put (record r {
          rcvstate = record counted {
            recovery_response_msgs = set s.recovery_response_msgs reply.replica_number reply;
          };
        })
        else λ w. stop panicked w

  -- With F + 1 normal responses, the master's among them, its state is taken over.
  finish_recovery : Globals → RecoveryResponse C → Exec C (Unit {0})
  finish_recovery g response = do
    r ← get
    assert (leb r.snapshot_index response.commit_number)
    put (record r {
      phatlog = or_empty response.log;
      rstate = record (r.rstate) { view = response.view; op_number = response.op_number };
    })
    do_commit g response.commit_number
    r ← get
    assert (r.rstate.commit_number == response.commit_number)
    put (record r { rstate = record (r.rstate) { status = normal } })

  abbrev newer_view : ℕ → Replica C → Replica C
  newer_view view r =
      if ltb r.rstate.view view then record r { rstate = record (r.rstate) { view = view } } else r

  -- The rest of the handler for a response of a replica in normal mode.
  normal_response : Globals → RecoveryResponse C → Exec C Bool
  unfolding finish_recovery
  normal_response g reply = do
    r₀ ← get
    let r = newer_view reply.view r₀
    put r
    let master_id = r.rstate.view % g.nreplicas
    if leb (u64 (g.f + 1)) r.rcvstate.recovery_responses
          && has_bit r.rcvstate.recovery_response_replies master_id
        then (do
          response ← or_panic (get_elem? r.rcvstate.recovery_response_msgs master_id)
          finish_recovery g response
          pure true)
        else pure false

  -- The body of `handleRecoveryResponse`, with `done` as its result.
  recovery_body : Globals → RecoveryResponse C → Exec C Bool
  unfolding record_response normal_response
  recovery_body g reply = do
    r ← get
    if has_bit r.rcvstate.recovery_response_replies reply.replica_number
        then pure false
        else if not (r.rcvstate.nonce == reply.nonce)
        then pure false
        else do
          record_response reply
          r ← get
          if leb (u64 (g.f + 1)) r.rcvstate.empty_logs
              then prepare_view_change g >> pure true
              else if reply.normal
              then normal_response g reply
              else pure false

  -- `handleRecoveryResponse`: the deferred function resets the recovery state when it is done.
  unfoldable pub handle_recovery_response : Globals → RecoveryResponse C → Exec C Bool
  unfolding recovery_body reset_rcvstate
  handle_recovery_response g reply = do
    finished ← recovery_body g reply
    r ← get
    if finished then put (reset_rcvstate g r) else pure tt
    pure finished
