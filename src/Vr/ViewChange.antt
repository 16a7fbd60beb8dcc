-- ===== src/Vr/ViewChange.antt =====
-- View changes up to the messages for the new master (vr/vrviewchange.go).
pub mod Master
pub mod Choice
pub mod Stuck
pub mod Stale
use go_phat.Prelude.{
  ℕ, zero, suc, ◌+◌, ◌-◌, ◌%◌, Option, none, some, List, [], ◌∷◌, Bool, true, false, ◌&&◌, ◌||◌,
  not, u64, has_bit, set_bit, ltb, ◌==◌, if◌then◌else◌, length, set, replicate, arith,
}
use go_phat.Phatlog.{Log, empty_log, max_uint}
use go_phat.Vr.State.{
  Globals, VrCommand, Status, normal, recovery, view_change, Replica, ViewChangeState,
  StartViewChangeArgs, StartViewArgs, DoViewChangeArgs, PrepareReply, Message, start_view_change,
  do_view_change, start_view, send,
}
use go_phat.Vr.Exec.{
  World, Exec, Run, ok, stop, panicked, ◌>>=◌, ◌>>◌, pure, get, put, emit, assert,
}
use go_phat.Vr.Commit.{is_normal, do_commit}
use go_phat.Vr.Lease.{
  is_master, extend_lease, extend_needs_renewal, lease, max_clock_drift, or_panic,
}
use go_phat.Vr.Send.{others}

abbrev is_view_change : Status → Bool
is_view_change view_change = true
is_view_change normal = false
is_view_change recovery = false

module _ {C : Type 0} where
  abbrev pub zero_do_view_change : DoViewChangeArgs C
  zero_do_view_change = record {
    view = 0;
    replica_number = 0;
    log = none;
    normal_view = 0;
    op_number = 0;
    commit_number = 0;
  }

  abbrev pub fresh_vcstate : Globals → ViewChangeState C
  fresh_vcstate g = record {
    do_view_change_msgs = replicate g.nreplicas zero_do_view_change;
    do_view_replies = 0;
    start_view_replies = 0;
    start_views = 0;
    do_views = 0;
    normal_view = 0;
  }

  unfoldable pub reset_vcstate : Globals → Replica C → Replica C
  reset_vcstate g r = record r { vcstate = fresh_vcstate g }

  -- A message to all the others.
  abbrev pub broadcast : Globals → Message C → Exec C (Unit {0})
  broadcast g msg = do r ← get; emit (send (others g.nreplicas r.rstate.replica_number) msg)

  -- The view is noted as the last normal one, if the replica is in normal mode.
  note_normal_view : Replica C → Replica C
  note_normal_view r =
      if is_normal r.rstate.status
      then record r { vcstate = record (r.vcstate) { normal_view = r.rstate.view } }
      else r

  enter_view : ℕ → Replica C → Replica C
  enter_view view r = record r { rstate = record (r.rstate) { view = view; status = view_change } }

  send_start_view_change : Globals → Exec C (Unit {0})
  send_start_view_change g = do
    r ← get
    broadcast g (
        start_view_change
          (record { view = r.rstate.view; replica_number = r.rstate.replica_number }))

  unfoldable pub prepare_view_change : Globals → Exec C (Unit {0})
  unfolding reset_vcstate note_normal_view enter_view send_start_view_change
  prepare_view_change g = do
    r ← get
    let r' = note_normal_view (reset_vcstate g r)
    put (enter_view (u64 (r'.rstate.view + 1)) r')
    send_start_view_change g

  -- The `DoViewChange` arguments that the replica sends.
  own_do_view_change : Replica C → DoViewChangeArgs C
  own_do_view_change r = record {
    view = r.rstate.view;
    replica_number = r.rstate.replica_number;
    log = r.phatlog;
    normal_view = r.vcstate.normal_view;
    op_number = r.rstate.op_number;
    commit_number = r.rstate.commit_number;
  }

  -- A write out of range panics.
  unfoldable pub store_msg : Globals → ℕ → DoViewChangeArgs C → Exec C (Unit {0})
  store_msg g i args = do
    r ← get
    if ltb i (length r.vcstate.do_view_change_msgs)
        then put (record r {
          vcstate = record (r.vcstate) {
            do_view_change_msgs = set r.vcstate.do_view_change_msgs i args;
          };
        })
        else λ w. stop panicked w

  -- With F messages: to the new master, which may be the replica itself.
  enough_start_views : Globals → Exec C (Unit {0})
  unfolding own_do_view_change store_msg
  enough_start_views g = do
    r ← get
    let master = r.rstate.view % g.nreplicas
    if master == r.rstate.replica_number
        then (do
          put (record r {
            vcstate = record (r.vcstate) { do_views = u64 (r.vcstate.do_views + 1) };
          })
          store_msg g r.rstate.replica_number (own_do_view_change r))
        else emit (send (master ∷ []) (do_view_change (own_do_view_change r)))

  -- The RPC `StartViewChange`.
  unfoldable pub start_view_change_rpc : Globals → StartViewChangeArgs → Exec C (Unit {0})
  unfolding reset_vcstate note_normal_view enter_view send_start_view_change enough_start_views
  start_view_change_rpc g args = do
    r ← get
    if ltb args.view r.rstate.view
          || (r.rstate.view == args.view && not (is_view_change r.rstate.status))
        then pure tt
        else do
          let newer = ltb r.rstate.view args.view
          let r₁ = if newer then reset_vcstate g r else r
          if has_bit r₁.vcstate.start_view_replies args.replica_number then put r₁ else do
            let r₂ : Replica C = record r₁ {
              vcstate = record (r₁.vcstate) {
                start_view_replies = set_bit r₁.vcstate.start_view_replies args.replica_number;
                start_views = u64 (r₁.vcstate.start_views + 1);
              };
            }
            put r₂
            if newer
                then put (enter_view args.view (note_normal_view r₂)) >> send_start_view_change g
                else pure tt
            if r₂.vcstate.start_views == g.f then enough_start_views g else pure tt
