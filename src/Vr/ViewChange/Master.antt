-- ===== src/Vr/ViewChange/Master.antt =====
-- The new master of a view (vr/vrviewchange.go), `BecomeMaster` and `ReplicaTimeout` (vr/vr.go,
-- vr/lease.go).
use go_phat.Prelude.{
  true, ℕ, zero, suc, ◌+◌, ◌-◌, Option, none, some, List, [], ◌∷◌, Bool, ◌&&◌, ◌||◌, u64, has_bit,
  set_bit, ltb, ◌==◌, if◌then◌else◌,
}
use go_phat.Phatlog.{Log, empty_log, max_uint}
use go_phat.Vr.State.{
  Globals, VrCommand, normal, Replica, StartViewArgs, DoViewChangeArgs, PrepareReply, start_view,
}
use go_phat.Vr.Exec.{Exec, ◌>>=◌, ◌>>◌, pure, get, put, assert}
use go_phat.Vr.Commit.{do_commit}
use go_phat.Vr.Lease.{
  is_master, extend_lease, extend_needs_renewal, lease, max_clock_drift, or_panic,
}
use go_phat.Vr.ViewChange.{
  zero_do_view_change, reset_vcstate, broadcast, store_msg, prepare_view_change,
}

-- What `calcMasterView` has gathered so far.
pub record Best (C : Type 0) : Type 0 where
  pub max_view : ℕ
  pub max_commit : ℕ
  pub best_rep : DoViewChangeArgs C

module _ {C : Type 0} where
  -- The replica with the highest (NormalView, OpNumber) pair determines the log.
  abbrev pub better : DoViewChangeArgs C → DoViewChangeArgs C → Bool
  better m best =
      ltb best.normal_view m.normal_view
      || (m.normal_view == best.normal_view && ltb best.op_number m.op_number)

  unfoldable pub weigh : Best C → DoViewChangeArgs C → Best C
  unfolding max_uint
  weigh b m = record {
    max_view = max_uint b.max_view m.view;
    max_commit = max_uint b.max_commit m.commit_number;
    best_rep = if better m b.best_rep then m else b.best_rep;
  }

  abbrev pub zero_best : Best C
  zero_best = record { max_view = 0; max_commit = 0; best_rep = zero_do_view_change }

  -- The loop over the messages of all the replicas; an index out of range panics.
  unfoldable pub weigh_all : (rounds : ℕ) → List (DoViewChangeArgs C) → Best C → Option (Best C)
  unfolding weigh
  weigh_all zero msgs b = some b
  weigh_all (suc rounds) [] b = none
  weigh_all (suc rounds) (m ∷ msgs) b = weigh_all rounds msgs (weigh b m)

  -- A nil log stands for an empty one.
  abbrev pub or_empty : Option (Log (VrCommand C)) → Option (Log (VrCommand C))
  or_empty none = some empty_log
  or_empty (some l) = some l

  unfoldable pub calc_master_view : Globals → Exec C (Unit {0})
  calc_master_view g = do
    r ← get
    b ← or_panic (weigh_all g.nreplicas r.vcstate.do_view_change_msgs zero_best)
    put (record r {
      phatlog = or_empty b.best_rep.log;
      rstate = record (r.rstate) { view = b.max_view; op_number = b.best_rep.op_number };
    })
    do_commit g b.max_commit
    r ← get
    assert (r.rstate.commit_number == b.max_commit)

  unfoldable pub become_master : Globals → (now : ℕ) → Exec C (Unit {0})
  unfolding is_master extend_lease extend_needs_renewal
  become_master g now = do
    r ← get
    assert (is_master g r)
    let r₁ : Replica C = record r {
      mstate = record (r.mstate) { made = true; highest_op = []; heartbeats = [] };
    }
    let expiry = now + (lease - max_clock_drift)
    put (extend_lease now expiry (extend_needs_renewal now expiry r₁))

  -- With F + 1 messages the new master takes over.
  finish_view_change : Globals → (now : ℕ) → Exec C (Unit {0})
  unfolding calc_master_view become_master reset_vcstate
  finish_view_change g now = do
    calc_master_view g
    r ← get
    let r₁ = reset_vcstate g r
    put (record r₁ { rstate = record (r₁.rstate) { status = normal } })
    become_master g now
    r ← get
    broadcast g (
        start_view (record {
          view = r.rstate.view;
          log = r.phatlog;
          op_number = r.rstate.op_number;
          commit_number = r.rstate.commit_number;
        }))

  -- The RPC `DoViewChange`.
  unfoldable pub do_view_change_rpc : Globals → (now : ℕ) → DoViewChangeArgs C → Exec C (Unit {0})
  unfolding store_msg finish_view_change
  do_view_change_rpc g now args = do
    r ← get
    if has_bit r.vcstate.do_view_replies args.replica_number then pure tt else do
      put (record r {
        vcstate = record (r.vcstate) {
          do_view_replies = set_bit r.vcstate.do_view_replies args.replica_number;
          do_views = u64 (r.vcstate.do_views + 1);
        };
      })
      store_msg g args.replica_number args
      if u64 (r.vcstate.do_views + 1) == u64 (g.f + 1) then finish_view_change g now else pure tt

  -- The RPC `StartView`.
  unfoldable pub start_view_rpc : Globals → (now : ℕ) → StartViewArgs C → Exec C PrepareReply
  unfolding reset_vcstate extend_lease
  start_view_rpc g now args = do
    r ← get
    put (record r {
      phatlog = args.log;
      rstate = record (r.rstate) { op_number = args.op_number; view = args.view };
    })
    do_commit g args.commit_number
    r ← get
    assert (r.rstate.commit_number == args.commit_number)
    r ← get
    let r₁ = reset_vcstate g (record r { rstate = record (r.rstate) { status = normal } })
    put (extend_lease now (now + lease) r₁)
    pure (record {
      view = r₁.rstate.view;
      op_number = r₁.rstate.op_number;
      replica_number = r₁.rstate.replica_number;
      lease = now + lease;
    })

  -- `ReplicaTimeout`, when the replica's timer fires
  unfoldable pub replica_timeout : Globals → (now : ℕ) → Exec C (Unit {0})
  unfolding prepare_view_change extend_lease
  replica_timeout g now = do prepare_view_change g; r ← get; put (extend_lease now (now + lease) r)
