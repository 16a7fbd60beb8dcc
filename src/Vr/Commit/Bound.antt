-- ===== src/Vr/Commit/Bound.antt =====
-- `doCommit` on a master (vr/vr.go), whose view makes it its own master: it commits nothing past
-- the number that it is given, since its state transfer never gets an answer.
use go_phat.Prelude.{
  ℕ, zero, suc, ◌+◌, ◌-◌, ◌%◌, ◌≤◌, ◌<◌, ◌≡◌, Option, none, some, true, inl, inr, u64, ltb, leb,
  ◌==◌, ==_iff, Bool-cases, arith,
}
use go_phat.Vr.State.{Globals, VrCommand, MasterState}
use go_phat.Vr.Exec.{World, Exec, Always, Always-and_then}
use go_phat.Vr.Commit.{
  run_command, commit_one, commit_loop, start_state_transfer_with, do_commit_fuel, do_commit,
  is_normal, inbox_length,
}
use go_phat.Vr.Commit.CatchUp.{run_command-some}

-- The replica is the master of its view, the commit number is within the bound, and the master's
-- state is the given one.
pub record AtMost {C : Type 0} (g : Globals) (bound : ℕ) (s : MasterState) (w : World C)
    : Type 0 where
  pub self : w.replica.rstate.view % g.nreplicas ≡ w.replica.rstate.replica_number
  pub within : w.replica.rstate.commit_number ≤ bound
  pub same : w.replica.mstate ≡ s

module _ {C : Type 0} (g : Globals) (bound : ℕ) (s : MasterState) where
  run_command-AtMost :
      (o : Option (VrCommand C)) (w : World C)
      → u64 (w.replica.rstate.commit_number + 1) ≡ suc w.replica.rstate.commit_number
      → suc w.replica.rstate.commit_number ≤ bound
      → AtMost g bound s w
      → Always (AtMost g bound s) (run_command o w)
  run_command-AtMost none w u le p = unfold run_command in p
  run_command-AtMost (some c) w u le p =
      rw (run_command-some w _ c u) (record { self = p.self; within = le; same = p.same })

  commit_one-AtMost :
      (cn : ℕ) (w : World C)
      → w.replica.rstate.commit_number < cn
      → cn ≤ bound
      → AtMost g bound s w
      → Always (AtMost g bound s) (commit_one cn w)
  unfolding commit_one
  commit_one-AtMost cn w lt le p =
      elim (Bool-cases (cn == u64 (w.replica.rstate.commit_number + 1))) [
        | inl same ↦
            let e : cn ≡ u64 (w.replica.rstate.commit_number + 1) = (==_iff cn _).0 same in
            rw (same, commit_one) (run_command-AtMost _ w (omega arith) (omega arith) p)
        | inr other ↦ rw (other, commit_one) p
      ]

  start_state_transfer_with-AtMost :
      (f : ℕ → Exec C (Unit {0})) (w : World C)
      → AtMost g bound s w
      → Always (AtMost g bound s) (start_state_transfer_with f g w)
  unfolding start_state_transfer_with
  start_state_transfer_with-AtMost f w p = elim (Bool-cases (is_normal w.replica.rstate.status)) [
    | inl on ↦
        let self : (w.replica.rstate.view % g.nreplicas == w.replica.rstate.replica_number) ≡ true =
          (==_iff _ _).1 p.self in
        rw (on, self, start_state_transfer_with) p
    | inr off ↦ rw (off, start_state_transfer_with) p
  ]

  module _ (f : ℕ → Exec C (Unit {0}))
      (keep : (i : ℕ) (w : World C)
        → i ≤ bound
        → AtMost g bound s w
        → Always (AtMost g bound s) (f i w)) where
    commit_loop-AtMost :
        (cn rounds i : ℕ) (w : World C)
        → cn ≤ bound
        → AtMost g bound s w
        → Always (AtMost g bound s) (commit_loop f cn rounds i w)
    unfolding commit_loop
    commit_loop-AtMost cn zero i w le p = elim (Bool-cases (leb i cn)) [
      | inl more ↦ rw (more, commit_loop) p
      | inr done ↦ rw (done, commit_loop) p
    ]
    commit_loop-AtMost cn (suc rounds) i w le p = elim (Bool-cases (leb i cn)) [
      | inl more ↦
          rw (more, commit_loop)
            (Always-and_then (AtMost g bound s) (f i w) (λ _. commit_loop f cn rounds (u64 (i + 1)))
              (keep i w (ground arith) p)
              (λ a v q. commit_loop-AtMost cn rounds (u64 (i + 1)) v le q))
      | inr done ↦ rw (done, commit_loop) p
    ]

  do_commit_fuel-AtMost :
      (fuel cn : ℕ) (w : World C)
      → cn ≤ bound
      → AtMost g bound s w
      → Always (AtMost g bound s) (do_commit_fuel g fuel cn w)
  unfolding do_commit_fuel
  do_commit_fuel-AtMost zero cn w le p = p
  do_commit_fuel-AtMost (suc fuel) cn w le p =
      elim (Bool-cases (leb cn w.replica.rstate.commit_number)) [
        | inl old ↦ rw (old, do_commit_fuel) p
        | inr new ↦ elim (Bool-cases (ltb w.replica.rstate.op_number cn)) [
          | inl ahead ↦
              rw (new, ahead, do_commit_fuel)
                (start_state_transfer_with-AtMost (do_commit_fuel g fuel) w p)
          | inr here ↦ elim (Bool-cases (ltb (u64 (w.replica.rstate.commit_number + 1)) cn)) [
            | inl more ↦
                rw (new, here, more, do_commit_fuel)
                  (commit_loop-AtMost (do_commit_fuel g fuel) (do_commit_fuel-AtMost fuel) cn
                    (cn - w.replica.rstate.commit_number) (u64 (w.replica.rstate.commit_number + 1))
                    w le p)
            | inr one ↦
                rw (new, here, one, do_commit_fuel) (commit_one-AtMost cn w (ground arith) le p)
          ]
        ]
      ]

  pub do_commit-AtMost :
      (cn : ℕ) (w : World C)
      → cn ≤ bound
      → AtMost g bound s w
      → Always (AtMost g bound s) (do_commit g cn w)
  unfolding do_commit
  do_commit-AtMost cn w le p = do_commit_fuel-AtMost (inbox_length w.inbox + 2) cn w le p
