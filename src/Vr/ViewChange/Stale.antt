-- ===== src/Vr/ViewChange/Stale.antt =====
-- A `StartView` that is behind (vr/vrviewchange.go).
use go_phat.Prelude.{ℕ, suc, ◌+◌, ◌≤◌, ◌<◌, ◌≡◌, refl, true, false, leb, ◌==◌, arith}
use go_phat.Vr.State.{Globals, StartViewArgs}
use go_phat.Vr.Exec.{World, ok, stop, exited}
use go_phat.Vr.Commit.{do_commit, do_commit_fuel, inbox_length}
use go_phat.Vr.ViewChange.Master.{start_view_rpc}

module _ {C : Type 0} where
  do_commit_fuel-old :
      (g : Globals) (fuel cn : ℕ) (w : World C)
      → cn ≤ w.replica.rstate.commit_number
      → do_commit_fuel g (suc fuel) cn w ≡ ok tt w
  unfolding do_commit_fuel
  do_commit_fuel-old g fuel cn w le =
      let old : leb cn w.replica.rstate.commit_number ≡ true = ground arith in
      simp (old, do_commit_fuel) refl

  -- What is committed already is ignored.
  pub do_commit-old :
      (g : Globals) (cn : ℕ) (w : World C)
      → cn ≤ w.replica.rstate.commit_number
      → do_commit g cn w ≡ ok tt w
  unfolding do_commit
  do_commit-old g cn w le =
      let fuel : inbox_length w.inbox + 2 ≡ suc (suc (inbox_length w.inbox)) = omega arith in
      rw fuel (do_commit_fuel-old g (suc (inbox_length w.inbox)) cn w le)

  -- A `StartView` with a commit number below the replica's ends the replica's process: its log, op
  -- number and view are taken over whatever they are, nothing is committed, and the assertion on the
  -- commit number fails.
  pub start_view_rpc-exits :
      (g : Globals) (now : ℕ) (args : StartViewArgs C) (w : World C)
      → args.commit_number < w.replica.rstate.commit_number
      → start_view_rpc g now args w
        ≡ stop exited (record w {
          replica = record (w.replica) {
            phatlog = args.log;
            rstate = record (w.replica.rstate) { op_number = args.op_number; view = args.view };
          };
        })
  unfolding start_view_rpc
  start_view_rpc-exits g now args w lt =
      let v : World C = record w {
        replica = record (w.replica) {
          phatlog = args.log;
          rstate = record (w.replica.rstate) { op_number = args.op_number; view = args.view };
        };
      } in
      let differ : (w.replica.rstate.commit_number == args.commit_number) ≡ false = ground arith in
      rw (do_commit-old g args.commit_number v (omega arith)) (rw differ refl)
