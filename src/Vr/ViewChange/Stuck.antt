-- ===== src/Vr/ViewChange/Stuck.antt =====
-- A view change that the new master can no longer finish (vr/vrviewchange.go): its own message is
-- counted without the test for F + 1.
use go_phat.Prelude.{
  ℕ, ◌+◌, ◌%◌, ◌≤◌, ◌<◌, ◌≡◌, true, false, inl, inr, u64, u64_mod, has_bit, ltb, ◌==◌, Bool-cases,
  length, arith,
}
use go_phat.Vr.State.{Globals, view_change, StartViewChangeArgs, DoViewChangeArgs}
use go_phat.Vr.Exec.{World, Always}
use go_phat.Vr.ViewChange.{start_view_change_rpc}
use go_phat.Vr.ViewChange.Master.{do_view_change_rpc}

module _ {C : Type 0} where
  -- More messages have been counted than the test looks for, and the view change is not over.
  pub record IsStuck (g : Globals) (w : World C) : Type 0 where
    pub status : w.replica.rstate.status ≡ view_change
    pub past : g.f + 1 ≤ w.replica.vcstate.do_views

  -- In view change mode, with F `DoViewChange` messages counted, the F-th `StartViewChange` for the
  -- view makes the new master count its own message; it then has F + 1 and is still in view change
  -- mode: it does not take over.
  pub start_view_change_rpc-IsStuck :
      (g : Globals) (args : StartViewChangeArgs) (w : World C)
      → w.replica.rstate.status ≡ view_change
      → args.view ≡ w.replica.rstate.view
      → has_bit w.replica.vcstate.start_view_replies args.replica_number ≡ false
      → u64 (w.replica.vcstate.start_views + 1) ≡ g.f
      → (w.replica.rstate.view % g.nreplicas == w.replica.rstate.replica_number) ≡ true
      → w.replica.vcstate.do_views ≡ g.f
      → g.f + 1 < u64_mod
      → Always (IsStuck g) (start_view_change_rpc g args w)
  unfolding start_view_change_rpc
  start_view_change_rpc-IsStuck g args w status view new last self counted lt =
      let current : ltb args.view w.replica.rstate.view ≡ false = ground arith in
      let same : (w.replica.rstate.view == args.view) ≡ true = ground arith in
      let not_newer : ltb w.replica.rstate.view args.view ≡ false = ground arith in
      let enough : (u64 (w.replica.vcstate.start_views + 1) == g.f) ≡ true = ground arith in
      simp (current, same, status, not_newer, new, enough, self, start_view_change_rpc)
        (elim (Bool-cases
          (ltb w.replica.rstate.replica_number (length w.replica.vcstate.do_view_change_msgs))) [
            | inl inside ↦ simp inside (record { status = status; past = omega arith })
            | inr outside ↦ simp outside (record { status = status; past = omega arith })
          ])

  -- A replica in view change mode that has counted more than F messages, and fewer than 2^64 - 1,
  -- stays so on every `DoViewChange` message, however the handler ends: none finishes the view
  -- change.
  pub do_view_change_rpc-IsStuck :
      (g : Globals) (now : ℕ) (args : DoViewChangeArgs C) (w : World C)
      → IsStuck g w
      → w.replica.vcstate.do_views + 1 < u64_mod
      → Always (IsStuck g) (do_view_change_rpc g now args w)
  unfolding do_view_change_rpc
  do_view_change_rpc-IsStuck g now args w stuck lt =
      elim (Bool-cases (has_bit w.replica.vcstate.do_view_replies args.replica_number)) [
        | inl seen ↦ simp (seen, do_view_change_rpc) stuck
        | inr new ↦
            let over : (u64 (w.replica.vcstate.do_views + 1) == u64 (g.f + 1)) ≡ false =
              ground (arith, stuck.past) in
            elim (Bool-cases
              (ltb args.replica_number (length w.replica.vcstate.do_view_change_msgs))) [
                | inl inside ↦
                    simp (new, inside, over, do_view_change_rpc)
                      (record { status = stuck.status; past = omega (arith, stuck.past) })
                | inr outside ↦
                    simp (new, outside, do_view_change_rpc)
                      (record { status = stuck.status; past = omega (arith, stuck.past) })
              ]
      ]
