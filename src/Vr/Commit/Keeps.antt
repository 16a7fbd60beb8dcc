-- ===== src/Vr/Commit/Keeps.antt =====
-- An induction rule for `doCommit` (vr/vr.go): what one command, one new log and one message keep,
-- `doCommit` keeps.
use go_phat.Prelude.{
  ℕ, zero, suc, ◌+◌, ◌-◌, ◌%◌, ◌≤◌, ◌<◌, ◌≡◌, refl, Option, none, some, List, [], ◌∷◌, ◌++◌, inl,
  inr, u64, ltb, leb, ◌==◌, ==_iff, Bool-cases, arith,
}
use go_phat.Vr.State.{Globals, VrCommand, Effect, GetStateResponse}
use go_phat.Vr.Exec.{World, Exec, Always, Always-and_then}
use go_phat.Vr.Commit.{
  commit_entry, run_command, commit_one, commit_loop, handle_get_state_response, next_reply,
  start_state_transfer_with, do_commit_fuel, do_commit, start_state_transfer, is_normal,
  inbox_length,
}
use go_phat.Vr.Commit.CatchUp.{after, commit_effects, run_command-some}

module _ {C : Type 0} where
  -- The log and the op number of a reply of the master, and the rest of the inbox.
  abbrev pub installed : GetStateResponse C → List (GetStateResponse C) → World C → World C
  installed reply rest w = record w {
    replica = record (w.replica) {
      phatlog = reply.log;
      rstate = record (w.replica.rstate) { op_number = reply.op_number };
    };
    inbox = rest;
  }

  pub record Keeps (P : World C → Type 0) : Type 0 where
    pub ran :
        (w : World C) (c : VrCommand C)
        → commit_entry w.replica.phatlog (suc w.replica.rstate.commit_number) ≡ some c
        → suc w.replica.rstate.commit_number ≤ w.replica.rstate.op_number
        → P w
        → P (
            after
              (suc w.replica.rstate.commit_number)
              (c.c ∷ [])
              (commit_effects (suc w.replica.rstate.commit_number) c)
              w)
    pub took :
        (w : World C) (reply : GetStateResponse C) (rest : List (GetStateResponse C))
        → w.inbox ≡ reply ∷ rest
        → reply.view ≡ w.replica.rstate.view
        → P w
        → P (installed reply rest w)
    pub dropped :
        (w : World C) (reply : GetStateResponse C) (rest : List (GetStateResponse C))
        → w.inbox ≡ reply ∷ rest
        → P w
        → P (record w { inbox = rest })
    pub sent : (w : World C) (e : Effect C) → P w → P (record w { outbox = w.outbox ++ e ∷ [] })

module _ {C : Type 0} {P : World C → Type 0} (k : Keeps P) where
  run_command-Always :
      (o : Option (VrCommand C)) (w : World C)
      → commit_entry w.replica.phatlog (suc w.replica.rstate.commit_number) ≡ o
      → u64 (w.replica.rstate.commit_number + 1) ≡ suc w.replica.rstate.commit_number
      → suc w.replica.rstate.commit_number ≤ w.replica.rstate.op_number
      → P w
      → Always P (run_command o w)
  run_command-Always none w e u le p = unfold run_command in p
  run_command-Always (some c) w e u le p = rw (run_command-some w _ c u) (k.ran w c e le p)

  commit_one-Always :
      (cn : ℕ) (w : World C)
      → w.replica.rstate.commit_number < cn
      → cn ≤ w.replica.rstate.op_number
      → P w
      → Always P (commit_one cn w)
  unfolding commit_one
  commit_one-Always cn w lt le p =
      elim (Bool-cases (cn == u64 (w.replica.rstate.commit_number + 1))) [
        | inl same ↦
            let e : cn ≡ u64 (w.replica.rstate.commit_number + 1) = (==_iff cn _).0 same in
            let u : u64 (w.replica.rstate.commit_number + 1) ≡ suc w.replica.rstate.commit_number =
              omega arith in
            rw (same, commit_one) (rw u (run_command-Always _ w refl u (omega arith) p))
        | inr other ↦ rw (other, commit_one) p
      ]

  module _ (f : ℕ → Exec C (Unit {0})) (keep : (i : ℕ) (w : World C) → P w → Always P (f i w)) where
    commit_loop-Always :
        (cn rounds i : ℕ) (w : World C) → P w → Always P (commit_loop f cn rounds i w)
    unfolding commit_loop
    commit_loop-Always cn zero i w p = elim (Bool-cases (leb i cn)) [
      | inl more ↦ rw (more, commit_loop) p
      | inr done ↦ rw (done, commit_loop) p
    ]
    commit_loop-Always cn (suc rounds) i w p = elim (Bool-cases (leb i cn)) [
      | inl more ↦
          rw (more, commit_loop)
            (Always-and_then P (f i w) (λ _. commit_loop f cn rounds (u64 (i + 1))) (keep i w p)
              (λ a v q. commit_loop-Always cn rounds (u64 (i + 1)) v q))
      | inr done ↦ rw (done, commit_loop) p
    ]

    next_reply-Always :
        (inbox : List (GetStateResponse C)) (w : World C)
        → w.inbox ≡ inbox
        → P w
        → Always P (next_reply f inbox w)
    unfolding next_reply handle_get_state_response
    next_reply-Always [] w e p = p
    next_reply-Always (reply ∷ rest) w e p =
        elim (Bool-cases (reply.view == w.replica.rstate.view)) [
          | inl same ↦
              rw (same, next_reply)
                (Always-and_then P _ _
                  (Always-and_then P (f reply.commit_number (installed reply rest w)) _
                    (keep reply.commit_number (installed reply rest w)
                      (k.took w reply rest e ((==_iff reply.view w.replica.rstate.view).0 same) p))
                    (λ a v q. q))
                  (λ a v q. q))
          | inr other ↦ rw (other, next_reply) (k.dropped w reply rest e p)
        ]

    start_state_transfer_with-Always :
        (g : Globals) (w : World C) → P w → Always P (start_state_transfer_with f g w)
    unfolding start_state_transfer_with
    start_state_transfer_with-Always g w p = elim (Bool-cases (is_normal w.replica.rstate.status)) [
      | inl on ↦
          elim (Bool-cases
            (w.replica.rstate.view % g.nreplicas == w.replica.rstate.replica_number)) [
              | inl self ↦ rw (on, self, start_state_transfer_with) p
              | inr other ↦
                  rw (on, other, start_state_transfer_with)
                    (next_reply-Always w.inbox _ refl (k.sent w _ p))
            ]
      | inr off ↦ rw (off, start_state_transfer_with) p
    ]

  pub do_commit_fuel-Always :
      (g : Globals) (fuel cn : ℕ) (w : World C) → P w → Always P (do_commit_fuel g fuel cn w)
  unfolding do_commit_fuel
  do_commit_fuel-Always g zero cn w p = p
  do_commit_fuel-Always g (suc fuel) cn w p =
      elim (Bool-cases (leb cn w.replica.rstate.commit_number)) [
        | inl old ↦ rw (old, do_commit_fuel) p
        | inr new ↦ elim (Bool-cases (ltb w.replica.rstate.op_number cn)) [
          | inl ahead ↦
              rw (new, ahead, do_commit_fuel)
                (start_state_transfer_with-Always (do_commit_fuel g fuel)
                  (do_commit_fuel-Always g fuel) g w p)
          | inr here ↦ elim (Bool-cases (ltb (u64 (w.replica.rstate.commit_number + 1)) cn)) [
            | inl more ↦
                rw (new, here, more, do_commit_fuel)
                  (commit_loop-Always (do_commit_fuel g fuel) (do_commit_fuel-Always g fuel) cn
                    (cn - w.replica.rstate.commit_number) (u64 (w.replica.rstate.commit_number + 1))
                    w p)
            | inr one ↦
                rw (new, here, one, do_commit_fuel)
                  (commit_one-Always cn w (ground arith) (ground arith) p)
          ]
        ]
      ]

  pub do_commit-Always : (g : Globals) (cn : ℕ) (w : World C) → P w → Always P (do_commit g cn w)
  unfolding do_commit
  do_commit-Always g cn w p = do_commit_fuel-Always g (inbox_length w.inbox + 2) cn w p

  pub start_state_transfer-Always :
      (g : Globals) (w : World C) → P w → Always P (start_state_transfer g w)
  unfolding start_state_transfer
  start_state_transfer-Always g w p =
      start_state_transfer_with-Always (do_commit_fuel g (inbox_length w.inbox + 2))
        (do_commit_fuel-Always g (inbox_length w.inbox + 2)) g w p
