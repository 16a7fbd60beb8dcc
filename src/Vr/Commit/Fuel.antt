-- ===== src/Vr/Commit/Fuel.antt =====
-- The fuel that `doCommit` is given (vr/vr.go) is enough: its recursion ends.
use go_phat.Prelude.{
  ℕ, zero, suc, ◌+◌, ◌-◌, ◌%◌, ◌≤◌, ◌<◌, ◌≡◌, ◌⊎◌, refl, sym, ap, Option, none, some, List, [], ◌∷◌,
  Bool, true, false, inl, inr, u64, u64_mod, ltb, leb, ◌==◌, ==_iff, Bool-cases, Option-cases,
  arith,
}
use go_phat.Vr.State.{Globals, VrCommand, Effect, GetStateResponse}
use go_phat.Vr.Exec.{World, Run, ok, stop, blocked, exited, panicked, out_of_fuel, Exec, and_then}
use go_phat.Vr.Commit.{
  commit_entry, run_command, commit_one, commit_loop, handle_get_state_response, next_reply,
  start_state_transfer_with, do_commit_fuel, do_commit, is_normal, inbox_length,
}
use go_phat.Vr.Commit.CatchUp.{after, commit_effects, run_command-some, do_commit_fuel-next}
use go_phat.Vr.Commit.Keeps.{installed}

module _ {C : Type 0} where
  -- The action ends, or the process does, or it waits for a reply: no reply is left, or the replica is
  -- the master of its view and asks itself.
  abbrev pub Ends : {A : Type 0} → Globals → Run C A → Type 0
  Ends g (ok a w) = Unit {0}
  Ends g (stop blocked w) =
      (w.inbox ≡ []) ⊎ (w.replica.rstate.view % g.nreplicas ≡ w.replica.rstate.replica_number)
  Ends g (stop exited w) = Unit {0}
  Ends g (stop panicked w) = Unit {0}
  Ends g (stop out_of_fuel w) = ⊥

  -- The numbers of the replies are 64-bit numbers, and not the last one.
  abbrev pub AreWords : List (GetStateResponse C) → Type 0
  AreWords [] = Unit {0}
  AreWords (reply ∷ rest) = (reply.op_number + 1 < u64_mod) × AreWords rest

  Ends-pure : (g : Globals) (r : Run C (Unit {0})) → Ends g r → Ends g (and_then r (λ a v. ok tt v))
  Ends-pure g (ok a w) h = tt
  Ends-pure g (stop s w) h = h

  Ends-true :
      (g : Globals) (r : Run C (Unit {0})) → Ends g r → Ends g (and_then r (λ a v. ok true v))
  Ends-true g (ok a w) h = tt
  Ends-true g (stop s w) h = h

  Ends-true-pure : (g : Globals) (r : Run C Bool) → Ends g r → Ends g (and_then r (λ a v. ok tt v))
  Ends-true-pure g (ok a w) h = tt
  Ends-true-pure g (stop s w) h = h

  Ends-run_command :
      (g : Globals) (o : Option (VrCommand C)) (w : World C)
      → u64 (w.replica.rstate.commit_number + 1) ≡ suc w.replica.rstate.commit_number
      → Ends g (run_command o w)
  Ends-run_command g none w u = unfold run_command in tt
  Ends-run_command g (some c) w u = rw (run_command-some w _ c u) tt

  Ends-commit_one :
      (g : Globals) (cn : ℕ) (w : World C)
      → w.replica.rstate.commit_number < cn
      → Ends g (commit_one cn w)
  unfolding commit_one
  Ends-commit_one g cn w lt = elim (Bool-cases (cn == u64 (w.replica.rstate.commit_number + 1))) [
    | inl same ↦
        let e : cn ≡ u64 (w.replica.rstate.commit_number + 1) = (==_iff cn _).0 same in
        rw (same, commit_one) (Ends-run_command g _ w (omega arith))
    | inr other ↦ rw (other, commit_one) tt
  ]

  -- Rounds that start just after the commit number and stay within the log.
  Ends-commit_loop :
      (g : Globals) (fuel cn rounds i : ℕ) (w : World C)
      → i ≡ suc w.replica.rstate.commit_number
      → rounds + w.replica.rstate.commit_number ≡ cn
      → cn ≤ w.replica.rstate.op_number
      → w.replica.rstate.op_number + 1 < u64_mod
      → Ends g (commit_loop (do_commit_fuel g (suc fuel)) cn rounds i w)
  unfolding commit_loop run_command
  Ends-commit_loop g fuel cn zero i w e sum le lt =
      let done : leb i cn ≡ false = ground arith in rw (done, commit_loop) tt
  Ends-commit_loop g fuel cn (suc rounds) i w e sum le lt =
      let more : leb i cn ≡ true = ground arith in
      let next : u64 (i + 1) ≡ suc i = omega arith in
      rw (more, commit_loop)
        (rw (next, do_commit_fuel-next g fuel i w e (omega arith) (omega arith))
          (elim (Option-cases (commit_entry w.replica.phatlog i)) [
            | inl missing ↦ rw missing tt
            | inr (c, found) ↦
                rw (found, run_command-some w i c (omega arith))
                  (Ends-commit_loop g fuel cn rounds (suc i)
                    (after i (c.c ∷ []) (commit_effects i c) w) refl (omega arith) (omega arith) lt)
          ]))

  module _ (g : Globals) (f : ℕ → Exec C (Unit {0})) where
    Ends-next_reply :
        (inbox : List (GetStateResponse C)) (w : World C)
        → w.inbox ≡ inbox
        → ((reply : GetStateResponse C) (rest : List (GetStateResponse C))
            → inbox ≡ reply ∷ rest
            → Ends g (f reply.commit_number (installed reply rest w)))
        → Ends g (next_reply f inbox w)
    unfolding next_reply handle_get_state_response
    Ends-next_reply [] w e h = inl e
    Ends-next_reply (reply ∷ rest) w e h = elim (Bool-cases (reply.view == w.replica.rstate.view)) [
      | inl same ↦
          rw (same, next_reply)
            (Ends-true-pure g _
              (Ends-true g (f reply.commit_number (installed reply rest w)) (h reply rest refl)))
      | inr other ↦ rw (other, next_reply) tt
    ]

    Ends-start_state_transfer_with :
        (w : World C)
        → ((reply : GetStateResponse C) (rest : List (GetStateResponse C)) (out : List (Effect C))
            → w.inbox ≡ reply ∷ rest
            → Ends g (f reply.commit_number (installed reply rest (record w { outbox = out }))))
        → Ends g (start_state_transfer_with f g w)
    unfolding start_state_transfer_with
    Ends-start_state_transfer_with w h = elim (Bool-cases (is_normal w.replica.rstate.status)) [
      | inl on ↦
          elim (Bool-cases
            (w.replica.rstate.view % g.nreplicas == w.replica.rstate.replica_number)) [
              | inl self ↦ rw (on, self, start_state_transfer_with) (inr ((==_iff _ _).0 self))
              | inr other ↦
                  rw (on, other, start_state_transfer_with)
                    (Ends-next_reply w.inbox _ refl (λ reply rest e. h reply rest _ e))
            ]
      | inr off ↦ rw (off, start_state_transfer_with) tt
    ]

  Ends-step :
      (g : Globals) (n cn : ℕ) (w : World C)
      → w.replica.rstate.op_number + 1 < u64_mod
      → ((reply : GetStateResponse C) (rest : List (GetStateResponse C)) (out : List (Effect C))
          → w.inbox ≡ reply ∷ rest
          → Ends g (
              do_commit_fuel g
                (suc n)
                reply.commit_number
                (installed reply rest (record w { outbox = out }))))
      → Ends g (do_commit_fuel g (suc (suc n)) cn w)
  unfolding do_commit_fuel
  Ends-step g n cn w lt ih = elim (Bool-cases (leb cn w.replica.rstate.commit_number)) [
    | inl old ↦ rw (old, do_commit_fuel) tt
    | inr new ↦ elim (Bool-cases (ltb w.replica.rstate.op_number cn)) [
      | inl ahead ↦
          rw (new, ahead, do_commit_fuel)
            (Ends-start_state_transfer_with g (do_commit_fuel g (suc n)) w ih)
      | inr here ↦ elim (Bool-cases (ltb (u64 (w.replica.rstate.commit_number + 1)) cn)) [
        | inl more ↦
            rw (new, here, more, do_commit_fuel)
              (Ends-commit_loop g n cn (cn - w.replica.rstate.commit_number)
                (u64 (w.replica.rstate.commit_number + 1)) w (ground arith) (ground arith)
                (ground arith) lt)
        | inr one ↦ rw (new, here, one, do_commit_fuel) (Ends-commit_one g cn w (ground arith))
      ]
    ]
  ]

  Ends-do_commit_fuel :
      (g : Globals) (n cn : ℕ) (w : World C)
      → inbox_length w.inbox ≤ n
      → w.replica.rstate.op_number + 1 < u64_mod
      → AreWords w.inbox
      → Ends g (do_commit_fuel g (suc (suc n)) cn w)
  Ends-do_commit_fuel g zero cn w le lt words = Ends-step g zero cn w lt (λ reply rest out e.
      let fewer : suc (inbox_length rest) ≡ inbox_length w.inbox = sym (ap inbox_length e) in
      absurd (omega arith))
  Ends-do_commit_fuel g (suc n) cn w le lt words = Ends-step g (suc n) cn w lt (λ reply rest out e.
      let fewer : suc (inbox_length rest) ≡ inbox_length w.inbox = sym (ap inbox_length e) in
      let known : AreWords (reply ∷ rest) = rw e at words in
      Ends-do_commit_fuel g n reply.commit_number (installed reply rest (record w { outbox = out }))
        (omega arith) known.0 known.1)

  -- `doCommit` does not go on forever, as long as the op numbers of the replica and of the replies that
  -- it gets are 64-bit numbers and not the last one: it returns, or the process ends, or it waits for
  -- a reply that does not come, since none is left or since the replica is the master of its view and
  -- asks itself. Its calls nest no deeper than two more than there are replies.
  pub do_commit-Ends :
      (g : Globals) (cn : ℕ) (w : World C)
      → w.replica.rstate.op_number + 1 < u64_mod
      → AreWords w.inbox
      → Ends g (do_commit g cn w)
  unfolding do_commit
  do_commit-Ends g cn w lt words =
      let fuel : inbox_length w.inbox + 2 ≡ suc (suc (inbox_length w.inbox)) = omega arith in
      rw fuel (Ends-do_commit_fuel g (inbox_length w.inbox) cn w (omega arith) lt words)
