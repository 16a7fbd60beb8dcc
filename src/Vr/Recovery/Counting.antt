-- ===== src/Vr/Recovery/Counting.antt =====
-- The counter of the answers to a recovery stays right (vr/vrrecovery.go).
use go_phat.Prelude.{
  if◌then◌else◌, ◌+◌, ◌%◌, ◌<◌, ◌≡◌, ◌⊎◌, refl, sym, ◌∙◌, Bool, true, false, inl, inr, ◌&&◌, u64,
  has_bit, set_bit, has_bit-set_bit, leb, ◌==◌, Bool-cases, Option-cases, get_elem?,
  get_elem?-set_ne, get_elem?-replicate, arith,
}
use go_phat.Vr.State.{Globals, RecoveryResponse}
use go_phat.Vr.Exec.{
  World, Run, ok, stop, ◌>>=◌, ◌>>◌, pure, get, put, and_then, Yields, Yields-and_then,
}
use go_phat.Vr.ViewChange.{prepare_view_change}
use go_phat.Vr.Recovery.{
  handle_recovery_response, recovery_body, normal_response, record_response, newer_view,
  reset_rcvstate, finish_recovery, zero_response,
}
use go_phat.Vr.Recovery.Majority.{IsCounted, Recorded, record_response-Recorded, SameStatus}

module _ {C : Type 0} where
  Recorded-IsCounted :
      (reply : RecoveryResponse C) (w u : World C)
      → IsCounted w
      → reply.replica_number < 64
      → Recorded reply w u
      → IsCounted u
  Recorded-IsCounted reply w u k small c = record {
    counted = rw c.msgs c.responses;
    unseen = λ i m new at.
        let i_new : has_bit
              (set_bit w.replica.rcvstate.recovery_response_replies reply.replica_number) i
            ≡ false =
          rw c.replies at new in
        let bits =
          has_bit-set_bit w.replica.rcvstate.recovery_response_replies reply.replica_number i
            small in
        elim (Bool-cases (reply.replica_number == i)) [
          | inl this ↦
              let seen : true ≡ false = sym (bits ∙ rw this refl) ∙ i_new in absurd (ground arith)
          | inr other ↦ k.unseen i m (sym (bits ∙ rw other refl) ∙ i_new) (
              sym (
                get_elem?-set_ne w.replica.rcvstate.recovery_response_msgs reply.replica_number i
                  reply (ground arith))
              ∙ (rw c.msgs at at))
        ];
  }

  IsCounted-cong :
      (w v : World C) → v.replica.rcvstate ≡ w.replica.rcvstate → IsCounted w → IsCounted v
  IsCounted-cong w v e k = record { counted = rw e k.counted; unseen = rw e k.unseen }

  reset_rcvstate-IsCounted :
      (g : Globals) (w : World C) → IsCounted (record w { replica = reset_rcvstate g w.replica })
  unfolding reset_rcvstate
  reset_rcvstate-IsCounted g w = record {
    counted = omega arith;
    unseen = λ i m new at.
        let zero : zero_response ≡ m = get_elem?-replicate g.nreplicas i zero_response m at in
        rw (sym zero) refl;
  }

  -- The handler is done and resets the counter, or the counter is right.
  abbrev Stays : Bool → World C → Type 0
  Stays finished v = (finished ≡ true) ⊎ IsCounted v

  abbrev Anything : World C → Type 0
  Anything v = Unit {0}

  Yields-any :
      {A : Type 0} (P : A → World C → Type 0) (Q : World C → Type 0) (r : Run C A)
      → Yields P Q r
      → Yields P Anything r
  Yields-any P Q (ok a w) p = p
  Yields-any P Q (stop s w) p = tt

  Yields-true : {A : Type 0} (r : Run C A) → Yields Stays Anything (and_then r (λ a. pure true))
  Yields-true (ok a w) = inl refl
  Yields-true (stop s w) = tt

  normal_response-Stays :
      (g : Globals) (reply : RecoveryResponse C) (u : World C)
      → IsCounted u
      → Yields Stays Anything (normal_response g reply u)
  unfolding normal_response
  normal_response-Stays g reply u k =
      let r = newer_view reply.view u.replica in
      let v : World C = record u { replica = r } in
      let same : r.rcvstate ≡ u.replica.rcvstate = ground arith in
      elim (Bool-cases (
        leb (u64 (g.f + 1)) r.rcvstate.recovery_responses
        && has_bit r.rcvstate.recovery_response_replies (r.rstate.view % g.nreplicas))) [
          | inr waiting ↦ rw (waiting, normal_response) (inr (IsCounted-cong u v same k))
          | inl enough ↦
              elim (Option-cases
                (get_elem? r.rcvstate.recovery_response_msgs (r.rstate.view % g.nreplicas))) [
                  | inl missing ↦ rw (enough, missing, normal_response) tt
                  | inr (response, found) ↦
                      rw (enough, found, normal_response)
                        (Yields-true (finish_recovery g response v))
                ]
        ]

  after_record-Stays :
      (g : Globals) (reply : RecoveryResponse C) (u : World C)
      → IsCounted u
      → Yields Stays Anything (
          (do
            r ← get
            if leb (u64 (g.f + 1)) r.rcvstate.empty_logs
                then prepare_view_change g >> pure true
                else if reply.normal
                then normal_response g reply
                else pure false)
            u)
  after_record-Stays g reply u k =
      elim (Bool-cases (leb (u64 (g.f + 1)) u.replica.rcvstate.empty_logs)) [
        | inl started ↦ simp started (Yields-true (prepare_view_change g u))
        | inr running ↦ elim (Bool-cases reply.normal) [
          | inl on ↦ simp (running, on) (normal_response-Stays g reply u k)
          | inr down ↦ simp (running, down) (inr k)
        ]
      ]

  recovery_body-Stays :
      (g : Globals) (reply : RecoveryResponse C) (w : World C)
      → IsCounted w
      → reply.replica_number < 64
      → Yields Stays Anything (recovery_body g reply w)
  unfolding recovery_body
  recovery_body-Stays g reply w k small =
      elim (Bool-cases
        (has_bit w.replica.rcvstate.recovery_response_replies reply.replica_number)) [
          | inl seen ↦ simp (seen, recovery_body) (inr k)
          | inr new ↦ elim (Bool-cases (w.replica.rcvstate.nonce == reply.nonce)) [
            | inr other ↦ simp (new, other, recovery_body) (inr k)
            | inl same ↦
                simp (new, same, recovery_body)
                  (Yields-and_then (λ a u. Recorded reply w u) Stays Anything
                    (record_response reply w) _
                    (Yields-any _ (SameStatus w) (record_response reply w)
                      (record_response-Recorded reply w k new))
                    (λ a u c.
                      after_record-Stays g reply u (Recorded-IsCounted reply w u k small c)))
          ]
        ]

  deferred-IsCounted :
      (g : Globals) (finished : Bool) (v : World C)
      → Stays finished v
      → Yields
          (λ a u. IsCounted u)
          Anything
          ((do r ← get; if finished then put (reset_rcvstate g r) else pure tt; pure finished) v)
  deferred-IsCounted g true v p = reset_rcvstate-IsCounted g v
  deferred-IsCounted g false v (inl e) = absurd (ground arith)
  deferred-IsCounted g false v (inr k) = k

  -- Where the handler of an answer to a recovery returns, the counter of the answers is right if it was
  -- so before. The replica that answers has a number below 64.
  handle_recovery_response-IsCounted :
      (g : Globals) (reply : RecoveryResponse C) (w : World C)
      → IsCounted w
      → reply.replica_number < 64
      → Yields (λ a v. IsCounted v) Anything (handle_recovery_response g reply w)
  unfolding handle_recovery_response
  handle_recovery_response-IsCounted g reply w k small =
      Yields-and_then Stays (λ a v. IsCounted v) Anything (recovery_body g reply w) _
        (recovery_body-Stays g reply w k small) (λ finished v p. deferred-IsCounted g finished v p)
