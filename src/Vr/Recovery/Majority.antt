-- ===== src/Vr/Recovery/Majority.antt =====
-- When a recovering replica goes back to normal mode (vr/vrrecovery.go).
use go_phat.Prelude.{
  ℕ, some, List, set, set_bit, count_if, count_if-set, get_elem?, get_elem?-some, ◌+◌, ◌%◌, ◌≤◌,
  ◌<◌, ◌≡◌, refl, ◌⊎◌, Bool, true, false, inl, inr, ◌&&◌, u64, u64_mod, has_bit, leb, ltb, ◌==◌,
  if◌then◌else◌, Bool-cases, length, arith,
}
use go_phat.Vr.State.{Globals, RecoveryResponse}
use go_phat.Vr.Exec.{
  World, ◌>>=◌, ◌>>◌, pure, get, put, Always, Always-and_then, Always-next, Always-all, Yields,
  Always-of_Yields,
}
use go_phat.Vr.Commit.{is_normal}
use go_phat.Vr.ViewChange.{prepare_view_change}
use go_phat.Vr.Recovery.{
  handle_recovery_response, recovery_body, normal_response, record_response, newer_view,
  reset_rcvstate,
}

module _ {C : Type 0} where
  -- Not in normal mode.
  abbrev pub NotNormal : World C → Type 0
  NotNormal w = is_normal w.replica.rstate.status ≡ false

  -- How many of the replicas have answered in normal mode: there is one message for each replica.
  abbrev pub count_normal : List (RecoveryResponse C) → ℕ
  count_normal msgs = count_if (λ m. m.normal) msgs

  -- The counter of a recovery is no more than these, and a replica that is not marked as having
  -- answered has no answer in normal mode.
  pub record IsCounted (w : World C) : Type 0 where
    pub counted :
        w.replica.rcvstate.recovery_responses
        ≤ count_normal w.replica.rcvstate.recovery_response_msgs
    pub unseen :
        (i : ℕ) (m : RecoveryResponse C)
        → has_bit w.replica.rcvstate.recovery_response_replies i ≡ false
        → get_elem? w.replica.rcvstate.recovery_response_msgs i ≡ some m
        → m.normal ≡ false

  -- The messages of the replicas with this one.
  abbrev pub with_reply : RecoveryResponse C → World C → List (RecoveryResponse C)
  with_reply reply w = set w.replica.rcvstate.recovery_response_msgs reply.replica_number reply

  -- Not in normal mode, or F + 1 replicas have answered in normal mode, with this answer.
  abbrev pub IsJustified : Globals → RecoveryResponse C → World C → World C → Type 0
  IsJustified g reply w v =
      NotNormal v ⊎ ((g.f + 1 ≤ count_normal (with_reply reply w)) × (reply.normal ≡ true))

  -- What counting a response leaves.
  pub record Recorded (reply : RecoveryResponse C) (w u : World C) : Type 0 where
    pub status : u.replica.rstate.status ≡ w.replica.rstate.status
    pub responses : u.replica.rcvstate.recovery_responses ≤ count_normal (with_reply reply w)
    pub msgs : u.replica.rcvstate.recovery_response_msgs ≡ with_reply reply w
    pub replies :
        u.replica.rcvstate.recovery_response_replies
        ≡ set_bit w.replica.rcvstate.recovery_response_replies reply.replica_number

  abbrev pub SameStatus : World C → World C → Type 0
  SameStatus w u = u.replica.rstate.status ≡ w.replica.rstate.status

  pub record_response-Recorded :
      (reply : RecoveryResponse C) (w : World C)
      → IsCounted w
      → has_bit w.replica.rcvstate.recovery_response_replies reply.replica_number ≡ false
      → Yields (λ a u. Recorded reply w u) (SameStatus w) (record_response reply w)
  unfolding record_response
  record_response-Recorded reply w k new =
      let n = w.replica.rcvstate.recovery_responses in
      let msgs = w.replica.rcvstate.recovery_response_msgs in
      elim (Bool-cases (ltb reply.replica_number (length msgs))) [
        | inl inside ↦
            let (m, at) = get_elem?-some msgs reply.replica_number (ground arith) in
            let old : m.normal ≡ false = k.unseen reply.replica_number m new at in
            let grown = count_if-set (λ x. x.normal) msgs reply.replica_number m reply at in
            let counted : (if reply.normal then u64 (n + 1) else n)
                ≤ count_normal (with_reply reply w) =
              ground (arith, k.counted, grown, old) in
            rw (inside, record_response)
              (record { status = refl; responses = counted; msgs = refl; replies = refl })
        | inr outside ↦ rw (outside, record_response) refl
      ]

  normal_response-IsJustified :
      (g : Globals) (reply : RecoveryResponse C) (w u : World C)
      → g.f + 1 < u64_mod
      → NotNormal w
      → reply.normal ≡ true
      → Recorded reply w u
      → Always (IsJustified g reply w) (normal_response g reply u)
  unfolding normal_response
  normal_response-IsJustified g reply w u lt off on c =
      let r = newer_view reply.view u.replica in
      let status : r.rstate.status ≡ u.replica.rstate.status = ground arith in
      let responses : r.rcvstate.recovery_responses ≡ u.replica.rcvstate.recovery_responses =
        ground arith in
      elim (Bool-cases (
        leb (u64 (g.f + 1)) r.rcvstate.recovery_responses
        && has_bit r.rcvstate.recovery_response_replies (r.rstate.view % g.nreplicas))) [
          | inl enough ↦
              Always-all (IsJustified g reply w) (normal_response g reply u)
                (λ v. inr (ground (arith, c.responses), on))
          | inr waiting ↦ rw (waiting, normal_response) (inl (rw (status, c.status) off))
        ]

  prepare_view_change-NotNormal :
      (g : Globals) (w : World C) → Always NotNormal (prepare_view_change g w)
  unfolding prepare_view_change
  prepare_view_change-NotNormal g w = refl

  after_record-IsJustified :
      (g : Globals) (reply : RecoveryResponse C) (w u : World C)
      → g.f + 1 < u64_mod
      → NotNormal w
      → Recorded reply w u
      → Always (IsJustified g reply w) (
          (do
            r ← get
            if leb (u64 (g.f + 1)) r.rcvstate.empty_logs
                then prepare_view_change g >> pure true
                else if reply.normal
                then normal_response g reply
                else pure false)
            u)
  after_record-IsJustified g reply w u lt off c =
      elim (Bool-cases (leb (u64 (g.f + 1)) u.replica.rcvstate.empty_logs)) [
        | inl started ↦ simp started (
            Always-next NotNormal (IsJustified g reply w) (prepare_view_change g u) _
              (prepare_view_change-NotNormal g u) (λ a v p. inl p) (λ v p. inl p))
        | inr running ↦ elim (Bool-cases reply.normal) [
          | inl on ↦ simp (running, on) (normal_response-IsJustified g reply w u lt off on c)
          | inr down ↦ simp (running, down) (inl (rw c.status off))
        ]
      ]

  recovery_body-IsJustified :
      (g : Globals) (reply : RecoveryResponse C) (w : World C)
      → g.f + 1 < u64_mod
      → NotNormal w
      → IsCounted w
      → Always (IsJustified g reply w) (recovery_body g reply w)
  unfolding recovery_body
  recovery_body-IsJustified g reply w lt off k =
      elim (Bool-cases
        (has_bit w.replica.rcvstate.recovery_response_replies reply.replica_number)) [
          | inl seen ↦ simp (seen, recovery_body) (inl off)
          | inr new ↦ elim (Bool-cases (w.replica.rcvstate.nonce == reply.nonce)) [
            | inr other ↦ simp (new, other, recovery_body) (inl off)
            | inl same ↦
                simp (new, same, recovery_body)
                  (Always-of_Yields (λ a u. Recorded reply w u) (SameStatus w)
                    (IsJustified g reply w) (record_response reply w) _
                    (record_response-Recorded reply w k new)
                    (λ a u c. after_record-IsJustified g reply w u lt off c)
                    (λ u c. inl (rw c off)))
          ]
        ]

  deferred-IsJustified :
      (g : Globals) (reply : RecoveryResponse C) (w : World C) (finished : Bool) (v : World C)
      → IsJustified g reply w v
      → Always
          (IsJustified g reply w)
          ((do r ← get; if finished then put (reset_rcvstate g r) else pure tt; pure finished) v)
  unfolding reset_rcvstate
  deferred-IsJustified g reply w true v p = p
  deferred-IsJustified g reply w false v p = p

  -- A replica that is not in normal mode, and gets a recovery response, is afterwards in normal mode
  -- only if F + 1 replicas have answered its recovery in normal mode, the one at hand among them: so
  -- many of the messages, of which there is one for each replica, are normal. That holds on every
  -- branch and however the handler ends. The counter before was right, and F + 1 is a 64-bit number.
  pub handle_recovery_response-IsJustified :
      (g : Globals) (reply : RecoveryResponse C) (w : World C)
      → g.f + 1 < u64_mod
      → NotNormal w
      → IsCounted w
      → Always (IsJustified g reply w) (handle_recovery_response g reply w)
  unfolding handle_recovery_response
  handle_recovery_response-IsJustified g reply w lt off k =
      Always-and_then (IsJustified g reply w) (recovery_body g reply w) _
        (recovery_body-IsJustified g reply w lt off k)
        (λ finished v p. deferred-IsJustified g reply w finished v p)
