-- ===== src/Phatqueue/Reachable.antt =====
-- The states that the queue server can reach without LOAD_SNAPSHOT (phatqueue/queue_server.go), in
-- every order of the other commands and of the ends of encodings.
use go_phat.Prelude.{
  ℕ, ◌+◌, ◌<◌, String, ◌≡◌, refl, sym, ap, ◌∙◌, Option, none, some, List, [], ◌∷◌, false, str_eq,
  Option-cases, inl, inr, u64_mod, arith,
}
use go_phat.Prelude.Assoc.{erase}
use go_phat.Phatqueue.{MessageQueue, new_queue, copy, push, next_id, pop, last_and_front, done}
use go_phat.Phatqueue.Server.{
  QCommand, QResponse, ServerState, responds, starts_encoding, Codec, turn, encode_func, start,
}
use go_phat.Phatqueue.Numbers.{IsNumbered, NumberedState, turn-IsNumbered}
use go_phat.Phatqueue.Turns.{Leaves, Moves, turn-Leaves}

abbrev queue_after : Option (QResponse × ServerState) → MessageQueue String → MessageQueue String
queue_after none mq = mq
queue_after (some (resp, s)) mq = s.mq

module _ (codec : Codec) (encode_error : String) where
  -- A step is a turn of the loop or the end of an encoding. LOAD_SNAPSHOT is left out, and the next
  -- message id is a 64-bit number.
  pub data Step : ServerState → ServerState → Type 0 where
    answered :
        {s s' : ServerState} (req : QCommand) (resp : QResponse)
        → str_eq req.command "LOAD_SNAPSHOT" ≡ false
        → s.mq.id + 1 < u64_mod
        → turn codec req s ≡ responds resp s'
        → Step s s'
    encoding_started :
        {s s' : ServerState} (req : QCommand)
        → str_eq req.command "LOAD_SNAPSHOT" ≡ false
        → s.mq.id + 1 < u64_mod
        → turn codec req s ≡ starts_encoding s'
        → Step s s'
    encoded :
        {s s' : ServerState} (resp : QResponse)
        → encode_func codec encode_error s ≡ some (resp, s')
        → Step s s'

  pub data Reachable : ServerState → Type 0 where
    at_start : Reachable start
    next : {s s' : ServerState} → Reachable s → Step s s' → Reachable s'

  encode_func-same :
      (s : ServerState) (indices : List ℕ)
      → s.encoding ≡ indices
      → queue_after (encode_func codec encode_error s) s.mq ≡ s.mq
  unfolding encode_func
  encode_func-same s [] e = rw (e, encode_func) refl
  encode_func-same s (i ∷ indices) e = rw (e, encode_func) refl

  module _ (P : MessageQueue String → Type 0)
      (turns : (req : QCommand) (s : ServerState)
        → str_eq req.command "LOAD_SNAPSHOT" ≡ false
        → s.mq.id + 1 < u64_mod
        → P s.mq
        → Leaves (λ t. P t.mq) (turn codec req s)) where
    encode_func-mq :
        (s s' : ServerState) (resp : QResponse)
        → encode_func codec encode_error s ≡ some (resp, s')
        → P s.mq
        → P s'.mq
    encode_func-mq s s' resp e h =
        let same : s.mq ≡ s'.mq =
          sym (encode_func-same s s.encoding refl) ∙ ap (λ r. queue_after r s.mq) e in
        rw same at h

    Step-keeps : (s s' : ServerState) → Step s s' → P s.mq → P s'.mq
    Step-keeps s s' (Step.answered req resp no_load lt e) h =
        let kept = turns req s no_load lt h in rw e at kept
    Step-keeps s s' (Step.encoding_started req no_load lt e) h =
        let kept = turns req s no_load lt h in rw e at kept
    Step-keeps s s' (Step.encoded resp e) h = encode_func-mq s s' resp e h

    -- What holds of an empty queue and is kept by each turn holds of each queue that is reached.
    Reachable-keeps : P new_queue → (s : ServerState) → Reachable s → P s.mq
    Reachable-keeps empty _ Reachable.at_start = empty
    Reachable-keeps empty _ (Reachable.next {s} {s'} before step) =
        Step-keeps s s' step (Reachable-keeps empty s before)

  -- Whatever the order of commands and encodings, without LOAD_SNAPSHOT: the message ids are, from the
  -- front of the queue, numbers that rise up to the id given last.
  pub Reachable-IsNumbered : (s : ServerState) → Reachable s → NumberedState s
  Reachable-IsNumbered s reached =
      Reachable-keeps IsNumbered (λ req s no_load lt h. turn-IsNumbered codec req s no_load lt h)
        (omega arith) s reached

  pop-idle : (mq : MessageQueue String) → mq.in_progress ≡ [] → (pop mq).1.in_progress ≡ []
  unfolding pop
  pop-idle mq h = elim (Option-cases (last_and_front mq.queue)) [
    | inl e ↦ rw (e, pop) h
    | inr ((last, front), e) ↦ rw (e, pop) h
  ]

  abbrev IsIdle : ServerState → Type 0
  IsIdle s = s.mq.in_progress ≡ []

  IsIdle-Moves : Moves IsIdle IsIdle
  unfolding copy push pop done next_id erase
  IsIdle-Moves = record {
    copied = λ s h. h;
    kept = λ s h. h;
    pushed = λ v s h. h;
    popped = λ s h. pop-idle s.mq h;
    ended = λ m_id s h. rw (h, erase) refl;
    snapped = λ i s h. h;
  }

  -- In every state that is reached without LOAD_SNAPSHOT no message is in progress: a POP forgets the message that it answers.
  pub Reachable-IsIdle : (s : ServerState) → Reachable s → s.mq.in_progress ≡ []
  Reachable-IsIdle s reached =
      Reachable-keeps (λ mq. mq.in_progress ≡ [])
        (λ req s no_load lt h. turn-Leaves IsIdle IsIdle IsIdle-Moves codec req s no_load h) refl s
        reached
