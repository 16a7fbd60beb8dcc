-- ===== src/Phatqueue/Numbers.antt =====
-- The ids of the messages in the queue (phatqueue/queue.go, phatqueue/queue_server.go).
use go_phat.Prelude.{
  ℕ, suc, ◌+◌, ◌≤◌, ◌<◌, ◌≡◌, refl, sym, some, List, [], ◌∷◌, ◌++◌, false, u64, u64_mod, str_eq,
  Option-cases, inl, inr, arith,
}
use go_phat.Phatqueue.{
  QMessage, MessageQueue, itoa, copy, copy_slice, push, pop, done, last_and_front, next_id,
}
use go_phat.Phatqueue.Server.{QCommand, ServerState, Codec, turn}
use go_phat.Phatqueue.Turns.{Leaves, Moves, turn-Leaves}

module _ {V : Type 0} where
  -- From the front, each id is the text of a number above the one before it, and none is above `hi`.
  abbrev pub IsRising : ℕ → List (QMessage V) → ℕ → Type 0
  IsRising lo [] hi = lo ≤ hi
  IsRising lo (m ∷ ms) hi = (n : ℕ) × (m.message_id ≡ itoa n) × (lo < n) × IsRising n ms hi

  -- The ids are numbers that rise along the queue up to the id that was given last.
  abbrev pub IsNumbered : MessageQueue V → Type 0
  IsNumbered mq = IsRising 0 mq.queue mq.id

  IsRising-append :
      (lo hi : ℕ) (ms : List (QMessage V)) (m : QMessage V)
      → m.message_id ≡ itoa (suc hi)
      → IsRising lo ms hi
      → IsRising lo (ms ++ m ∷ []) (suc hi)
  IsRising-append lo hi [] m e h = (suc hi, e, omega arith, omega arith)
  IsRising-append lo hi (k ∷ ms) m e (n, is, lt, h) = (n, is, lt, IsRising-append n hi ms m e h)

  IsRising-le : (lo hi : ℕ) (ms : List (QMessage V)) → IsRising lo ms hi → lo ≤ hi
  IsRising-le lo hi [] h = h
  IsRising-le lo hi (m ∷ ms) (n, is, lt, h) = omega (arith, IsRising-le n hi ms h)

  IsRising-front :
      (lo hi : ℕ) (ms front : List (QMessage V)) (last : QMessage V)
      → last_and_front ms ≡ some (last, front)
      → IsRising lo ms hi
      → IsRising lo front hi
  unfolding last_and_front
  IsRising-front lo hi [] front last e h = ground arith
  IsRising-front lo hi (m ∷ ms) front last e (n, is, lt, h) =
      elim (Option-cases (last_and_front ms)) [
        | inl none_behind ↦
            let split : last_and_front (m ∷ ms) ≡ some (m, []) =
              rw (none_behind, last_and_front) refl in
            let empty : [] ≡ front = ground arith in
            rw (sym empty) (omega (arith, IsRising-le n hi ms h))
        | inr ((l, f), more) ↦
            let split : last_and_front (m ∷ ms) ≡ some (l, m ∷ f) =
              rw (more, last_and_front) refl in
            let whole : m ∷ f ≡ front = ground arith in
            rw (sym whole) (n, is, lt, IsRising-front n hi ms f l more h)
      ]

  push-IsNumbered :
      (v : V) (mq : MessageQueue V) → mq.id + 1 < u64_mod → IsNumbered mq → IsNumbered (push v mq)
  unfolding push next_id
  push-IsNumbered v mq lt h =
      let next : u64 (mq.id + 1) ≡ suc mq.id = omega arith in
      rw next (
        IsRising-append 0 mq.id mq.queue (record { message_id = itoa (suc mq.id); value = v }) refl
          h)

  pop-IsNumbered : (mq : MessageQueue V) → IsNumbered mq → IsNumbered (pop mq).1
  unfolding pop
  pop-IsNumbered mq h = elim (Option-cases (last_and_front mq.queue)) [
    | inl e ↦ rw (e, pop) h
    | inr ((last, front), e) ↦ rw (e, pop) (IsRising-front 0 mq.id mq.queue front last e h)
  ]

  copy-IsNumbered : (mq : MessageQueue V) → IsNumbered (copy mq)
  unfolding copy copy_slice
  copy-IsNumbered mq = omega arith

-- A state whose queue is numbered.
abbrev pub NumberedState : ServerState → Type 0
NumberedState s = IsNumbered s.mq

abbrev HasRoom : ServerState → Type 0
HasRoom s = NumberedState s × (s.mq.id + 1 < u64_mod)

HasRoom-Moves : Moves HasRoom NumberedState
unfolding done copy copy_slice
HasRoom-Moves = record {
  copied = λ s p. (copy-IsNumbered s.mq, p.1);
  kept = λ s p. p.0;
  pushed = λ v s p. push-IsNumbered v s.mq p.1 p.0;
  popped = λ s p. pop-IsNumbered s.mq p.0;
  ended = λ m_id s p. p.0;
  snapped = λ i s p. p.0;
}

-- Every command but LOAD_SNAPSHOT keeps the queue numbered, snapshots and the copy included: from the
-- front, the message ids are numbers that rise up to the id given last. The next id must be a 64-bit
-- number.
pub turn-IsNumbered :
    (codec : Codec) (req : QCommand) (s : ServerState)
    → str_eq req.command "LOAD_SNAPSHOT" ≡ false
    → s.mq.id + 1 < u64_mod
    → NumberedState s
    → Leaves NumberedState (turn codec req s)
turn-IsNumbered codec req s no_load lt h =
    turn-Leaves HasRoom NumberedState HasRoom-Moves codec req s no_load (h, lt)
