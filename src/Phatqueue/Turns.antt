-- ===== src/Phatqueue/Turns.antt =====
-- What a turn of the queue server keeps (phatqueue/queue_server.go), from what its parts keep.
use go_phat.Prelude.{ℕ, String, ◌≡◌, [], ◌∷◌, ◌++◌, true, false, str_eq, Bool-cases, inl, inr}
use go_phat.Phatqueue.{copy, push, pop, done}
use go_phat.Phatqueue.Server.{
  QValue, text, snapshot_handle, bytes, QCommand, ServerState, Turn, responds, starts_encoding,
  panics, Codec, turn, copy_if_needed, dispatch, handle_push, handle_pop, handle_done,
  handle_snapshot, writes,
}

-- What holds of the state after a turn, unless it panics.
abbrev pub Leaves : (ServerState → Type 0) → Turn → Type 0
Leaves P (responds resp s) = P s
Leaves P (starts_encoding s) = P s
Leaves P panics = Unit {0}

-- The parts of a turn lead from `P` to `Q`; the copy keeps `P`.
pub record Moves (P Q : ServerState → Type 0) : Type 0 where
  pub copied : (s : ServerState) → P s → P (record s { mq = copy s.mq; copy_on_write = false })
  pub kept : (s : ServerState) → P s → Q s
  pub pushed : (v : String) (s : ServerState) → P s → Q (record s { mq = push v s.mq })
  pub popped : (s : ServerState) → P s → Q (record s { mq = (pop s.mq).1 })
  pub ended : (m_id : String) (s : ServerState) → P s → Q (record s { mq = done m_id s.mq })
  pub snapped :
      (i : ℕ) (s : ServerState)
      → P s
      → Q (record s { copy_on_write = true; encoding = s.encoding ++ i ∷ [] })

module _ (P Q : ServerState → Type 0) (moves : Moves P Q) where
  copy_if_needed-keeps : (req : QCommand) (s : ServerState) → P s → P (copy_if_needed req s)
  unfolding copy_if_needed
  copy_if_needed-keeps req s h = elim (Bool-cases s.copy_on_write) [
    | inr keep ↦ simp (keep, copy_if_needed) h
    | inl cow ↦ elim (Bool-cases (writes req.command)) [
      | inr reads ↦ simp (cow, reads, copy_if_needed) h
      | inl write ↦ simp (cow, write, copy_if_needed) (moves.copied s h)
    ]
  ]

  dispatch-Leaves :
      (codec : Codec) (req : QCommand) (s : ServerState)
      → str_eq req.command "LOAD_SNAPSHOT" ≡ false
      → P s
      → Leaves Q (dispatch codec req s)
  unfolding dispatch handle_push handle_pop handle_done handle_snapshot
  dispatch-Leaves codec req s no_load h = elim (Bool-cases (str_eq req.command "PUSH")) [
    | inl e ↦ rw e (pushed req.value)
    | inr e ↦ rw e (elim (Bool-cases (str_eq req.command "POP")) [
      | inl e ↦ rw e (moves.popped s h)
      | inr e ↦ rw e (elim (Bool-cases (str_eq req.command "DONE")) [
        | inl e ↦ rw e (ended req.value)
        | inr e ↦ rw e (elim (Bool-cases (str_eq req.command "LEN")) [
          | inl e ↦ rw e (moves.kept s h)
          | inr e ↦ rw e (elim (Bool-cases (str_eq req.command "LEN_IN_PROGRESS")) [
            | inl e ↦ rw e (moves.kept s h)
            | inr e ↦ rw e (elim (Bool-cases (str_eq req.command "SNAPSHOT")) [
              | inl e ↦ rw e (snapped req.value)
              | inr e ↦ rw e (rw no_load (moves.kept s h))
            ])
          ])
        ])
      ])
    ])
  ]
    where
      pushed : (v : QValue) → Leaves Q (handle_push v s)
      pushed (text v) = moves.pushed v s h
      pushed (snapshot_handle i) = tt
      pushed (bytes bs) = tt

      ended : (v : QValue) → Leaves Q (handle_done v s)
      ended (text v) = moves.ended v s h
      ended (snapshot_handle i) = tt
      ended (bytes bs) = tt

      snapped : (v : QValue) → Leaves Q (handle_snapshot v s)
      snapped (text v) = tt
      snapped (snapshot_handle i) = moves.snapped i s h
      snapped (bytes bs) = tt

  -- A turn on any command but LOAD_SNAPSHOT leads from `P` to `Q`, unless it panics.
  pub turn-Leaves :
      (codec : Codec) (req : QCommand) (s : ServerState)
      → str_eq req.command "LOAD_SNAPSHOT" ≡ false
      → P s
      → Leaves Q (turn codec req s)
  unfolding turn
  turn-Leaves codec req s no_load h =
      dispatch-Leaves codec req (copy_if_needed req s) no_load (copy_if_needed-keeps req s h)
