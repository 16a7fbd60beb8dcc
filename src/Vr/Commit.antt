-- ===== src/Vr/Commit.antt =====
-- `doCommit`, `StartStateTransfer`, `GetState` and its reply (vr/vr.go, vr/vrstatetransfer.go), which
-- call one another. `StartStateTransfer` waits for the reply of the master: the next of the inbox.
pub mod CatchUp
pub mod Keeps
pub mod Fuel
pub mod Bound
use go_phat.Prelude.{
  ℕ, zero, suc, ◌+◌, ◌-◌, ◌%◌, Option, none, some, List, [], ◌∷◌, ◌++◌, Bool, true, false, u64, ltb,
  leb, ◌==◌, ◌||◌, not, if◌then◌else◌,
}
use go_phat.Phatlog.{Log, get_command}
use go_phat.Vr.State.{
  Globals, Status, normal, recovery, view_change, VrCommand, Replica, GetStateArgs,
  GetStateResponse, get_state, send, signal, take_snapshot,
}
use go_phat.Vr.Exec.{
  World, blocked, panicked, out_of_fuel, Run, ok, stop, Exec, ◌>>=◌, ◌>>◌, pure, get, put, emit,
  assert,
}

abbrev pub snap_freq : ℕ
snap_freq = 100

abbrev pub is_normal : Status → Bool
is_normal normal = true
is_normal recovery = false
is_normal view_change = false

-- `for i := r.Rstate.CommitNumber + 1; i <= cn; i++`, where `i` wraps around. One round for each number
-- up to `cn` is enough, but at the last 64-bit number, where the loop does not end.
unfoldable pub commit_loop :
    {C : Type 0} → (ℕ → Exec C (Unit {0})) → (cn rounds i : ℕ) → Exec C (Unit {0})
commit_loop do_commit cn zero i = if leb i cn then (λ w. stop out_of_fuel w) else pure tt
commit_loop do_commit cn (suc rounds) i =
    if leb i cn then (do do_commit i; commit_loop do_commit cn rounds (u64 (i + 1))) else pure tt

module _ {C : Type 0} where
  pub signal_done : Option ℕ → Exec C (Unit {0})
  signal_done none = pure tt
  signal_done (some ch) = emit (signal ch)

  -- The command at the next index: a nil log and a nil entry panic.
  unfoldable pub commit_entry : Option (Log (VrCommand C)) → ℕ → Option (VrCommand C)
  commit_entry none i = none
  commit_entry (some l) i = get_command l i

  pub run_command : Option (VrCommand C) → Exec C (Unit {0})
  unfolding signal_done
  run_command none = λ w. stop panicked w
  run_command (some command) = do
    r ← get
    let n = u64 (r.rstate.commit_number + 1)
    put (record r {
      context = r.context ++ command.c ∷ [];
      rstate = record (r.rstate) { commit_number = n };
    })
    if n % snap_freq == snap_freq - 1 then emit take_snapshot else pure tt
    signal_done command.done

  -- The end of `doCommit`: one more command.
  pub commit_one : ℕ → Exec C (Unit {0})
  unfolding run_command commit_entry
  commit_one cn = do
    r ← get
    assert (cn == u64 (r.rstate.commit_number + 1))
    run_command (commit_entry r.phatlog (u64 (r.rstate.commit_number + 1)))

  -- `handleGetStateResponse`, given `doCommit`
  pub handle_get_state_response : (ℕ → Exec C (Unit {0})) → GetStateResponse C → Exec C Bool
  handle_get_state_response do_commit reply = do
    r ← get
    if not (reply.view == r.rstate.view) then pure true else do
      put (record r {
        phatlog = reply.log;
        rstate = record (r.rstate) { op_number = reply.op_number };
      })
      do_commit reply.commit_number
      pure true

  pub next_reply : (ℕ → Exec C (Unit {0})) → List (GetStateResponse C) → Exec C (Unit {0})
  unfolding handle_get_state_response
  next_reply do_commit [] = λ w. stop blocked w
  next_reply do_commit (reply ∷ rest) =
      λ w. (handle_get_state_response do_commit reply >>= λ _. pure tt) (record w { inbox = rest })

  -- `sendAndRecvTo` skips the replica itself and still waits for one reply, forever.
  pub start_state_transfer_with : (ℕ → Exec C (Unit {0})) → Globals → Exec C (Unit {0})
  unfolding next_reply
  start_state_transfer_with do_commit g = do
    r ← get
    if not (is_normal r.rstate.status) then pure tt else do
      let master = r.rstate.view % g.nreplicas
      if master == r.rstate.replica_number then (λ w. stop blocked w) else do
        emit (
            send (master ∷ [])
              (get_state (record { view = r.rstate.view; op_number = r.rstate.op_number })))
        λ w. next_reply do_commit w.inbox w

  -- On fuel, for the calls of `doCommit` inside `doCommit`.
  unfoldable pub do_commit_fuel : Globals → ℕ → ℕ → Exec C (Unit {0})
  unfolding commit_one start_state_transfer_with commit_loop
  do_commit_fuel g zero cn = λ w. stop out_of_fuel w
  do_commit_fuel g (suc fuel) cn = do
    r ← get
    let recur = do_commit_fuel g fuel
    if leb cn r.rstate.commit_number
        then pure tt
        else if ltb r.rstate.op_number cn
        then start_state_transfer_with recur g
        else if ltb (u64 (r.rstate.commit_number + 1)) cn
        then commit_loop recur cn (cn - r.rstate.commit_number) (u64 (r.rstate.commit_number + 1))
        else commit_one cn

  abbrev pub inbox_length : List (GetStateResponse C) → ℕ
  inbox_length [] = 0
  inbox_length (reply ∷ rest) = suc (inbox_length rest)

  -- Each state transfer uses up one reply of the inbox, and a loop nests one deeper.
  unfoldable pub do_commit : Globals → ℕ → Exec C (Unit {0})
  unfolding do_commit_fuel
  do_commit g cn w = do_commit_fuel g (inbox_length w.inbox + 2) cn w

  unfoldable pub start_state_transfer : Globals → Exec C (Unit {0})
  unfolding start_state_transfer_with do_commit_fuel
  start_state_transfer g w =
      start_state_transfer_with (do_commit_fuel g (inbox_length w.inbox + 2)) g w

  -- The RPC `GetState`: with nothing written, the reply is the zero value.
  unfoldable pub get_state_rpc : GetStateArgs → Exec C (GetStateResponse C)
  get_state_rpc args = do
    r ← get
    if not (is_normal r.rstate.status) || not (r.rstate.view == args.view)
        then pure (record { view = 0; log = none; op_number = 0; commit_number = 0 })
        else pure (record {
          view = r.rstate.view;
          log = r.phatlog;
          op_number = r.rstate.op_number;
          commit_number = r.rstate.commit_number;
        })
