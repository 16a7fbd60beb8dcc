-- ===== src/Vr/Connections.antt =====
-- Listeners, connections and timers of a replica (vr/helpers.go, vr/vr.go): shutting down, reviving,
-- and the connection that `sendAndRecvTo` sends on. Connections and listeners are numbered; what the
-- network answers is an argument, and closing succeeds.
pub mod Cut
pub mod Tests
use go_phat.Prelude.{
  ℕ, ◌+◌, String, Option, none, some, List, [], ◌∷◌, ◌++◌, Bool, true, false, ◌==◌, if◌then◌else◌,
  get_elem?, set,
}
use go_phat.Vr.State.{Replica}

-- `closed` has the connections and listeners on which `Close` was called, `listening` says whether a
-- `ReplicaRun` was started.
pub record Node (C : Type 0) : Type 0 where
  pub replica : Replica C
  pub is_disconnected : Bool
  pub listener : Option ℕ
  pub codecs : List ℕ
  pub conns : List (Option ℕ)
  pub timer_runs : Bool
  pub master_timer_runs : Bool
  pub listening : Bool
  pub closed : List ℕ

-- What `Dial` or `Accept` or `Listen` gives.
pub data Dialled : Type 0 where
  dial_error : String → Dialled
  dialled : ℕ → Dialled

abbrev pub of_option : Option ℕ → List ℕ
of_option none = []
of_option (some c) = c ∷ []

abbrev pub of_options : List (Option ℕ) → List ℕ
of_options [] = []
of_options (c ∷ cs) = of_option c ++ of_options cs

-- A connection to a replica, or none.
pub data Connect (C : Type 0) : Type 0 where
  refused : String → Node C → Connect C
  connected : ℕ → Node C → Connect C
  exits : Connect C
  panics : Connect C

module _ {C : Type 0} where
  abbrev pub close_all : List ℕ → Node C → Node C
  close_all cs n = record n { closed = n.closed ++ cs }

  -- A listener that is closed is not nil.
  unfoldable pub shutdown_incoming : Node C → Node C
  shutdown_incoming n = record (close_all (of_option n.listener ++ n.codecs) n) { codecs = [] }

  -- The closed connections stay where they are.
  unfoldable pub shutdown_outgoing : Node C → Node C
  shutdown_outgoing n = close_all (of_options n.conns) n

  unfoldable pub disconnect : Node C → Node C
  unfolding shutdown_incoming shutdown_outgoing
  disconnect n = shutdown_outgoing (shutdown_incoming (record n { is_disconnected = true }))

  -- `none` is a failed assertion.
  unfoldable pub reconnect : Dialled → Node C → Option (Node C)
  reconnect (dial_error e) n = if n.is_disconnected then some n else none
  reconnect (dialled ln) n =
      if n.is_disconnected
      then some (record n { listener = some ln; is_disconnected = false; listening = true })
      else none

  unfoldable pub reset_mstate : Node C → Node C
  reset_mstate n = record n {
    replica = record n.replica {
      mstate = record n.replica.mstate { made = true; highest_op = []; heartbeats = [] };
    };
  }

  unfoldable pub shutdown : Node C → Node C
  unfolding disconnect reset_mstate
  shutdown n =
      let n₁ = disconnect (record n { timer_runs = false; master_timer_runs = false }) in
      let n₂ = reset_mstate n₁ in record n₂ { replica = record n₂.replica { is_shutdown = true } }

  -- The error of `ListenerInit`, if any, and the replica.
  unfoldable pub listener_init : Dialled → Node C → Option String × Node C
  listener_init (dial_error e) n = (some e, n)
  listener_init (dialled ln) n = (none, record n { listener = some ln })

  unfoldable pub revive : Dialled → Node C → Node C
  revive (dial_error e) n = n
  revive (dialled ln) n = record n {
    listener = some ln;
    timer_runs = true;
    master_timer_runs = true;
    replica = record n.replica { is_shutdown = false };
  }

  unfoldable pub destroy_conns : ℕ → Node C → Option (Node C)
  destroy_conns rep_num n = elim (get_elem? n.conns rep_num) [
    | none ↦ none
    | some c ↦ some (close_all (of_option c) n)
  ]

  keep_connection : ℕ → ℕ → Node C → Option (Option ℕ) → Connect C
  keep_connection rep_num c n none = panics
  keep_connection rep_num c n (some old) =
      connected c (record (close_all (of_option old) n) { conns = set n.conns rep_num (some c) })

  dial_to : Dialled → ℕ → Node C → Connect C
  unfolding keep_connection
  dial_to (dial_error e) rep_num n = refused e n
  dial_to (dialled c) rep_num n = keep_connection rep_num c n (get_elem? n.conns rep_num)

  unfoldable pub client_connect : Dialled → ℕ → Node C → Connect C
  unfolding dial_to
  client_connect d rep_num n =
      if n.is_disconnected
      then refused "Disconnected" n
      else if rep_num == n.replica.rstate.replica_number
      then exits
      else dial_to d rep_num n

  connection_or : Dialled → ℕ → Node C → Option (Option ℕ) → Connect C
  unfolding client_connect
  connection_or d rep_num n none = panics
  connection_or d rep_num n (some none) = client_connect d rep_num n
  connection_or d rep_num n (some (some c)) = connected c n

  -- The connection that `sendOne` of `sendAndRecvTo` calls on.
  unfoldable pub send_connection : Dialled → ℕ → Node C → Connect C
  unfolding connection_or
  send_connection d rep_num n = connection_or d rep_num n (get_elem? n.conns rep_num)

  dropped : ℕ → Node C → Option (Option ℕ) → Option (Node C)
  dropped rep_num n none = none
  dropped rep_num n (some none) = some n
  dropped rep_num n (some (some c)) =
      some (record (close_all (c ∷ []) n) { conns = set n.conns rep_num none })

  -- What `sendAndRecvTo` does with a connection on which a call failed with `ErrShutdown`.
  unfoldable pub drop_connection : ℕ → Node C → Option (Node C)
  unfolding dropped
  drop_connection rep_num n = dropped rep_num n (get_elem? n.conns rep_num)

  accepted : Dialled → Node C → Node C
  accepted (dialled conn) n = record n { codecs = n.codecs ++ conn ∷ [] }
  accepted (dial_error e) n = record (close_all (of_option n.listener) n) { listener = none }

  accept_or_wait : Dialled → Option String × Node C → Node C
  unfolding accepted
  accept_or_wait a (some e, n) = n
  accept_or_wait a (none, n) = accepted a n

  listener_or_init : Dialled → Option ℕ → Node C → Option String × Node C
  unfolding listener_init
  listener_or_init l none n = listener_init l n
  listener_or_init l (some ln) n = (none, n)

  -- One round of the loop of `ReplicaRun`, with what `Listen` and `Accept` give; `none` where it ends.
  unfoldable pub accept_round : Dialled → Dialled → Node C → Option (Node C)
  unfolding accept_or_wait listener_or_init
  accept_round l a n =
      if n.is_disconnected then none else some (accept_or_wait a (listener_or_init l n.listener n))
