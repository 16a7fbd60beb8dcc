-- ===== src/Queuerpc.antt =====
-- The RPC front end of the queue (queueRPC/queueRPC.go), on top of vr and phatqueue. The context of a
-- replica is the list of the commands it was given to run: the state of its queue server is the one
-- after them. The logger is left out, and so is the start of the listeners.
pub mod Agreement
pub mod Transfer
pub mod Sends
pub mod Tests
use go_phat.Prelude.{
  ℕ, String, Option, none, some, List, [], ◌∷◌, Bool, true, false, not, ◌||◌, ◌==◌, ltb, str_eq,
  if◌then◌else◌, map, string_eq,
}
use go_phat.Prelude.Assoc.{lookup}
use go_phat.Vr.State.{Globals, Replica}
use go_phat.Vr.Exec.{World, Exec, ◌>>=◌, pure, get}
use go_phat.Vr.Commit.{is_normal}
use go_phat.Vr.Lease.{get_master_id}
use go_phat.Vr.Normal.{run_vr, make_chan}
use go_phat.Phatqueue.Server.{
  QCommand, QValue, snapshot_handle, bytes, QSnapshot, QReply, snapshot, no_reply, message, number,
  QResponse, ServerState, Turn, responds, starts_encoding, panics, Codec, turn, start,
}

-- A command, and the channel for its response; the channel is nil (`none`) behind an RPC.
pub record QCommandWithChannel : Type 0 where
  pub cmd : QCommand
  pub done : Option ℕ

pub record ClientTableEntry : Type 0 where
  pub seq_number : ℕ
  pub response : Option QResponse

pub record ClientCommand : Type 0 where
  pub uid : String
  pub seq_number : ℕ
  pub command : QCommand

-- What `CommitFunc` ends with: the response was passed on to the channels in the list, or it waits
-- for the response of a snapshot, or the queue's goroutine panics, and the process with it.
pub data Committed : Type 0 where
  committed : ServerState → List (ℕ × QResponse) → Committed
  waits_for_encoding : ServerState → Committed
  crashes : Committed

pass_on : Option ℕ → QResponse → List (ℕ × QResponse)
pass_on none result = []
pass_on (some ch) result = (ch, result) ∷ []

answered : Option ℕ → Turn → Committed
unfolding pass_on
answered ch (responds result s) = committed s (pass_on ch result)
answered ch (starts_encoding s) = waits_for_encoding s
answered ch panics = crashes

-- `CommitFunc`: the queue's goroutine handles the command, and the result goes to the client's RPC.
unfoldable pub commit_func : Codec → QCommandWithChannel → ServerState → Committed
unfolding answered
commit_func codec c s = answered c.done (turn codec c.cmd s)

-- The queue's goroutine after a command, `none` once it has panicked.
unfoldable pub queue_after : Codec → QCommand → Option ServerState → Option ServerState
queue_after codec c none = none
queue_after codec c (some s) = elim (turn codec c s) [
  | responds result s' ↦ some s'
  | starts_encoding s' ↦ some s'
  | panics ↦ none
]

unfoldable pub queue_from : Codec → Option ServerState → List QCommand → Option ServerState
unfolding queue_after
queue_from codec s [] = s
queue_from codec s (c ∷ cs) = queue_from codec (queue_after codec c s) cs

abbrev pub cmd_of : QCommandWithChannel → QCommand
cmd_of c = c.cmd

abbrev pub queue_of : Codec → Replica QCommandWithChannel → Option ServerState
queue_of codec r = queue_from codec (some start) (map cmd_of r.context)

-- `SnapshotFunc` up to its wait: the queue's goroutine gets a SNAPSHOT.
unfoldable pub snapshot_request : Codec → ℕ → ServerState → Turn
snapshot_request codec index s =
    turn codec (record { command = "SNAPSHOT"; value = snapshot_handle index }) s

-- What a function returns: a result, an error, or a failed type assertion.
pub data Outcome (A : Type 0) : Type 0 where
  returns : A → Outcome A
  fails : String → Outcome A
  asserts : Outcome A

as_snapshot : QReply → Outcome QSnapshot
as_snapshot no_reply = asserts
as_snapshot (message m) = asserts
as_snapshot (number n) = asserts
as_snapshot (snapshot s) = returns s

-- `SnapshotFunc` behind its wait.
unfoldable pub snapshot_result : QResponse → Outcome QSnapshot
unfolding as_snapshot
snapshot_result result =
    if not (str_eq result.error "") then fails result.error else as_snapshot result.reply

load_result : Turn → Outcome ServerState
load_result (responds result s) =
    if not (str_eq result.error "") then fails result.error else returns s
load_result (starts_encoding s) = asserts
load_result panics = asserts

-- `LoadSnapshotFunc`, and the queue afterwards.
unfoldable pub load_snapshot_func : Codec → List ℕ → ServerState → Outcome ServerState
unfolding load_result
load_snapshot_func codec data_bytes s =
    load_result (turn codec (record { command = "LOAD_SNAPSHOT"; value = bytes data_bytes }) s)

-- May the replica answer a client? The error otherwise.
unfoldable pub check_state : Globals → Replica QCommandWithChannel → Option String
check_state g r =
    if not (is_normal r.rstate.status)
    then some "My state isn't normal"
    else if not (r.rstate.replica_number == get_master_id g r)
    then some "Not master node"
    else none

unfoldable pub get_master : Globals → Replica QCommandWithChannel → Outcome ℕ
get_master g r =
    if not (is_normal r.rstate.status) then fails "Master Failover" else returns (get_master_id g r)

check_entry : ClientCommand → Option ClientTableEntry → Outcome (Option QResponse)
check_entry args none = returns none
check_entry args (some res) =
    if ltb args.seq_number res.seq_number || nil_response res.response
    then fails "Old Request"
    else if args.seq_number == res.seq_number
    then returns res.response
    else returns none
  where
    nil_response : Option QResponse → Bool
    nil_response none = true
    nil_response (some r) = false

-- `checkClientTable`; `Send` does not call it, its call is commented out.
unfoldable pub check_client_table :
    List (String × ClientTableEntry) → ClientCommand → Outcome (Option QResponse)
unfolding check_entry
check_client_table table args = check_entry args (lookup args.uid table)

-- The reply of `Send` up to its wait for the response: an error; the channel of a command that went
-- through `RunVR`, and whether `RunVR` accepted it; or a command for the queue on disk.
pub data SendReply : Type 0 where
  refused : String → SendReply
  replicated : ℕ → Option ℕ → SendReply
  queued : QCommandWithChannel → SendReply

replicate_or_queue : Globals → Bool → QCommandWithChannel → ℕ → Exec QCommandWithChannel SendReply
replicate_or_queue g use_vr args ch =
    if use_vr then (run_vr g args >>= λ vr. pure (replicated ch vr)) else pure (queued args)

unfoldable pub send_checked :
    Globals → Bool → ClientCommand → Option String → Exec QCommandWithChannel SendReply
unfolding replicate_or_queue
send_checked g use_vr args (some e) = pure (refused e)
send_checked g use_vr args none = do
  ch ← make_chan
  replicate_or_queue g use_vr (record { cmd = args.command; done = some ch }) ch

unfoldable pub send : Globals → Bool → ClientCommand → Exec QCommandWithChannel SendReply
unfolding send_checked
send g use_vr args = do r ← get; send_checked g use_vr args (check_state g r)
