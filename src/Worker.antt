-- ===== src/Worker.antt =====
-- The client of the queue (worker/worker.go): it counts its calls, sends each once, and reads the
-- response. The log lines are left out.
pub mod Acknowledge
pub mod Tests
use go_phat.Prelude.{
  ℕ, ◌+◌, String, Option, none, some, List, [], Bool, not, str_eq, if◌then◌else◌, u64,
}
use go_phat.Phatqueue.Server.{QCommand, text, QResponse}
use go_phat.Queuerpc.{ClientCommand}

-- The client's `Uid`, and the number of the next call.
pub record Worker : Type 0 where
  pub uid : String
  pub seq_number : ℕ

-- What `RpcClient.Call` gives: the call's error, or the response.
pub data Called : Type 0 where
  failed : String → Called
  answered : QResponse → Called

-- What an operation returns: an error, or the response.
pub data Result : Type 0 where
  error : String → Result
  response : QResponse → Result

unfoldable pub result_of : Called → Result
result_of (failed e) = error e
result_of (answered r) = if not (str_eq r.error "") then error r.error else response r

abbrev pub args_of : QCommand → Worker → ClientCommand
args_of cmd w = record { uid = w.uid; seq_number = w.seq_number; command = cmd }

-- `processCall`: `call` stands for the server.
unfoldable pub process_call : (ClientCommand → Called) → QCommand → Worker → Result × Worker
unfolding result_of
process_call call cmd w =
    (result_of (call (args_of cmd w)), record w { seq_number = u64 (w.seq_number + 1) })

-- The commands of `Push`, `Pop` and `Done`.
abbrev pub push_command : String → QCommand
push_command work = record { command = "PUSH"; value = text work }

abbrev pub pop_command : QCommand
pop_command = record { command = "POP"; value = text "" }

abbrev pub done_command : QCommand
done_command = record { command = "DONE"; value = text "" }

unfoldable pub push : (ClientCommand → Called) → String → Worker → Result × Worker
unfolding process_call
push call work w = process_call call (push_command work) w

unfoldable pub pop : (ClientCommand → Called) → Worker → Result × Worker
unfolding process_call
pop call w = process_call call pop_command w

unfoldable pub done : (ClientCommand → Called) → Worker → Result × Worker
unfolding process_call
done call w = process_call call done_command w
