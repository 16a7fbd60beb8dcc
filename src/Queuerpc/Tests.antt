-- ===== src/Queuerpc/Tests.antt =====
-- The front end of the queue (queueRPC) on two replicas with a log of two commands.
use go_phat.Prelude.{
  ℕ, ◌≤◌, ◌≡◌, refl, String, Option, none, some, [], ◌∷◌, true, false, take, arith,
}
use go_phat.Prelude.Assoc.{lookup, insert}
use go_phat.Phatlog.{Log, add, get_command, empty_log}
use go_phat.Phatqueue.{push, new_queue}
use go_phat.Phatqueue.Server.{
  QCommand, text, bytes, QResponse, ServerState, starts_encoding, Codec, encode_func, start, turn,
}
use go_phat.Vr.State.{Globals, normal, VrCommand}
use go_phat.Vr.Exec.{World, ok}
use go_phat.Vr.Commit.CatchUp.{Holds}
use go_phat.Vr.Coherence.{IsCoherent}
use go_phat.Vr.ViewChange.{fresh_vcstate}
use go_phat.Vr.Recovery.{fresh_rcvstate}
use go_phat.Vr.Lease.{get_master_id}
use go_phat.Queuerpc.{
  QCommandWithChannel, ClientCommand, send, replicated, queued, check_state, refused, returns,
  fails, check_client_table, snapshot_request, snapshot_result, load_snapshot_func, commit_func,
  crashes,
}
use go_phat.Queuerpc.Sends.{sent_command, IsSent, send-IsSent}
use go_phat.Queuerpc.Transfer.{load_snapshot_func-snapshot}

abbrev three : Globals
three = record { nreplicas = 3; f = 1 }

abbrev push_of : String → Option ℕ → QCommandWithChannel
push_of v ch = record { cmd = record { command = "PUSH"; value = text v }; done = ch }

abbrev entry : QCommandWithChannel → VrCommand QCommandWithChannel
entry c = record { c = c; done = none }

-- On the master the commands have the channels of the clients' calls, elsewhere they have none.
abbrev first_of : Option ℕ → VrCommand QCommandWithChannel
first_of ch = entry (push_of "a" ch)

abbrev second_of : Option ℕ → VrCommand QCommandWithChannel
second_of ch = entry (push_of "b" ch)

abbrev two_entries : Option ℕ → Log (VrCommand QCommandWithChannel)
two_entries ch = add 2 (some (second_of ch)) (add 1 (some (first_of ch)) empty_log)

abbrev queue_world : (me commit_number : ℕ) → Option ℕ → World QCommandWithChannel
queue_world me commit_number ch = record {
  replica = record {
    rstate = record {
      view = 0;
      op_number = 2;
      commit_number = commit_number;
      replica_number = me;
      status = normal;
      normal_view = 0;
      view_change_msgs = 0;
      timer = 0;
    };
    mstate = record { made = true; highest_op = []; timer = none; heartbeats = [] };
    vcstate = fresh_vcstate three;
    rcvstate = fresh_rcvstate three;
    phatlog = some (two_entries ch);
    context = take commit_number (push_of "a" ch ∷ push_of "b" ch ∷ []);
    snapshot_index = 0;
    is_shutdown = false;
  };
  inbox = [];
  outbox = [];
  next_chan = 8;
}

two_entries-Holds : (ch : Option ℕ) → Holds (two_entries ch) 1 (first_of ch ∷ second_of ch ∷ [])
unfolding get_command add lookup insert
two_entries-Holds ch = (refl, (refl, tt))

abbrev queue_world-IsCoherent :
    (me n : ℕ) (ch : Option ℕ) → n ≤ 2 → IsCoherent (queue_world me n ch)
queue_world-IsCoherent me n ch le = record {
  log = two_entries ch;
  entries = first_of ch ∷ second_of ch ∷ [];
  has_log = refl;
  holds = two_entries-Holds ch;
  full = refl;
  behind = le;
  executed = refl;
}

-- A codec that keeps the id only.
abbrev codec : Codec
codec = record { encode = λ mq. some (mq.id ∷ []); decode = λ bs mq. (mq, "") }

abbrev backup : World QCommandWithChannel
backup = queue_world 1 1 none

abbrev master : World QCommandWithChannel
master = queue_world 0 2 (some 7)

abbrev pop_command : QCommand
pop_command = record { command = "POP"; value = text "" }

abbrev request : ClientCommand
request = record {
  uid = "c";
  seq_number = 3;
  command = record { command = "PUSH"; value = text "x" };
}

send-IsSent_example :
    ((v : World QCommandWithChannel) × (send three true request master
        ≡ ok (replicated 8 (some 9)) v)
      × IsSent three request master v)
    × (send three false request master
        ≡ ok (queued (sent_command request 8)) (record master { next_chan = 9 }))
send-IsSent_example =
    send-IsSent three request master (two_entries (some 7)) refl refl refl refl (omega arith)

abbrev one_message : ServerState
one_message = record start { mq = push "a" new_queue }

-- Decodes to a queue with one message.
abbrev restoring : Codec
restoring = record { encode = λ mq. some (1 ∷ []); decode = λ bs mq. (push "a" new_queue, "") }

load_snapshot_func-snapshot_example :
    (s' : ServerState) × (after : ServerState) × (result : QResponse) × (snapshot_request restoring
        7 one_message
      ≡ starts_encoding s')
    × (encode_func restoring "" s' ≡ some (result, after))
    × (after.mq ≡ one_message.mq)
    × (snapshot_result result ≡ returns (record { data_bytes = 1 ∷ []; snapshot_index = 7 }))
    × (load_snapshot_func restoring (1 ∷ []) start ≡ returns one_message)
load_snapshot_func-snapshot_example =
    load_snapshot_func-snapshot restoring "" 7 (1 ∷ []) one_message start refl refl refl

-- A replica that is not the master changes nothing.
turned_away : send three true request backup ≡ ok (refused "Not master node") backup
unfolding send check_state get_master_id
turned_away = refl

unanswered :
    check_client_table (("c", record { seq_number = 2; response = none }) ∷ []) request
    ≡ fails "Old Request"
unfolding check_client_table lookup
unanswered = refl

-- A DONE whose value is not a string is a panic on each replica that commits it.
poisoned :
    commit_func codec
      (record { cmd = record { command = "DONE"; value = bytes [] }; done = none })
      start
    ≡ crashes
unfolding commit_func turn
poisoned = refl
