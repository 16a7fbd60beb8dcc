-- ===== src/Queuedisk/Tests.antt =====
-- The queue on disk (queuedisk) with a small codec, and the theorems about it applied to it.
use go_phat.Prelude.{ℕ, ◌≡◌, refl, none, some, List, [], ◌∷◌, ◌==◌, if◌then◌else◌, str_eq, arith}
use go_phat.Phatqueue.{MessageQueue, new_queue, push, pop, itoa, last_and_front, next_id}
use go_phat.Vr.Snapshot.{put_uint, get_uint}
use go_phat.Queuedisk.{
  Value, client_value, of_message, LogEntry, Codec, DiskQueue, disk_push, pop_entry, init_queue,
  replay, recover_snapshot,
}
use go_phat.Queuedisk.Frames.{IsWritten, IsLog}
use go_phat.Queuedisk.Durable.{IsDurable}
use go_phat.Queuedisk.Server.{DiskCommand, disk_turn, IsFaithful, disk_turn-IsDurable}

-- The entry of a POP, or of the first PUSH, of "a".
abbrev first_push : LogEntry
first_push = record {
  message = record { message_id = "1"; value = client_value "a" };
  command = "PUSH";
}

abbrev decoded : List ℕ → LogEntry
decoded [] = pop_entry
decoded (b ∷ bs) = first_push

abbrev pushed : MessageQueue Value
pushed = record { queue = first_push.message ∷ []; in_progress = []; id = 1 }

abbrev queue_of : List ℕ → MessageQueue Value
queue_of [] = new_queue
queue_of (n ∷ ns) = pushed

abbrev small : Codec
small = record {
  encode_entry = λ e. some (if str_eq e.command "PUSH" then 80 ∷ [] else []);
  decode_entry = decoded;
  encode_queue = λ mq. if mq.id == 0 then [] else 80 ∷ [];
  decode_queue = λ bs mq. queue_of bs;
}

abbrev fresh : DiskQueue
fresh = record {
  mq = new_queue;
  ops_per_snapshot = 100;
  op_counter = 0;
  snapshot_file = none;
  log_file = [];
}

-- After a restart, the value of a message that was pushed is the whole message.
values_are_wrapped :
    init_queue small none (disk_push small (client_value "a") fresh).log_file
    ≡ some (record {
      queue = record { message_id = "1"; value = of_message "1" (client_value "a") } ∷ [];
      in_progress = [];
      id = 1;
    })
unfolding init_queue disk_push itoa next_id put_uint get_uint push
values_are_wrapped = refl

pop-IsWritten : IsWritten small pop_entry
pop-IsWritten = record { written = []; encoded = refl; short = omega arith; decoded = refl }

push-IsWritten : IsWritten small first_push
push-IsWritten = record { written = 80 ∷ []; encoded = refl; short = omega arith; decoded = refl }

fresh-IsDurable : IsDurable small fresh
unfolding replay recover_snapshot
fresh-IsDurable = record { entries = []; logged = IsLog.empty; replayed = (refl, refl) }

push-IsFaithful : IsFaithful small (client_value "a") fresh
unfolding itoa push pop next_id last_and_front
push-IsFaithful = record {
  push_is_written = push-IsWritten;
  pop_is_written = pop-IsWritten;
  kept = refl;
  push_is_kept = refl;
  pop_is_kept = refl;
}

abbrev push_a : DiskCommand
push_a = record { command = "PUSH"; value = client_value "a" }

disk_turn-IsDurable_example : IsDurable small (disk_turn small push_a fresh).1
disk_turn-IsDurable_example = disk_turn-IsDurable small push_a fresh fresh-IsDurable push-IsFaithful
