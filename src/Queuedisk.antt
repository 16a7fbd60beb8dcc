-- ===== src/Queuedisk.antt =====
-- The message queue on disk (queuedisk/queue_disk.go): the queue, the snapshot file and the log file.
-- File operations succeed. The gob codec is a parameter. The field `Log` is never used.
pub mod Frames
pub mod Durable
pub mod Server
pub mod Tests
use go_phat.Prelude.{
  ℕ, zero, suc, ◌+◌, ◌%◌, ◌^◌, String, Option, none, some, List, [], ◌∷◌, ◌++◌, Bool, true, false,
  leb, str_eq, if◌then◌else◌, u64, length, take,
}
use go_phat.Phatqueue.{QMessage, MessageQueue, itoa, new_queue, next_id, push, pop, last_and_front}
use go_phat.Vr.Snapshot.{put_uint, get_uint}

-- An `interface{}` in the queue: a client's value, or a whole message, which `RecoverLog` puts there.
pub data Value : Type 0 where
  nil_value : Value
  client_value : String → Value
  of_message : String → Value → Value

pub record LogEntry : Type 0 where
  pub message : QMessage Value
  pub command : String

-- What gob does: an entry's bytes (`none` where it fails) and back, a queue's bytes and back.
pub record Codec : Type 0 where
  pub encode_entry : LogEntry → Option (List ℕ)
  pub decode_entry : List ℕ → LogEntry
  pub encode_queue : MessageQueue Value → List ℕ
  pub decode_queue : List ℕ → MessageQueue Value → MessageQueue Value

-- The queue is the one of phatqueue, with the same `Push` and `Pop`. The two files: the snapshot, if
-- there is one, and the log.
pub record DiskQueue : Type 0 where
  pub mq : MessageQueue Value
  pub ops_per_snapshot : ℕ
  pub op_counter : ℕ
  pub snapshot_file : Option (List ℕ)
  pub log_file : List ℕ

abbrev pub drop {ℓ} : {A : Type ℓ} → ℕ → List A → List A
drop zero xs = xs
drop (suc n) [] = []
drop (suc n) (x ∷ xs) = drop n xs

-- buffer[:n] and buffer[n:]; `none` where the slice is out of range. Its capacity is taken to
-- be its length: a slice of Go may go up to the capacity, which matters in a log file that ends short.
unfoldable pub split_at : ℕ → List ℕ → Option (List ℕ × List ℕ)
split_at n buffer = if leb n (length buffer) then some (take n buffer, drop n buffer) else none

sized : Option (ℕ × List ℕ) → Option (List ℕ × List ℕ)
unfolding split_at
sized none = none
sized (some (n, rest)) = split_at n rest

-- One entry's bytes behind `beg_idx`, and the bytes behind the entry.
unfoldable pub next_entry : List ℕ → Option (List ℕ × List ℕ)
unfolding sized
next_entry buffer = sized (get_uint 4 buffer)

-- The loop of `ParseLogFile` on the bytes behind `beg_idx`; `none` is a panic. Each round takes at
-- least the four bytes of a length, so that the number of bytes is enough fuel.
unfoldable pub parse_log : Codec → (fuel : ℕ) → List ℕ → Option (List LogEntry)
unfolding next_entry
parse_log codec fuel [] = some []
parse_log codec zero (b ∷ bs) = none
parse_log codec (suc fuel) (b ∷ bs) = elim (next_entry (b ∷ bs)) [
  | none ↦ none
  | some (body, behind) ↦ elim (parse_log codec fuel behind) [
    | none ↦ none
    | some entries ↦ some (codec.decode_entry body ∷ entries)
  ]
]

unfoldable pub parse_log_file : Codec → List ℕ → Option (List LogEntry)
unfolding parse_log
parse_log_file codec buffer = parse_log codec (length buffer) buffer

-- What `BackupLog` appends to the log file.
unfoldable pub frame : List ℕ → List ℕ
frame bs = put_uint 4 (length bs % 2 ^ 32) ++ bs

unfoldable pub append_frame : Option (List ℕ) → List ℕ → List ℕ
unfolding frame
append_frame none log = log
append_frame (some bs) log = log ++ frame bs

unfoldable pub backup_log : Codec → LogEntry → DiskQueue → DiskQueue
unfolding append_frame
backup_log codec e q = record q { log_file = append_frame (codec.encode_entry e) q.log_file }

unfoldable pub snapshot : Codec → DiskQueue → DiskQueue
snapshot codec q = record q { snapshot_file = some (codec.encode_queue q.mq); log_file = [] }

unfoldable pub check_snapshot : Codec → DiskQueue → DiskQueue
unfolding snapshot
check_snapshot codec q =
    if leb q.ops_per_snapshot q.op_counter then record (snapshot codec q) { op_counter = 0 } else q

-- The end of `Push` and `Pop`, behind `BackupLog`.
unfoldable pub count_op : Codec → DiskQueue → DiskQueue
unfolding check_snapshot
count_op codec q = check_snapshot codec (record q { op_counter = q.op_counter + 1 })

unfoldable pub disk_push : Codec → Value → DiskQueue → DiskQueue
unfolding next_id backup_log count_op
disk_push codec v q =
    let mq = next_id q.mq in
    let qm : QMessage Value = record { message_id = itoa mq.id; value = v } in
    let mq' : MessageQueue Value = record mq { queue = mq.queue ++ qm ∷ [] } in
    count_op codec
      (backup_log codec (record { message = qm; command = "PUSH" }) (record q { mq = mq' }))

abbrev pub pop_entry : LogEntry
pop_entry = record { message = record { message_id = ""; value = nil_value }; command = "POP" }

unfoldable pub disk_pop : Codec → DiskQueue → Option (QMessage Value) × DiskQueue
unfolding backup_log count_op
disk_pop codec q = elim (last_and_front q.mq.queue) [
  | none ↦ (none, q)
  | some (last, front) ↦ (
    some last,
    count_op codec (backup_log codec pop_entry (record q { mq = record (q.mq) { queue = front } })),
  )
]

-- The message of an entry is pushed whole, as a value.
abbrev pub as_value : QMessage Value → Value
as_value m = of_message m.message_id m.value

-- `ReplayPush` and `ReplayPop` do what `Push` and `Pop` of phatqueue do.
unfoldable pub replay_push : Value → MessageQueue Value → MessageQueue Value
replay_push v mq = push v mq

unfoldable pub replay_pop : MessageQueue Value → MessageQueue Value
replay_pop mq = (pop mq).1

unfoldable pub replay_one : LogEntry → MessageQueue Value → MessageQueue Value
unfolding replay_push replay_pop
replay_one e mq =
    if str_eq e.command "PUSH"
    then replay_push (as_value e.message) mq
    else if str_eq e.command "POP"
    then replay_pop mq
    else mq

unfoldable pub replay : List LogEntry → MessageQueue Value → MessageQueue Value
unfolding replay_one
replay [] mq = mq
replay (e ∷ es) mq = replay es (replay_one e mq)

unfoldable pub recover_snapshot : Codec → Option (List ℕ) → MessageQueue Value → MessageQueue Value
recover_snapshot codec none mq = mq
recover_snapshot codec (some bs) mq = codec.decode_queue bs mq

-- `RecoverLog`; `none` is the panic of `ParseLogFile`.
unfoldable pub recover_log : Codec → List ℕ → MessageQueue Value → Option (MessageQueue Value)
unfolding parse_log_file replay
recover_log codec log mq = elim (parse_log_file codec log) [
  | none ↦ none
  | some entries ↦ some (replay entries mq)
]

-- The queue that `Init` makes from the files.
unfoldable pub init_queue : Codec → Option (List ℕ) → List ℕ → Option (MessageQueue Value)
unfolding recover_snapshot recover_log
init_queue codec snapshot_file log_file =
    recover_log codec log_file (recover_snapshot codec snapshot_file new_queue)
