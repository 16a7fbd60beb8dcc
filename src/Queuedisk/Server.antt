-- ===== src/Queuedisk/Server.antt =====
-- The server loop of the queue on disk (queuedisk/queue_disk_server.go).
use go_phat.Prelude.{
  ℕ, String, refl, Option, none, some, [], Bool, true, false, str_eq, if◌then◌else◌, Bool-cases,
  inl, inr,
}
use go_phat.Phatqueue.{QMessage, push, pop, done, len, len_in_progress}
use go_phat.Queuedisk.{
  Value, nil_value, client_value, of_message, Codec, DiskQueue, snapshot, disk_push, pop_entry,
  disk_pop, replay, recover_snapshot,
}
use go_phat.Queuedisk.Frames.{IsWritten, IsLog}
use go_phat.Queuedisk.Durable.{
  IsDurable, IsKept, push_entry, disk_push-IsDurable, disk_pop-IsDurable,
}

pub record DiskCommand : Type 0 where
  pub command : String
  pub value : Value

pub data DiskReply : Type 0 where
  no_reply : DiskReply
  message : QMessage Value → DiskReply
  number : ℕ → DiskReply

pub record DiskResponse : Type 0 where
  pub reply : DiskReply
  pub error : String

abbrev pub reply_with : DiskReply → DiskResponse
reply_with r = record { reply = r; error = "" }

abbrev pub error_with : String → DiskResponse
error_with e = record { reply = no_reply; error = e }

pop_response : Option (QMessage Value) → DiskResponse
pop_response none = error_with "Nothing to pop"
pop_response (some m) = reply_with (message m)

-- A failed type assertion, on a value that is no string, panics: `none`.
unfoldable pub disk_done : Value → DiskQueue → Option DiskResponse × DiskQueue
disk_done nil_value q = (none, q)
disk_done (client_value m_id) q = (some (reply_with no_reply), record q { mq = done m_id q.mq })
disk_done (of_message m_id v) q = (none, q)

-- One turn of the loop of `QueueServer`.
unfoldable pub disk_turn : Codec → DiskCommand → DiskQueue → Option DiskResponse × DiskQueue
unfolding pop_response disk_done
disk_turn codec req q =
    if str_eq req.command "PUSH"
    then (some (reply_with no_reply), disk_push codec req.value q)
    else if str_eq req.command "POP"
    then (let (m, q') = disk_pop codec q in (some (pop_response m), q'))
    else if str_eq req.command "SNAPSHOT"
    then (some (reply_with no_reply), snapshot codec q)
    else if str_eq req.command "DONE"
    then disk_done req.value q
    else if str_eq req.command "LEN"
    then (some (reply_with (number (len q.mq))), q)
    else if str_eq req.command "LEN_IN_PROGRESS"
    then (some (reply_with (number (len_in_progress q.mq))), q)
    else (some (error_with "Unknown command"), q)

-- What gob has to do in a turn: encode and decode the entry of a push or a pop, and the queue before
-- and after it.
pub record IsFaithful (codec : Codec) (v : Value) (q : DiskQueue) : Type 0 where
  pub push_is_written : IsWritten codec (push_entry v q.mq)
  pub pop_is_written : IsWritten codec pop_entry
  pub kept : IsKept codec q.mq
  pub push_is_kept : IsKept codec (push v q.mq)
  pub pop_is_kept : IsKept codec (pop q.mq).1

snapshot-IsDurable :
    (codec : Codec) (q : DiskQueue) → IsKept codec q.mq → IsDurable codec (snapshot codec q)
unfolding snapshot
snapshot-IsDurable codec q kept = record {
  entries = [];
  logged = IsLog.empty;
  replayed = unfold replay recover_snapshot in rw kept (refl, refl);
}

disk_done-IsDurable :
    (codec : Codec) (v : Value) (q : DiskQueue)
    → IsDurable codec q
    → IsDurable codec (disk_done v q).1
unfolding disk_done done
disk_done-IsDurable codec nil_value q d = d
disk_done-IsDurable codec (client_value m_id) q d = record {
  entries = d.entries;
  logged = d.logged;
  replayed = d.replayed;
}
disk_done-IsDurable codec (of_message m_id v) q d = d

read_only :
    {codec : Codec} {q : DiskQueue} (b c : Bool) (x y z : Option DiskResponse)
    → IsDurable codec q
    → let turned : Option DiskResponse × DiskQueue =
        if b then (x, q) else if c then (y, q) else (z, q) in
      IsDurable codec turned.1
read_only true c x y z d = d
read_only false true x y z d = d
read_only false false x y z d = d

-- Every command of the server keeps the queue durable, where gob is faithful: after a restart, the
-- snapshot and the log on disk give a queue with the same message ids in the same order, and the same
-- next id. The values can differ.
pub disk_turn-IsDurable :
    (codec : Codec) (req : DiskCommand) (q : DiskQueue)
    → IsDurable codec q
    → IsFaithful codec req.value q
    → IsDurable codec (disk_turn codec req q).1
unfolding disk_turn
disk_turn-IsDurable codec req q d gob = elim (Bool-cases (str_eq req.command "PUSH")) [
  | inl e ↦
      rw (e, disk_turn)
        (disk_push-IsDurable codec req.value q d gob.push_is_written gob.push_is_kept)
  | inr e₁ ↦ elim (Bool-cases (str_eq req.command "POP")) [
    | inl e ↦
        rw (e₁, e, disk_turn) (disk_pop-IsDurable codec q d gob.pop_is_written gob.pop_is_kept)
    | inr e₂ ↦ elim (Bool-cases (str_eq req.command "SNAPSHOT")) [
      | inl e ↦ rw (e₁, e₂, e, disk_turn) (snapshot-IsDurable codec q gob.kept)
      | inr e₃ ↦ elim (Bool-cases (str_eq req.command "DONE")) [
        | inl e ↦ rw (e₁, e₂, e₃, e, disk_turn) (disk_done-IsDurable codec req.value q d)
        | inr e₄ ↦
            rw (e₁, e₂, e₃, e₄, disk_turn)
              (read_only (str_eq req.command "LEN") (str_eq req.command "LEN_IN_PROGRESS")
                (some (reply_with (number (len q.mq))))
                (some (reply_with (number (len_in_progress q.mq))))
                (some (error_with "Unknown command")) d)
      ]
    ]
  ]
]
