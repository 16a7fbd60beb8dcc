-- ===== src/Queuedisk/Durable.antt =====
-- What a restart finds of a queue on disk (queuedisk/queue_disk.go).
use mathlib.Core.Path.{subst}
use go_phat.Prelude.{
  ◌+◌, String, ◌≡◌, refl, sym, ap, ◌∙◌, Option, none, some, List, [], ◌∷◌, ◌++◌, map, leb, u64,
  Bool-cases, Option-cases, inl, inr, arith,
}
use go_phat.Phatqueue.{QMessage, MessageQueue, itoa, new_queue, next_id, push, pop, last_and_front}
use go_phat.Queuedisk.{
  Value, LogEntry, Codec, DiskQueue, backup_log, snapshot, check_snapshot, count_op, disk_push,
  pop_entry, disk_pop, replay_one, replay_push, replay_pop, replay, recover_snapshot, recover_log,
  init_queue,
}
use go_phat.Queuedisk.Frames.{IsWritten, IsLog, parse_log_file-IsLog, backup_log-IsLog}

abbrev pub ids : List (QMessage Value) → List String
ids = map (λ m. m.message_id)

-- The same message ids in the same order, and the same next id. The values can differ.
abbrev pub SameIds : MessageQueue Value → MessageQueue Value → Type 0
SameIds a b = (ids a.queue ≡ ids b.queue) × (a.id ≡ b.id)

-- The log file is a log of the changes since the snapshot: a restart finds the queue's ids.
pub record IsDurable (codec : Codec) (q : DiskQueue) : Type 0 where
  pub entries : List LogEntry
  pub logged : IsLog codec q.log_file entries
  pub replayed : SameIds (replay entries (recover_snapshot codec q.snapshot_file new_queue)) q.mq

replay-append :
    (es : List LogEntry) (e : LogEntry) (mq : MessageQueue Value)
    → replay (es ++ e ∷ []) mq ≡ replay_one e (replay es mq)
unfolding replay
replay-append [] e mq = refl
replay-append (d ∷ es) e mq = replay-append es e (replay_one d mq)

ids-append : (xs ys : List (QMessage Value)) → ids (xs ++ ys) ≡ ids xs ++ ids ys
ids-append [] ys = refl
ids-append (x ∷ xs) ys = ap (λ r. x.message_id ∷ r) (ids-append xs ys)

push-SameIds :
    (a b : MessageQueue Value) (v w : Value) → SameIds a b → SameIds (push v a) (push w b)
unfolding push next_id
push-SameIds a b v w (same, id) = (
  ids-append a.queue (record { message_id = itoa (u64 (a.id + 1)); value = v } ∷ [])
      ∙ rw (same, id)
          (sym
            (ids-append b.queue (record { message_id = itoa (u64 (b.id + 1)); value = w } ∷ []))),
  ap (λ n. u64 (n + 1)) id,
)

front_of : List String → Option (List String)
front_of [] = none
front_of (x ∷ xs) = elim (front_of xs) [ none ↦ some [] | some front ↦ some (x ∷ front) ]

or_nil : Option (List String) → List String
or_nil none = []
or_nil (some xs) = xs

ids_of : Option (QMessage Value × List (QMessage Value)) → Option (List String)
ids_of none = none
ids_of (some (last, front)) = some (ids front)

ids_of-last_and_front :
    (xs : List (QMessage Value)) → ids_of (last_and_front xs) ≡ front_of (ids xs)
unfolding last_and_front front_of ids_of
ids_of-last_and_front [] = refl
ids_of-last_and_front (x ∷ xs) =
    let ih = ids_of-last_and_front xs in
    elim (Option-cases (last_and_front xs)) [
      | inl e ↦ rw (e, sym ih, e) refl
      | inr ((last, front), e) ↦ rw (e, sym ih, e) refl
    ]

last_and_front-none : (xs : List (QMessage Value)) → last_and_front xs ≡ none → xs ≡ []
unfolding last_and_front
last_and_front-none [] e = refl
last_and_front-none (x ∷ xs) e = elim (Option-cases (last_and_front xs)) [
  | inl none_behind ↦
      let one : last_and_front (x ∷ xs) ≡ some (x, []) = rw (none_behind, last_and_front) refl in
      absurd (ground arith)
  | inr ((l, f), more) ↦
      let one : last_and_front (x ∷ xs) ≡ some (l, x ∷ f) = rw (more, last_and_front) refl in
      absurd (ground arith)
]

ids-pop : (mq : MessageQueue Value) → ids (pop mq).1.queue ≡ or_nil (front_of (ids mq.queue))
unfolding pop or_nil ids_of
ids-pop mq =
    let front = ids_of-last_and_front mq.queue in
    elim (Option-cases (last_and_front mq.queue)) [
      | inl e ↦
          rw (e, pop)
            (ap ids (last_and_front-none mq.queue e) ∙ ap or_nil (sym (sym front ∙ ap ids_of e)))
      | inr ((last, kept), e) ↦ rw (e, pop) (ap or_nil (sym (sym front ∙ ap ids_of e)))
    ]

pop-id : (mq : MessageQueue Value) → (pop mq).1.id ≡ mq.id
unfolding pop
pop-id mq = elim (Option-cases (last_and_front mq.queue)) [
  | inl e ↦ rw (e, pop) refl
  | inr (m, e) ↦ rw (e, pop) refl
]

pop-SameIds : (a b : MessageQueue Value) → SameIds a b → SameIds (pop a).1 (pop b).1
pop-SameIds a b (same, id) = (
  ids-pop a ∙ ap (λ xs. or_nil (front_of xs)) same ∙ sym (ids-pop b),
  pop-id a ∙ id ∙ sym (pop-id b),
)

-- An entry in the log that makes the same change: the queue stays durable.
logged-IsDurable :
    (codec : Codec) (q : DiskQueue) (e : LogEntry) (mq : MessageQueue Value)
    → IsDurable codec q
    → IsWritten codec e
    → ((a : MessageQueue Value) → SameIds a q.mq → SameIds (replay_one e a) mq)
    → IsDurable codec (backup_log codec e (record q { mq = mq }))
unfolding backup_log
logged-IsDurable codec q e mq d w change = record {
  entries = d.entries ++ e ∷ [];
  logged = backup_log-IsLog codec e w (record q { mq = mq }) d.entries d.logged;
  replayed =
      let base = recover_snapshot codec q.snapshot_file new_queue in
      subst (λ a. SameIds a mq) (sym (replay-append d.entries e base))
        (change (replay d.entries base) d.replayed);
}

-- gob gives back the queue of a snapshot.
abbrev pub IsKept : Codec → MessageQueue Value → Type 0
IsKept codec mq = codec.decode_queue (codec.encode_queue mq) new_queue ≡ mq

count_op-IsDurable :
    (codec : Codec) (q : DiskQueue)
    → IsKept codec q.mq
    → IsDurable codec q
    → IsDurable codec (count_op codec q)
unfolding count_op check_snapshot snapshot
count_op-IsDurable codec q kept d = elim (Bool-cases (leb q.ops_per_snapshot (q.op_counter + 1))) [
  | inl due ↦
      rw (due, count_op)
        (record {
          entries = [];
          logged = IsLog.empty;
          replayed = unfold replay recover_snapshot in rw kept (refl, refl);
        })
  | inr later ↦
      rw (later, count_op)
        (record { entries = d.entries; logged = d.logged; replayed = d.replayed })
]

abbrev pub push_entry : Value → MessageQueue Value → LogEntry
push_entry v mq = record {
  message = record { message_id = itoa (u64 (mq.id + 1)); value = v };
  command = "PUSH";
}

-- `Push` keeps the queue durable, whether it takes a snapshot or not: after a restart, the snapshot
-- and the log give a queue with the same message ids in the same order, and the same next id. gob must
-- encode and decode the entry of the push, and the queue if it is written to a snapshot.
pub disk_push-IsDurable :
    (codec : Codec) (v : Value) (q : DiskQueue)
    → IsDurable codec q
    → IsWritten codec (push_entry v q.mq)
    → IsKept codec (push v q.mq)
    → IsDurable codec (disk_push codec v q)
unfolding disk_push push next_id
disk_push-IsDurable codec v q d w kept =
    count_op-IsDurable codec (backup_log codec (push_entry v q.mq) (record q { mq = push v q.mq }))
      (unfold backup_log in kept)
      (logged-IsDurable codec q (push_entry v q.mq) (push v q.mq) d w
        (λ a same. unfold replay_one replay_push in push-SameIds a q.mq _ v same))

-- `Pop` keeps the queue durable in the same way; on an empty queue it changes nothing.
pub disk_pop-IsDurable :
    (codec : Codec) (q : DiskQueue)
    → IsDurable codec q
    → IsWritten codec pop_entry
    → IsKept codec (pop q.mq).1
    → IsDurable codec (disk_pop codec q).1
unfolding disk_pop pop
disk_pop-IsDurable codec q d w kept = elim (Option-cases (last_and_front q.mq.queue)) [
  | inl e ↦ rw (e, disk_pop) d
  | inr ((last, front), e) ↦
      let popped : (pop q.mq).1 ≡ record (q.mq) { queue = front } = rw (e, pop) refl in
      rw (e, disk_pop)
        (count_op-IsDurable codec
          (backup_log codec pop_entry (record q { mq = record (q.mq) { queue = front } }))
          (unfold backup_log in rw popped at kept)
          (logged-IsDurable codec q pop_entry (record (q.mq) { queue = front }) d w
            (λ a same. unfold replay_one replay_pop in rw popped at (pop-SameIds a q.mq same))))
]

-- A restart on the files of a durable queue does not panic, and `Init` makes a queue with the same
-- message ids in the same order, and the same next id.
pub init_queue-SameIds :
    (codec : Codec) (q : DiskQueue)
    → IsDurable codec q
    → (mq : MessageQueue Value) × (init_queue codec q.snapshot_file q.log_file ≡ some mq)
      × SameIds mq q.mq
unfolding init_queue recover_log
init_queue-SameIds codec q d =
    let base = recover_snapshot codec q.snapshot_file new_queue in
    (
      replay d.entries base,
      rw (parse_log_file-IsLog codec q.log_file d.entries d.logged, recover_log) refl,
      d.replayed,
    )
