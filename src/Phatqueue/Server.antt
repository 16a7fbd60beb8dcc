-- ===== src/Phatqueue/Server.antt =====
-- The server loop of the queue (phatqueue/queue_server.go). The goroutine that encodes a snapshot
-- runs at some later time: `encode_func` is its step. The gob codec is a parameter: `encode` is
-- `Bytes`, `none` where it fails, and `decode` is `RecoverSnapshot`, with the message of its error.
use go_phat.Prelude.{
  ℕ, String, Option, none, some, List, [], ◌∷◌, ◌++◌, Bool, true, false, str_eq, if◌then◌else◌,
}
use go_phat.Phatqueue.{
  QMessage, MessageQueue, new_queue, copy, push, pop, done, len, len_in_progress,
}

-- The dynamic types of `Value`: a string, a function that returns the snapshot index, of which the
-- server uses the result, and bytes.
pub data QValue : Type 0 where
  text : String → QValue
  snapshot_handle : ℕ → QValue
  bytes : List ℕ → QValue

pub record QCommand : Type 0 where
  pub command : String
  pub value : QValue

pub record QSnapshot : Type 0 where
  pub data_bytes : List ℕ
  pub snapshot_index : ℕ

pub data QReply : Type 0 where
  no_reply : QReply
  message : QMessage String → QReply
  number : ℕ → QReply
  snapshot : QSnapshot → QReply

pub record QResponse : Type 0 where
  pub reply : QReply
  pub error : String

abbrev pub reply_with : QReply → QResponse
reply_with r = record { reply = r; error = "" }

abbrev pub error_with : String → QResponse
error_with e = record { reply = no_reply; error = e }

-- `encoding` has the indices of the snapshots whose goroutine has not run yet.
pub record ServerState : Type 0 where
  pub mq : MessageQueue String
  pub copy_on_write : Bool
  pub encoding : List ℕ

-- What a turn of the loop ends with: a response, a snapshot on its way, or a failed type assertion.
pub data Turn : Type 0 where
  responds : QResponse → ServerState → Turn
  starts_encoding : ServerState → Turn
  panics : Turn

-- The commands that write, for the copy.
unfoldable pub writes : String → Bool
writes c = if str_eq c "PUSH" then true else if str_eq c "POP" then true else str_eq c "DONE"

unfoldable pub copy_if_needed : QCommand → ServerState → ServerState
unfolding writes copy
copy_if_needed req s =
    if s.copy_on_write
    then (if writes req.command then record s { mq = copy s.mq; copy_on_write = false } else s)
    else s

unfoldable pub handle_push : QValue → ServerState → Turn
handle_push (text v) s = responds (reply_with no_reply) (record s { mq = push v s.mq })
handle_push (snapshot_handle i) s = panics
handle_push (bytes bs) s = panics

pop_response : Option (QMessage String) → QResponse
pop_response none = error_with "Nothing to pop"
pop_response (some m) = reply_with (message m)

unfoldable pub handle_pop : ServerState → Turn
unfolding pop_response
handle_pop s = let (m, mq) = pop s.mq in responds (pop_response m) (record s { mq = mq })

unfoldable pub handle_done : QValue → ServerState → Turn
handle_done (text m_id) s = responds (reply_with no_reply) (record s { mq = done m_id s.mq })
handle_done (snapshot_handle i) s = panics
handle_done (bytes bs) s = panics

unfoldable pub handle_snapshot : QValue → ServerState → Turn
handle_snapshot (text v) s = panics
handle_snapshot (snapshot_handle i) s =
    starts_encoding (record s { copy_on_write = true; encoding = s.encoding ++ i ∷ [] })
handle_snapshot (bytes bs) s = panics

-- What the codec does: the bytes of a queue, and the queue afterwards with the error's message.
pub record Codec : Type 0 where
  pub encode : MessageQueue String → Option (List ℕ)
  pub decode : List ℕ → MessageQueue String → MessageQueue String × String

unfoldable pub handle_load : Codec → QValue → ServerState → Turn
handle_load codec (text v) s = panics
handle_load codec (snapshot_handle i) s = panics
handle_load codec (bytes bs) s =
    let (mq, e) = codec.decode bs s.mq in responds (error_with e) (record s { mq = mq })

-- The switch over the commands.
unfoldable pub dispatch : Codec → QCommand → ServerState → Turn
unfolding handle_push handle_pop handle_done handle_snapshot handle_load
dispatch codec req s =
    if str_eq req.command "PUSH"
    then handle_push req.value s
    else if str_eq req.command "POP"
    then handle_pop s
    else if str_eq req.command "DONE"
    then handle_done req.value s
    else if str_eq req.command "LEN"
    then responds (reply_with (number (len s.mq))) s
    else if str_eq req.command "LEN_IN_PROGRESS"
    then responds (reply_with (number (len_in_progress s.mq))) s
    else if str_eq req.command "SNAPSHOT"
    then handle_snapshot req.value s
    else if str_eq req.command "LOAD_SNAPSHOT"
    then handle_load codec req.value s
    else responds (error_with "Unknown command") s

-- One turn of the loop of `QueueServer`.
unfoldable pub turn : Codec → QCommand → ServerState → Turn
unfolding copy_if_needed dispatch
turn codec req s = dispatch codec req (copy_if_needed req s)

unfoldable pub encode_response : Option (List ℕ) → ℕ → (encode_error : String) → QResponse
encode_response none index encode_error = error_with encode_error
encode_response (some bs) index encode_error =
    reply_with (snapshot (record { data_bytes = bs; snapshot_index = index }))

-- The goroutine of the oldest snapshot that is on its way: it encodes the queue that `mq` points to
-- when it runs, answers and resets the flag, all in one step: the turns of the loop in the middle of
-- it, and goroutines that overtake one another, are left out. `none` if no snapshot is on its way.
unfoldable pub encode_func :
    Codec → (encode_error : String) → ServerState → Option (QResponse × ServerState)
unfolding encode_response
encode_func codec encode_error s = elim s.encoding [
  | [] ↦ none
  | index ∷ rest ↦ some (
    encode_response (codec.encode s.mq) index encode_error,
    record s { copy_on_write = false; encoding = rest },
  )
]

abbrev pub start : ServerState
start = record { mq = new_queue; copy_on_write = false; encoding = [] }
