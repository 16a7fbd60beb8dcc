-- ===== src/Phatqueue/CopyOnWrite.antt =====
-- What a write does while a snapshot is on its way (phatqueue/queue_server.go).
use go_phat.Prelude.{ℕ, ◌+◌, String, ◌≡◌, refl, some, List, [], ◌∷◌, true, false, u64}
use go_phat.Phatqueue.{MessageQueue, itoa, copy, push}
use go_phat.Phatqueue.Server.{
  text, QCommand, no_reply, ServerState, responds, reply_with, Codec, turn, writes, encode_func,
  encode_response, copy_if_needed, dispatch, handle_push,
}

abbrev pub push_command : String → QCommand
push_command v = record { command = "PUSH"; value = text v }

-- The queue after the first PUSH behind a SNAPSHOT.
abbrev pub pushed_alone : String → MessageQueue String → MessageQueue String
pushed_alone v mq = record {
  queue = record { message_id = itoa (u64 (mq.id + 1)); value = v } ∷ [];
  in_progress = mq.in_progress;
  id = u64 (mq.id + 1);
}

abbrev pub after_push : String → ServerState → ServerState
after_push v s = record s { mq = pushed_alone v s.mq; copy_on_write = false }

-- A PUSH while a snapshot is on its way loses every message that was in the queue, since the copy
-- has none of them; and the goroutine of a snapshot for an older index, running next, encodes the
-- new queue instead of the one at that index.
pub turn-loses :
    (codec : Codec) (v encode_error : String) (index : ℕ) (rest : List ℕ) (s : ServerState)
    → s.copy_on_write ≡ true
    → s.encoding ≡ index ∷ rest
    → (turn codec (push_command v) s ≡ responds (reply_with no_reply) (after_push v s))
      × (encode_func codec encode_error (after_push v s)
          ≡ some (
            encode_response (codec.encode (pushed_alone v s.mq)) index encode_error,
            record (after_push v s) { encoding = rest },
          ))
unfolding turn encode_func push copy copy_if_needed dispatch handle_push writes
turn-loses codec v encode_error index rest s cow on_its_way =
    (simp (cow, turn) refl, simp (on_its_way, encode_func) refl)
