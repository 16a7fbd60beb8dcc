-- ===== src/Worker/Acknowledge.antt =====
-- The worker's `Done` on the queue server (worker/worker.go, phatqueue/queue_server.go).
use go_phat.Prelude.{◌+◌, String, ◌≡◌, refl, ap, ◌∙◌, List, [], ◌∷◌, false, u64, string_eq}
use go_phat.Prelude.Assoc.{erase}
use go_phat.Phatqueue
use go_phat.Phatqueue.{QMessage}
use go_phat.Phatqueue.Server.{
  no_reply, reply_with, ServerState, Turn, responds, starts_encoding, panics, Codec, turn, dispatch,
  copy_if_needed, handle_done,
}
use go_phat.Phatqueue.Reachable.{Reachable, Reachable-IsIdle}
use go_phat.Queuerpc.{ClientCommand}
use go_phat.Worker.{
  Worker, Called, failed, answered, response, result_of, process_call, done, done_command,
}

-- The call of a worker whose command the server handles in its next turn.
abbrev pub called : Turn → Called
called (responds r s) = answered r
called (starts_encoding s) = failed "waits"
called panics = failed "connection is shut down"

abbrev pub server : Codec → ServerState → ClientCommand → Called
server codec s args = called (turn codec args.command s)

erase-nil : (m_id : String) (xs : List (String × QMessage String)) → xs ≡ [] → erase m_id xs ≡ xs
unfolding erase
erase-nil m_id [] e = refl
erase-nil m_id (x ∷ xs) e = cc

turn-done :
    (codec : Codec) (s : ServerState)
    → s.copy_on_write ≡ false
    → s.mq.in_progress ≡ []
    → turn codec done_command s ≡ responds (reply_with no_reply) s
unfolding turn dispatch copy_if_needed handle_done Phatqueue.done
turn-done codec s own idle =
    let uncopied : copy_if_needed done_command s ≡ s = simp (own, copy_if_needed) refl in
    let ended : turn codec done_command s
        ≡ responds (reply_with no_reply) (record s { mq = Phatqueue.done "" s.mq }) =
      ap (dispatch codec done_command) uncopied in
    ended
    ∙ ap (λ xs. responds (reply_with no_reply) (record s { mq = record s.mq { in_progress = xs } }))
        (erase-nil "" s.mq.in_progress idle)

-- In every state that the queue server can reach without LOAD_SNAPSHOT and in which `copyOnWrite` is
-- not set, that is with no snapshot asked for since the last encoding ended, a worker's `Done` succeeds and changes nothing
-- but the worker's sequence number: the server has no message in progress that it could end.
pub done-idle :
    (codec : Codec) (encode_error : String) (s : ServerState) (w : Worker)
    → Reachable codec encode_error s
    → s.copy_on_write ≡ false
    → (done (server codec s) w
        ≡ (response (reply_with no_reply), record w { seq_number = u64 (w.seq_number + 1) }))
      × (turn codec done_command s ≡ responds (reply_with no_reply) s)
unfolding done process_call result_of
done-idle codec encode_error s w reached own =
    let same = turn-done codec s own (Reachable-IsIdle codec encode_error s reached) in
    (rw (same, done) refl, same)
