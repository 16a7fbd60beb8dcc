-- ===== src/Worker/Tests.antt =====
-- The worker (worker/worker.go) on a queue server that has handed out a message.
use go_phat.Prelude.{◌≡◌, refl, some, [], ◌∷◌, arith}
use go_phat.Phatqueue
use go_phat.Phatqueue.{QMessage, MessageQueue, itoa}
use go_phat.Phatqueue.Server.{Codec, ServerState, responds, reply_with, no_reply, turn, start}
use go_phat.Phatqueue.Reachable.{Reachable, Step}
use go_phat.Worker.{Worker, response, error, done, done_command, pop_command, push_command, pop}
use go_phat.Worker.Acknowledge.{server, done-idle}

-- A codec that keeps the id only.
abbrev codec : Codec
codec = record { encode = λ mq. some (mq.id ∷ []); decode = λ bs mq. (mq, "") }

abbrev worker : Worker
worker = record { uid = "w"; seq_number = 0 }

abbrev handed_out : ServerState
handed_out = record start { mq = record { queue = []; in_progress = []; id = 1 } }

abbrev pushed_one : ServerState
pushed_one = record start {
  mq = record {
    queue = record { message_id = itoa 1; value = "job" } ∷ [];
    in_progress = [];
    id = 1;
  };
}

handed_out-reached : Reachable codec "" handed_out
unfolding turn Phatqueue.push Phatqueue.pop
handed_out-reached =
    Reachable.next
      (Reachable.next {s' = pushed_one} Reachable.at_start
        (Step.answered (push_command "job") (reply_with no_reply) refl (omega arith) refl))
      (Step.answered pop_command _ refl (omega arith) refl)

done-idle_example :
    (done (server codec handed_out) worker
      ≡ (response (reply_with no_reply), record worker { seq_number = 1 }))
    × (turn codec done_command handed_out ≡ responds (reply_with no_reply) handed_out)
done-idle_example = done-idle codec "" handed_out worker handed_out-reached refl

nothing_left :
    pop (server codec handed_out) worker
    ≡ (error "Nothing to pop", record worker { seq_number = 1 })
unfolding pop turn Phatqueue.pop
nothing_left = refl
