-- ===== src/Phatqueue/Tests.antt =====
-- The queue and its server (phatqueue) on concrete commands.
use go_phat.Prelude.{◌≡◌, refl, some, List, [], ◌∷◌, map, true, arith}
use go_phat.Phatqueue.{push, next_id, itoa}
use go_phat.Phatqueue.Server.{
  copy_if_needed, dispatch, handle_push, no_reply, message, number, reply_with, error_with,
  ServerState, start, responds, Codec, turn, encode_func, encode_response,
}
use go_phat.Phatqueue.Stack.{
  Request, push_request, pop_request, len_request, command_of, numbered, on_stack, serve,
  serve-on_stack,
}
use go_phat.Phatqueue.CopyOnWrite.{push_command, pushed_alone, after_push, turn-loses}
use go_phat.Phatqueue.Numbers.{NumberedState}
use go_phat.Phatqueue.Reachable.{Step, Reachable, Reachable-IsNumbered}

ids : itoa 0 ≡ "0"
unfolding itoa
ids = refl

long_id : itoa 907 ≡ "907"
unfolding itoa
long_id = refl

-- A codec that keeps the id only.
abbrev codec : Codec
codec = record { encode = λ mq. some (mq.id ∷ []); decode = λ bs mq. (mq, "") }

abbrev requests : List Request
requests =
    push_request "a" ∷ push_request "b" ∷ len_request ∷ pop_request ∷ pop_request ∷ pop_request ∷ []

-- The message that was pushed last comes first.
stack_order :
    on_stack requests 0 []
    ≡ reply_with no_reply
      ∷ reply_with no_reply
      ∷ reply_with (number 2)
      ∷ reply_with (message (numbered 2 "b"))
      ∷ reply_with (message (numbered 1 "a"))
      ∷ error_with "Nothing to pop"
      ∷ []
stack_order = refl

serve-on_stack_example : serve codec (map command_of requests) start ≡ on_stack requests 0 []
serve-on_stack_example = serve-on_stack codec requests [] start refl refl

-- Two messages, and a snapshot for index 7 on its way.
abbrev encoding : ServerState
encoding = record {
  mq = record { queue = numbered 1 "a" ∷ numbered 2 "b" ∷ []; in_progress = []; id = 2 };
  copy_on_write = true;
  encoding = 7 ∷ [];
}

turn-loses_example :
    (turn codec (push_command "c") encoding
      ≡ responds (reply_with no_reply) (after_push "c" encoding))
    × (encode_func codec "" (after_push "c" encoding)
        ≡ some (
          encode_response (codec.encode (pushed_alone "c" encoding.mq)) 7 "",
          record (after_push "c" encoding) { encoding = [] },
        ))
turn-loses_example = turn-loses codec "c" "" 7 [] encoding refl refl

-- A PUSH of "a" on the server that has just started.
pushed-Reachable :
    Reachable codec ""
      (record start { mq = record { queue = numbered 1 "a" ∷ []; in_progress = []; id = 1 } })
unfolding turn push next_id itoa copy_if_needed dispatch handle_push
pushed-Reachable =
    Reachable.next Reachable.at_start
      (Step.answered (push_command "a") (reply_with no_reply) refl (omega arith) refl)

Reachable-IsNumbered_example :
    NumberedState
      (record start { mq = record { queue = numbered 1 "a" ∷ []; in_progress = []; id = 1 } })
Reachable-IsNumbered_example = Reachable-IsNumbered codec "" _ pushed-Reachable
