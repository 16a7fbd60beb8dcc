-- ===== src/Phatqueue/Stack.antt =====
-- What the queue server promises when no snapshot interferes: it is a stack
-- (phatqueue/queue.go, phatqueue/queue_server.go).
use go_phat.Prelude.{
  ℕ, ◌+◌, String, ◌≡◌, refl, ap, ◌∙◌, none, some, List, [], ◌∷◌, ◌++◌, map, false, u64, length,
  length-append, arith,
}
use go_phat.Phatqueue.{QMessage, MessageQueue, itoa, push, pop, len, last_and_front}
use go_phat.Phatqueue.Server.{
  text, QCommand, no_reply, message, number, QResponse, reply_with, error_with, ServerState,
  responds, starts_encoding, panics, Codec, turn, copy_if_needed, dispatch, handle_push, handle_pop,
}

-- The responses of the loop to commands one after the other, up to a panic.
unfoldable pub serve : Codec → List QCommand → ServerState → List QResponse
serve codec [] s = []
serve codec (req ∷ reqs) s = elim (turn codec req s) [
  | responds resp s' ↦ resp ∷ serve codec reqs s'
  | starts_encoding s' ↦ serve codec reqs s'
  | panics ↦ []
]

pub data Request : Type 0 where
  push_request : String → Request
  pop_request len_request : Request

abbrev pub command_of : Request → QCommand
command_of (push_request v) = record { command = "PUSH"; value = text v }
command_of pop_request = record { command = "POP"; value = text "" }
command_of len_request = record { command = "LEN"; value = text "" }

abbrev pub numbered : ℕ → String → QMessage String
numbered id v = record { message_id = itoa id; value = v }

-- The stack: the messages, the last pushed one first, and the number of pushes so far.
abbrev pub on_stack : List Request → ℕ → List (QMessage String) → List QResponse
on_stack [] id st = []
on_stack (push_request v ∷ reqs) id st =
    reply_with no_reply ∷ on_stack reqs (u64 (id + 1)) (numbered (u64 (id + 1)) v ∷ st)
on_stack (pop_request ∷ reqs) id [] = error_with "Nothing to pop" ∷ on_stack reqs id []
on_stack (pop_request ∷ reqs) id (m ∷ st) = reply_with (message m) ∷ on_stack reqs id st
on_stack (len_request ∷ reqs) id st = reply_with (number (length st)) ∷ on_stack reqs id st

abbrev pub bottom_up : {A : Type 0} → List A → List A
bottom_up [] = []
bottom_up (x ∷ xs) = bottom_up xs ++ x ∷ []

length-bottom_up : {A : Type 0} (xs : List A) → length (bottom_up xs) ≡ length xs
length-bottom_up [] = refl
length-bottom_up (x ∷ xs) =
    omega (arith, length-append (bottom_up xs) (x ∷ []), length-bottom_up xs)

last_and_front-append :
    (xs : List (QMessage String)) (x : QMessage String)
    → last_and_front (xs ++ x ∷ []) ≡ some (x, xs)
unfolding last_and_front
last_and_front-append [] x = refl
last_and_front-append (y ∷ xs) x = rw (last_and_front-append xs x, last_and_front) refl

pub no_copy :
    (req : QCommand) (s : ServerState) → s.copy_on_write ≡ false → copy_if_needed req s ≡ s
unfolding copy_if_needed
no_copy req s cow = rw (cow, copy_if_needed) refl

serve-next :
    (codec : Codec) (req : QCommand) (reqs : List QCommand) (s s' : ServerState) (resp : QResponse)
    → s.copy_on_write ≡ false
    → dispatch codec req s ≡ responds resp s'
    → serve codec (req ∷ reqs) s ≡ resp ∷ serve codec reqs s'
unfolding serve turn
serve-next codec req reqs s s' resp cow e = rw (no_copy req s cow, e, serve) refl

pop-bottom :
    (mq : MessageQueue String) (m : QMessage String) (st : List (QMessage String))
    → mq.queue ≡ bottom_up (m ∷ st)
    → pop mq ≡ (some m, record mq { queue = bottom_up st })
unfolding pop
pop-bottom mq m st e =
    let split : last_and_front mq.queue ≡ some (m, bottom_up st) =
      ap last_and_front e ∙ last_and_front-append (bottom_up st) m in
    rw (split, pop) refl

pop-empty : (mq : MessageQueue String) → mq.queue ≡ [] → pop mq ≡ (none, mq)
unfolding pop last_and_front
pop-empty mq e = let split : last_and_front mq.queue ≡ none = rw e refl in rw (split, pop) refl

-- A server in which no snapshot is on its way answers PUSH, POP and LEN as a stack does: POP takes
-- the message that was pushed last.
pub serve-on_stack :
    (codec : Codec) (reqs : List Request) (st : List (QMessage String)) (s : ServerState)
    → s.copy_on_write ≡ false
    → s.mq.queue ≡ bottom_up st
    → serve codec (map command_of reqs) s ≡ on_stack reqs s.mq.id st
unfolding dispatch handle_push handle_pop push len
serve-on_stack codec [] st s cow e = unfold serve in refl
serve-on_stack codec (push_request v ∷ reqs) st s cow e =
    let s' : ServerState = record s { mq = push v s.mq } in
    let m = numbered (u64 (s.mq.id + 1)) v in
    serve-next codec (command_of (push_request v)) (map command_of reqs) s s' (reply_with no_reply)
      cow refl
    ∙ ap (λ rest. reply_with no_reply ∷ rest)
        (serve-on_stack codec reqs (m ∷ st) s' cow (ap (λ q. q ++ m ∷ []) e))
serve-on_stack codec (pop_request ∷ reqs) [] s cow e =
    serve-next codec (command_of pop_request) (map command_of reqs) s s
      (error_with "Nothing to pop") cow (rw (pop-empty s.mq e) refl)
    ∙ ap (λ rest. error_with "Nothing to pop" ∷ rest) (serve-on_stack codec reqs [] s cow e)
serve-on_stack codec (pop_request ∷ reqs) (m ∷ st) s cow e =
    let s' : ServerState = record s { mq = record (s.mq) { queue = bottom_up st } } in
    serve-next codec (command_of pop_request) (map command_of reqs) s s' (reply_with (message m))
      cow (rw (pop-bottom s.mq m st e) refl)
    ∙ ap (λ rest. reply_with (message m) ∷ rest) (serve-on_stack codec reqs st s' cow refl)
serve-on_stack codec (len_request ∷ reqs) st s cow e =
    let n : len s.mq ≡ length st = ap length e ∙ length-bottom_up st in
    serve-next codec (command_of len_request) (map command_of reqs) s s
      (reply_with (number (length st))) cow (rw n refl)
    ∙ ap (λ rest. reply_with (number (length st)) ∷ rest) (serve-on_stack codec reqs st s cow e)
