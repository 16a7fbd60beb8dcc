-- ===== src/Queuerpc/Agreement.antt =====
-- A replica's queue and its log (queueRPC/queueRPC.go, vr/vr.go).
use go_phat.Prelude.{
  length, take, String, ◌+◌, ◌<◌, ◌≡◌, refl, Option, none, some, List, [], ◌++◌, map, Bool, true,
  false, u64_mod,
}
use go_phat.Vr.State.{Globals, VrCommand}
use go_phat.Vr.Exec.{pure, World, Always, Always-and_then}
use go_phat.Vr.Commit.CatchUp.{Holds, commands}
use go_phat.Vr.Coherence.{IsCoherent}
use go_phat.Vr.Coherence.Steps.{IsCoherent-cong, run_vr-IsCoherent}
use go_phat.Phatqueue.Server.{QCommand, QResponse, ServerState, Codec, start}
use go_phat.Phatqueue.Stack.{serve}
use go_phat.Phatlog.{Log}
use go_phat.Queuerpc.{
  QCommandWithChannel, ClientCommand, queue_of, cmd_of, check_state, replicated, replicate_or_queue,
  send_checked, send,
}

-- The answers of a queue's goroutine, none where it has panicked.
abbrev pub answers : Codec → List QCommand → Option ServerState → List QResponse
answers codec cs none = []
answers codec cs (some s) = serve codec cs s

-- The commands of the log up to the commit number.
abbrev pub committed_commands :
    World QCommandWithChannel → List (VrCommand QCommandWithChannel) → List QCommand
committed_commands v es = map cmd_of (take v.replica.rstate.commit_number (commands es))

-- The replica's queue answers the given commands as one queue server does that first got the commands
-- of the log up to the commit number.
abbrev pub IsServed : Codec → List QCommand → World QCommandWithChannel → Type 0
IsServed codec more v =
    (l : Log (VrCommand QCommandWithChannel)) × (es : List (VrCommand QCommandWithChannel))
    × (v.replica.phatlog ≡ some l)
    × Holds l 1 es
    × (length es ≡ v.replica.rstate.op_number)
    × (serve codec (committed_commands v es ++ more) start
        ≡ serve codec (committed_commands v es) start
          ++ answers codec more (queue_of codec v.replica))

send_checked-IsCoherent :
    (g : Globals) (use_vr : Bool) (args : ClientCommand) (refusal : Option String)
    (w : World QCommandWithChannel)
    → IsCoherent w
    → w.replica.rstate.op_number + 1 < u64_mod
    → w.inbox ≡ []
    → Always IsCoherent (send_checked g use_vr args refusal w)
unfolding send_checked replicate_or_queue
send_checked-IsCoherent g use_vr args (some e) w k lt quiet = k
send_checked-IsCoherent g false args none w k lt quiet = IsCoherent-cong w _ refl refl refl refl k
send_checked-IsCoherent g true args none w k lt quiet =
    Always-and_then IsCoherent _ (λ ch. pure (replicated _ ch))
      (run_vr-IsCoherent g _ _ (IsCoherent-cong w _ refl refl refl refl k) lt quiet) (λ ch v c. c)

-- `Send` keeps a replica coherent, in both modes. The op number must not be the last 64-bit number, and no answer of a state
-- transfer is under way.
send-IsCoherent :
    (g : Globals) (use_vr : Bool) (args : ClientCommand) (w : World QCommandWithChannel)
    → IsCoherent w
    → w.replica.rstate.op_number + 1 < u64_mod
    → w.inbox ≡ []
    → Always IsCoherent (send g use_vr args w)
unfolding send
send-IsCoherent g use_vr args w k lt quiet =
    send_checked-IsCoherent g use_vr args (check_state g w.replica) w k lt quiet
