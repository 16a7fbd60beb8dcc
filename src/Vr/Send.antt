-- ===== src/Vr/Send.antt =====
-- `sendAndRecv` and `sendAndRecvTo` (vr/vr.go): which replicas get a message, and the loop that
-- collects the results of the calls, retries them and calls the handler.
pub mod Delivery
use go_phat.Prelude.{
  ℕ, zero, suc, ◌+◌, ◌-◌, ◌*◌, ◌^◌, List, [], ◌∷◌, ◌++◌, Bool, true, false, ◌==◌, ltb, leb,
  if◌then◌else◌, length,
}

-- `for repNum := uint(0); i < N && repNum < NREPLICAS; repNum++`, with the numbers left to try;
-- `n` places of `reps` are still empty.
pick_loop : (me rounds rep_num n : ℕ) → List ℕ
pick_loop me zero rep_num n = []
pick_loop me (suc rounds) rep_num zero = []
pick_loop me (suc rounds) rep_num (suc n) =
    if rep_num == me
    then pick_loop me rounds (suc rep_num) (suc n)
    else rep_num ∷ pick_loop me rounds (suc rep_num) n

-- The recipients that `sendAndRecv(N, ...)` picks.
unfoldable pub pick_replicas : (nreplicas me n : ℕ) → List ℕ
unfolding pick_loop
pick_replicas nreplicas me n = pick_loop me nreplicas 0 n

-- Everybody else: `sendAndRecv(NREPLICAS-1, ...)`.
unfoldable pub others : (nreplicas me : ℕ) → List ℕ
unfolding pick_replicas
others nreplicas me = pick_replicas nreplicas me (nreplicas - 1)

abbrev pub max_tries : ℕ
max_tries = 2

-- BACKOFF_TIME, in nanoseconds
abbrev pub backoff_time : ℕ
backoff_time = 10000000

-- The result of one call: to whom, the how manieth try it was, and the reply unless it failed.
pub data Call (A : Type 0) : Type 0 where
  replied : (rep_num tries : ℕ) → A → Call A
  failed : (rep_num tries : ℕ) → Call A

-- What the collecting goroutine does on a result.
pub data Action (A : Type 0) : Type 0 where
  retry : (rep_num delay tries : ℕ) → Action A
  done : Action A

-- `n` is the number of recipients, `i` counts replies. `finished` is set when the loop has ended.
pub record Collector : Type 0 where
  pub n : ℕ
  pub i : ℕ
  pub call_handler : Bool
  pub finished : Bool

-- The loop ends with the last reply; a handler that never returned true still lets the caller go.
unfoldable pub close : {A : Type 0} → Collector → List (Action A) → Collector × List (Action A)
close s acts =
    if leb s.n s.i
    then (record s { finished = true }, acts ++ (if s.call_handler then done ∷ [] else []))
    else (s, acts)

-- The collector at the start; with no recipients the loop does not run at all.
unfoldable pub start_collector : {A : Type 0} → ℕ → Collector × List (Action A)
unfolding close
start_collector n = close (record { n = n; i = 0; call_handler = true; finished = false }) []

module _ {A : Type 0} (handler : A → Bool) where
  -- One round of the loop `for i := 0; i < N;`.
  unfoldable pub collect : Collector → Call A → Collector × List (Action A)
  unfolding close
  collect s (failed rep_num tries) =
      if leb max_tries tries
      then (s, [])
      else (s, retry rep_num (backoff_time * 2 ^ (tries - 1)) tries ∷ [])
  collect s (replied rep_num tries reply) =
      let counted : Collector = record s { i = suc s.i } in
      if s.call_handler
      then (if handler reply
          then close (record counted { call_handler = false }) (done ∷ [])
          else close counted [])
      else close counted []

  -- The loop over the results as they come; a finished collector takes no more.
  unfoldable pub collect_all : Collector → List (Call A) → Collector × List (Action A)
  unfolding collect
  collect_all s [] = (s, [])
  collect_all s (c ∷ cs) =
      let (s', acts) = collect s c in
      let (s'', more) = collect_all s' cs in if s.finished then (s, []) else (s'', acts ++ more)
