-- ===== src/FuzzTesting.antt =====
-- The test master (fuzz_testing/test_master.go): which replica processes are alive, killed or stopped,
-- and the operations that signal them. A signal succeeds. Starting processes is left out; what a
-- node answers about its hash is an argument.
pub mod Count
pub mod Walk
pub mod Majority
pub mod Kill
pub mod Commands
pub mod Scripts
pub mod Kept
pub mod Resume
pub mod Clients
pub mod Stored
pub mod ClientTests
pub mod Hashes
pub mod Tests
use go_phat.Prelude.{
  ℕ, zero, suc, ◌+◌, ◌-◌, ◌*◌, ◌%◌, String, str_eq, Option, none, some, List, [], ◌∷◌, ◌++◌, Bool,
  true, false, not, ltb, ◌==◌, if◌then◌else◌, length, get_elem?, set, replicate, count_if,
}

pub data NodeStatus : Type 0 where
  alive killed stopped : NodeStatus

pub data Signal : Type 0 where
  kill stop continue : Signal

pub record TestMaster : Type 0 where
  pub num_alive_replicas : ℕ
  pub num_replicas : ℕ
  pub num_clients : ℕ
  pub replica_status : List NodeStatus
  pub requests : List String
  pub signals : List (ℕ × Signal)

-- `Setup`, once the nodes and the clients have started. The requests are those in the channel of the
-- first client, which is new.
abbrev pub setup : (nr nc : ℕ) → TestMaster
setup nr nc = record {
  num_alive_replicas = nr;
  num_replicas = nr;
  num_clients = nc;
  replica_status = replicate nr alive;
  requests = [];
  signals = [];
}

pub data Run : Type 0 where
  returns : TestMaster → Run
  panics : Run
  out_of_fuel : Run

-- May one more replica go? On none, the difference is -1 and the test fails.
unfoldable pub sufficient_replicas : TestMaster → Bool
sufficient_replicas t = ltb t.num_replicas ((t.num_alive_replicas - 1) * 2)

abbrev pub next_node : TestMaster → ℕ → ℕ
next_node t curr_node = (curr_node + 1) % t.num_replicas

abbrev pub signalled : ℕ → Signal → NodeStatus → ℕ → TestMaster → TestMaster
signalled node signal status num_alive t = record t {
  num_alive_replicas = num_alive;
  replica_status = set t.replica_status node status;
  signals = t.signals ++ (node, signal) ∷ [];
}

abbrev pub kill_one : ℕ → TestMaster → TestMaster
kill_one node t = signalled node kill killed (t.num_alive_replicas - 1) t

abbrev pub stop_one : ℕ → TestMaster → TestMaster
stop_one node t = signalled node stop stopped (t.num_alive_replicas - 1) t

abbrev pub resume_one : ℕ → TestMaster → TestMaster
resume_one node t = signalled node continue alive (t.num_alive_replicas + 1) t

-- The body of a loop, on the status of the node: what is done with a node that is alive (stopped), and
-- how the loop goes on at another one.
abbrev pub if_alive : Option NodeStatus → Run → Run → Run
if_alive none done on = panics
if_alive (some alive) done on = done
if_alive (some killed) done on = on
if_alive (some stopped) done on = on

abbrev pub if_stopped : Option NodeStatus → Run → Run → Run
if_stopped none done on = panics
if_stopped (some alive) done on = on
if_stopped (some killed) done on = on
if_stopped (some stopped) done on = done

abbrev pub kill_if_alive : Option NodeStatus → ℕ → TestMaster → (TestMaster → Run) → Run
kill_if_alive none node t on = panics
kill_if_alive (some alive) node t on = on (kill_one node t)
kill_if_alive (some killed) node t on = on t
kill_if_alive (some stopped) node t on = on t

-- The loop of `KillNode`: it goes on behind a kill.
unfoldable pub kill_from : (fuel curr_node : ℕ) → TestMaster → Run
kill_from zero curr_node t = out_of_fuel
kill_from (suc fuel) curr_node t =
    if not (sufficient_replicas t)
    then returns t
    else kill_if_alive (get_elem? t.replica_status curr_node) curr_node t
        (λ t'. kill_from fuel (next_node t curr_node) t')

-- The loop of `StopNode`: it returns behind a stop.
unfoldable pub stop_from : (fuel curr_node : ℕ) → TestMaster → Run
stop_from zero curr_node t = out_of_fuel
stop_from (suc fuel) curr_node t =
    if not (sufficient_replicas t)
    then returns t
    else if_alive (get_elem? t.replica_status curr_node) (returns (stop_one curr_node t))
        (stop_from fuel (next_node t curr_node) t)

-- The loop of `ResumeNode`: it returns behind a resume, or once it is back at the first node.
unfoldable pub resume_from : (first fuel curr_node : ℕ) → TestMaster → Run
resume_from first zero curr_node t = out_of_fuel
resume_from first (suc fuel) curr_node t =
    if_stopped (get_elem? t.replica_status curr_node) (returns (resume_one curr_node t)) (
      if next_node t curr_node == first
      then returns t
      else resume_from first fuel (next_node t curr_node) t)

-- A kill takes at most one round over the nodes, and there are as many kills as nodes.
unfoldable pub kill_node : ℕ → TestMaster → Run
unfolding kill_from
kill_node i t = kill_from (t.num_replicas * t.num_alive_replicas + 1) i t

unfoldable pub stop_node : ℕ → TestMaster → Run
unfolding stop_from
stop_node i t = stop_from (suc t.num_replicas) i t

unfoldable pub resume_node : ℕ → TestMaster → Run
unfolding resume_from
resume_node i t = resume_from i (suc t.num_replicas) i t

abbrev pub resume_if_stopped : NodeStatus → ℕ → TestMaster → TestMaster
resume_if_stopped alive node t = t
resume_if_stopped killed node t = t
resume_if_stopped stopped node t = resume_one node t

-- The loop of `ResumeAll` over the nodes from `node` on.
unfoldable pub resume_all_from : (node : ℕ) → List NodeStatus → TestMaster → TestMaster
resume_all_from node [] t = t
resume_all_from node (status ∷ rest) t =
    resume_all_from (suc node) rest (resume_if_stopped status node t)

unfoldable pub resume_all : TestMaster → TestMaster
unfolding resume_all_from
resume_all t = resume_all_from 0 t.replica_status t

-- The lines that `ProcessCall` reads, with their numbers read.
pub data Command : Type 0 where
  startnodes : (numnodes numclients : ℕ) → Command
  stopnode : (node : ℕ) → Command
  resumenode : (node : ℕ) → Command
  wait : (ms : ℕ) → Command
  createfile : Command

-- A file is created by the first client, if there is one.
unfoldable pub process_call : Command → TestMaster → Run
unfolding stop_node resume_node
process_call (startnodes numnodes numclients) t =
    returns (record (setup numnodes numclients) { signals = t.signals })
process_call (stopnode node) t = stop_node node t
process_call (resumenode node) t = resume_node node t
process_call (wait ms) t = returns t
process_call createfile t =
    if t.num_clients == 0
    then panics
    else returns (record t { requests = t.requests ++ "CREATE" ∷ [] })

-- The loop of `EnsureEqualHash` over the nodes with the hashes that they answer: how many failures
-- there are. The first hash is the one that is expected.
unfoldable pub count_failures : (expected : String) (failures : ℕ) → List (NodeStatus × String) → ℕ
count_failures expected failures [] = failures
count_failures expected failures ((alive, h) ∷ rest) =
    let expected' = if str_eq expected "" then h else expected in
    count_failures expected' (if str_eq expected' h then failures else failures + 1) rest
count_failures expected failures ((killed, h) ∷ rest) = count_failures expected failures rest
count_failures expected failures ((stopped, h) ∷ rest) = count_failures expected failures rest

-- `EnsureEqualHash`: does it let the test pass?
unfoldable pub ensure_equal_hash : List (NodeStatus × String) → Bool
unfolding count_failures
ensure_equal_hash nodes = not (ltb 0 (count_failures "" 0 nodes))
