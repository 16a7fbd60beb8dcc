-- ===== src/FuzzTesting/Kept.antt =====
-- The scripts of the fuzz tests on the numbers of nodes and clients (fuzz_testing/test_master.go).
use go_phat.Prelude.{
  ℕ, zero, suc, ◌<◌, ◌≡◌, refl, Option, none, some, List, [], ◌∷◌, Bool-cases, inl, inr, ◌==◌,
  get_elem?,
}
use go_phat.FuzzTesting.{
  NodeStatus, alive, killed, stopped, TestMaster, Run, returns, panics, out_of_fuel, next_node,
  sufficient_replicas, if_alive, if_stopped, stop_from, resume_from, stop_node, resume_node,
  Command, startnodes, stopnode, resumenode, wait, createfile, process_call,
}
use go_phat.FuzzTesting.Count.{IsMajority, setup-IsMajority}
use go_phat.FuzzTesting.Majority.{Ends}
use go_phat.FuzzTesting.Commands.{IsValid, process_call-Ends}
use go_phat.FuzzTesting.Scripts.{and_then, run_file}

-- The operation leaves `n` nodes and `c` clients, if it ends.
abbrev Keeps : (n c : ℕ) → Run → Type 0
Keeps n c (returns t) = (t.num_replicas ≡ n) × (t.num_clients ≡ c)
Keeps n c panics = Unit {0}
Keeps n c out_of_fuel = Unit {0}

if_alive-Keeps :
    (n c : ℕ) (status : Option NodeStatus) (done on : Run)
    → Keeps n c done
    → Keeps n c on
    → Keeps n c (if_alive status done on)
if_alive-Keeps n c none done on p q = tt
if_alive-Keeps n c (some alive) done on p q = p
if_alive-Keeps n c (some killed) done on p q = q
if_alive-Keeps n c (some stopped) done on p q = q

if_stopped-Keeps :
    (n c : ℕ) (status : Option NodeStatus) (done on : Run)
    → Keeps n c done
    → Keeps n c on
    → Keeps n c (if_stopped status done on)
if_stopped-Keeps n c none done on p q = tt
if_stopped-Keeps n c (some alive) done on p q = q
if_stopped-Keeps n c (some killed) done on p q = q
if_stopped-Keeps n c (some stopped) done on p q = p

stop_from-Keeps :
    (fuel i : ℕ) (t : TestMaster) → Keeps t.num_replicas t.num_clients (stop_from fuel i t)
unfolding stop_from
stop_from-Keeps zero i t = tt
stop_from-Keeps (suc fuel) i t = elim (Bool-cases (sufficient_replicas t)) [
  | inr few ↦ rw (few, stop_from) (refl, refl)
  | inl many ↦
      rw (many, stop_from)
        (if_alive-Keeps t.num_replicas t.num_clients (get_elem? t.replica_status i) _ _ (refl, refl)
          (stop_from-Keeps fuel (next_node t i) t))
]

resume_from-Keeps :
    (first fuel i : ℕ) (t : TestMaster)
    → Keeps t.num_replicas t.num_clients (resume_from first fuel i t)
unfolding resume_from
resume_from-Keeps first zero i t = tt
resume_from-Keeps first (suc fuel) i t =
    if_stopped-Keeps t.num_replicas t.num_clients (get_elem? t.replica_status i) _ _ (refl, refl)
      (elim (Bool-cases (next_node t i == first)) [
        | inl home ↦ rw home (refl, refl)
        | inr away ↦ rw away (resume_from-Keeps first fuel (next_node t i) t)
      ])

-- The numbers of nodes and clients behind a command.
abbrev nodes_after : Command → ℕ → ℕ
nodes_after (startnodes n c) k = n
nodes_after (stopnode i) k = k
nodes_after (resumenode i) k = k
nodes_after (wait ms) k = k
nodes_after createfile k = k

abbrev clients_after : Command → ℕ → ℕ
clients_after (startnodes n c) k = c
clients_after (stopnode i) k = k
clients_after (resumenode i) k = k
clients_after (wait ms) k = k
clients_after createfile k = k

process_call-Keeps :
    (command : Command) (t : TestMaster)
    → Keeps
        (nodes_after command t.num_replicas)
        (clients_after command t.num_clients)
        (process_call command t)
unfolding process_call stop_node resume_node
process_call-Keeps (startnodes n c) t = (refl, refl)
process_call-Keeps (stopnode i) t = stop_from-Keeps (suc t.num_replicas) i t
process_call-Keeps (resumenode i) t = resume_from-Keeps i (suc t.num_replicas) i t
process_call-Keeps (wait ms) t = (refl, refl)
process_call-Keeps createfile t = elim (Bool-cases (t.num_clients == 0)) [
  | inl no_client ↦ rw no_client tt
  | inr client ↦ rw client (refl, refl)
]

-- Every command of a script is valid for the numbers of nodes and clients that there are then.
abbrev pub AreValid : List Command → (n c : ℕ) → Type 0
AreValid [] n c = Unit {0}
AreValid (command ∷ rest) n c =
    IsValid command n c × AreValid rest (nodes_after command n) (clients_after command c)

and_then-Ends :
    (P Q : TestMaster → Type 0) (n c : ℕ) (r : Run) (on : TestMaster → Run)
    → Ends P r
    → Keeps n c r
    → ((t : TestMaster) → P t → t.num_replicas ≡ n → t.num_clients ≡ c → Ends Q (on t))
    → Ends Q (and_then r on)
and_then-Ends P Q n c (returns t) on p k f = f t p k.0 k.1
and_then-Ends P Q n c panics on p k f = p
and_then-Ends P Q n c out_of_fuel on p k f = p

run_file-IsMajority :
    (commands : List Command) (t : TestMaster)
    → IsMajority t
    → AreValid commands t.num_replicas t.num_clients
    → Ends IsMajority (run_file commands t)
unfolding run_file
run_file-IsMajority [] t p valid = p
run_file-IsMajority (command ∷ rest) t p valid =
    and_then-Ends IsMajority IsMajority _ _ (process_call command t) (run_file rest)
      (process_call-Ends command t p valid.0) (process_call-Keeps command t)
      (λ t' q n c. run_file-IsMajority rest t' q (rw (n, c) valid.1))

-- A script that starts some nodes and is valid for them ends whatever was there before, and leaves a
-- majority of the nodes alive, with their number right.
pub run_file-Ends :
    (n c : ℕ) (rest : List Command) (t : TestMaster)
    → 0 < n
    → AreValid rest n c
    → Ends IsMajority (run_file (startnodes n c ∷ rest) t)
unfolding run_file process_call
run_file-Ends n c rest t some_nodes valid =
    let q = setup-IsMajority n c some_nodes in
    run_file-IsMajority rest _
      (record { counted = q.counted; sized = q.sized; majority = q.majority }) valid
