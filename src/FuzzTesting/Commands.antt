-- ===== src/FuzzTesting/Commands.antt =====
-- `ResumeNode`, and the commands of a test (fuzz_testing/test_master.go).
use go_phat.Prelude.{
  ℕ, zero, suc, ◌-◌, ◌<◌, ◌≡◌, refl, Option, none, some, true, false, ◌==◌, Bool-cases, inl, inr,
  get_elem?, get_elem?-some, arith,
}
use go_phat.FuzzTesting.{
  NodeStatus, alive, killed, stopped, TestMaster, Run, returns, panics, out_of_fuel, next_node,
  if_stopped, resume_from, stop_node, resume_node, Command, startnodes, stopnode, resumenode, wait,
  createfile, process_call,
}
use go_phat.FuzzTesting.Count.{IsMajority, setup-IsMajority, resume_one-IsMajority}
use go_phat.FuzzTesting.Walk.{walk, walk-round}
use go_phat.FuzzTesting.Majority.{Ends, IsOneLess, next_node-lt, stop_node-Ends}

-- The node at hand and how the walk goes on, for a walk back to the first node.
if_stopped-Ends :
    (P : TestMaster → Type 0) (t : TestMaster) (i : ℕ) (status : Option NodeStatus)
    (resume on : Run)
    → get_elem? t.replica_status i ≡ status
    → IsMajority t
    → i < t.num_replicas
    → (get_elem? t.replica_status i ≡ some stopped → Ends P resume)
    → Ends P on
    → Ends P (if_stopped status resume on)
if_stopped-Ends P t i none resume on e p lt here next =
    let (x, is) = get_elem?-some t.replica_status i (omega (arith, p.sized)) in cc
if_stopped-Ends P t i (some alive) resume on e p lt here next = next
if_stopped-Ends P t i (some killed) resume on e p lt here next = next
if_stopped-Ends P t i (some stopped) resume on e p lt here next = here e

resume_from-Ends :
    (first fuel d i : ℕ) (t : TestMaster)
    → IsMajority t
    → i < t.num_replicas
    → d < fuel
    → walk t.num_replicas (suc d) i ≡ first
    → Ends IsMajority (resume_from first fuel i t)
unfolding resume_from
resume_from-Ends first zero d i t p lt enough back = absurd (omega arith)
resume_from-Ends first (suc fuel) zero i t p lt enough back =
    let home : (next_node t i == first) ≡ true = ground arith in
    if_stopped-Ends IsMajority t i (get_elem? t.replica_status i) _ _ refl p lt
      (λ e. resume_one-IsMajority t i e p) (rw home p)
resume_from-Ends first (suc fuel) (suc d) i t p lt enough back =
    if_stopped-Ends IsMajority t i (get_elem? t.replica_status i) _ _ refl p lt
      (λ e. resume_one-IsMajority t i e p)
      (elim (Bool-cases (next_node t i == first)) [
        | inl home ↦ rw home p
        | inr away ↦ rw away (
            resume_from-Ends first fuel d (next_node t i) t p (next_node-lt t i lt) (omega arith)
              back)
      ])

resume_node-Ends :
    (t : TestMaster) (i : ℕ) → IsMajority t → i < t.num_replicas → Ends IsMajority (resume_node i t)
unfolding resume_node
resume_node-Ends t i p lt =
    resume_from-Ends i (suc t.num_replicas) (t.num_replicas - 1) i t p lt (omega arith)
      (walk-round t.num_replicas i lt)

Ends-mono :
    (P Q : TestMaster → Type 0) (r : Run) → ((t : TestMaster) → P t → Q t) → Ends P r → Ends Q r
Ends-mono P Q (returns t) f p = f t p
Ends-mono P Q panics f p = p
Ends-mono P Q out_of_fuel f p = p

-- The command names a node that there is, starts some nodes, or has a client for the file.
abbrev pub IsValid : Command → (n c : ℕ) → Type 0
IsValid (startnodes numnodes numclients) n c = 0 < numnodes
IsValid (stopnode i) n c = i < n
IsValid (resumenode i) n c = i < n
IsValid (wait ms) n c = Unit {0}
IsValid createfile n c = 0 < c

-- Every command of a test ends and leaves a majority of the nodes alive, with their number right, if
-- it is valid for the numbers of nodes and clients that there are.
pub process_call-Ends :
    (c : Command) (t : TestMaster)
    → IsMajority t
    → IsValid c t.num_replicas t.num_clients
    → Ends IsMajority (process_call c t)
unfolding process_call
process_call-Ends (startnodes n m) t p valid =
    let q = setup-IsMajority n m valid in
    record { counted = q.counted; sized = q.sized; majority = q.majority }
process_call-Ends (stopnode i) t p valid =
    Ends-mono (IsOneLess t) IsMajority (stop_node i t) (λ t' q. q.0) (stop_node-Ends t i p valid)
process_call-Ends (resumenode i) t p valid = resume_node-Ends t i p valid
process_call-Ends (wait ms) t p valid = p
process_call-Ends createfile t p valid =
    let some_client : (t.num_clients == 0) ≡ false = ground arith in
    rw some_client (record { counted = p.counted; sized = p.sized; majority = p.majority })
