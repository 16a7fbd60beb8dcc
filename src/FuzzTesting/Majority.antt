-- ===== src/FuzzTesting/Majority.antt =====
-- `StopNode` and the walk to a node alive (fuzz_testing/test_master.go).
use go_phat.Prelude.{
  ℕ, zero, suc, ◌-◌, ◌*◌, ◌<◌, ◌≡◌, refl, ap, ◌∙◌, Option, none, some, true, if◌then◌else◌,
  Bool-cases, inl, inr, get_elem?, get_elem?-some, arith,
}
use go_phat.FuzzTesting.{
  NodeStatus, alive, killed, stopped, TestMaster, Run, returns, panics, out_of_fuel,
  sufficient_replicas, next_node, if_alive, stop_from, stop_node,
}
use go_phat.FuzzTesting.Count.{IsMajority, some_alive, stop_one-IsMajority}
use go_phat.FuzzTesting.Walk.{walk, walk-reaches}

-- The operation ends, with a test master in `P`.
abbrev pub Ends : (TestMaster → Type 0) → Run → Type 0
Ends P (returns t) = P t
Ends P panics = ⊥
Ends P out_of_fuel = ⊥

-- Some node alive is `d` steps ahead.
abbrev pub IsAhead : TestMaster → ℕ → ℕ → Type 0
IsAhead t d i = get_elem? t.replica_status (walk t.num_replicas d i) ≡ some alive

pub next_node-lt : (t : TestMaster) (i : ℕ) → i < t.num_replicas → next_node t i < t.num_replicas
next_node-lt t i lt = omega arith

pub enough_left :
    (t : TestMaster)
    → sufficient_replicas t ≡ true
    → t.num_replicas < (t.num_alive_replicas - 1) * 2
unfolding sufficient_replicas
enough_left t h = ground arith

pub ahead :
    (t : TestMaster) (i : ℕ)
    → IsMajority t
    → i < t.num_replicas
    → (d : ℕ) × (d < t.num_replicas) × IsAhead t d i
ahead t i p lt =
    let (j, j_lt, e) = some_alive t.replica_status (omega (arith, p.counted, p.majority)) in
    let (d, d_lt, there) = walk-reaches t.num_replicas i j lt (omega (arith, p.sized)) in
    (d, d_lt, ap (get_elem? t.replica_status) there ∙ e)

-- What a stop leaves: a majority, and one node fewer where a node may go.
abbrev pub IsOneLess : TestMaster → TestMaster → Type 0
IsOneLess t t' =
    IsMajority t'
    × (t'.num_alive_replicas
        ≡ (if sufficient_replicas t then t.num_alive_replicas - 1 else t.num_alive_replicas))

-- The node is there, and the walk goes on if it is not the one that is looked for.
pub if_alive-Ends :
    (P : TestMaster → Type 0) (t : TestMaster) (d i : ℕ) (status : Option NodeStatus)
    (stop on : Run)
    → get_elem? t.replica_status i ≡ status
    → IsMajority t
    → i < t.num_replicas
    → IsAhead t d i
    → (get_elem? t.replica_status i ≡ some alive → Ends P stop)
    → ((d' : ℕ) → d ≡ suc d' → IsAhead t d' (next_node t i) → Ends P on)
    → Ends P (if_alive status stop on)
if_alive-Ends P t d i none stop on e p lt there here next =
    let (x, is) = get_elem?-some t.replica_status i (omega (arith, p.sized)) in cc
if_alive-Ends P t d i (some alive) stop on e p lt there here next = here e
if_alive-Ends P t zero i (some killed) stop on e p lt there here next = cc
if_alive-Ends P t (suc d) i (some killed) stop on e p lt there here next = next d refl there
if_alive-Ends P t zero i (some stopped) stop on e p lt there here next = cc
if_alive-Ends P t (suc d) i (some stopped) stop on e p lt there here next = next d refl there

stop_from-Ends :
    (fuel d i : ℕ) (t : TestMaster)
    → IsMajority t
    → i < t.num_replicas
    → d < fuel
    → IsAhead t d i
    → Ends (IsOneLess t) (stop_from fuel i t)
unfolding stop_from
stop_from-Ends zero d i t p lt enough there = absurd (omega arith)
stop_from-Ends (suc fuel) d i t p lt enough there = elim (Bool-cases (sufficient_replicas t)) [
  | inr few ↦ rw (few, stop_from) (p, rw few refl)
  | inl many ↦
      rw (many, stop_from)
        (if_alive-Ends (IsOneLess t) t d i (get_elem? t.replica_status i) _ _ refl p lt there
          (λ e. (stop_one-IsMajority t i e (enough_left t many) p, rw many refl))
          (λ d' s further.
            stop_from-Ends fuel d' (next_node t i) t p (next_node-lt t i lt) (omega arith) further))
]

-- `StopNode` on the number of a node ends: it stops one node that is alive if a majority is left
-- without it, and none otherwise, so that the nodes that are alive stay a majority, and their number
-- is right.
pub stop_node-Ends :
    (t : TestMaster) (i : ℕ)
    → IsMajority t
    → i < t.num_replicas
    → Ends (IsOneLess t) (stop_node i t)
unfolding stop_node
stop_node-Ends t i p lt =
    let (d, d_lt, there) = ahead t i p lt in
    stop_from-Ends (suc t.num_replicas) d i t p lt (omega arith) there
