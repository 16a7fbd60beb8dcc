-- ===== src/FuzzTesting/Kill.antt =====
-- `KillNode` (fuzz_testing/test_master.go).
use go_phat.Prelude.{
  ℕ, zero, suc, ◌+◌, ◌-◌, ◌*◌, ◌<◌, ◌≡◌, refl, sym, ap, ◌∙◌, Option, none, some, false, Bool-cases,
  inl, inr, get_elem?, arith,
}
use go_phat.FuzzTesting.{
  NodeStatus, alive, killed, stopped, TestMaster, Run, sufficient_replicas, next_node, if_alive,
  kill_if_alive, kill_one, kill_from, kill_node,
}
use go_phat.FuzzTesting.Count.{IsMajority, kill_one-IsMajority}
use go_phat.FuzzTesting.Majority.{Ends, IsAhead, next_node-lt, enough_left, ahead, if_alive-Ends}

-- The rounds that some kills take.
abbrev room : ℕ → ℕ → ℕ
room n zero = 0
room n (suc k) = n + room n k

room-mul : (n k : ℕ) → room n k ≡ n * k
room-mul n zero = omega arith
room-mul n (suc k) = omega (arith, room-mul n k)

-- What kills leave: a majority from which no node may go.
abbrev pub IsBare : TestMaster → Type 0
IsBare t = IsMajority t × (sufficient_replicas t ≡ false)

kill_if_alive-cases :
    (status : Option NodeStatus) (i : ℕ) (t : TestMaster) (on : TestMaster → Run)
    → kill_if_alive status i t on ≡ if_alive status (on (kill_one i t)) (on t)
kill_if_alive-cases none i t on = refl
kill_if_alive-cases (some alive) i t on = refl
kill_if_alive-cases (some killed) i t on = refl
kill_if_alive-cases (some stopped) i t on = refl

kill_from-Ends :
    (fuel k d i : ℕ) (t : TestMaster)
    → IsMajority t
    → t.num_alive_replicas ≡ suc k
    → i < t.num_replicas
    → d + room t.num_replicas k + 1 < fuel
    → IsAhead t d i
    → Ends IsBare (kill_from fuel i t)
unfolding kill_from
kill_from-Ends zero k d i t p left lt enough there = absurd (omega arith)
kill_from-Ends (suc fuel) zero d i t p left lt enough there =
    elim (Bool-cases (sufficient_replicas t)) [
      | inr few ↦ rw (few, kill_from) (p, few)
      | inl many ↦ let more = enough_left t many in absurd (omega arith)
    ]
kill_from-Ends (suc fuel) (suc k) d i t p left lt enough there =
    elim (Bool-cases (sufficient_replicas t)) [
      | inr few ↦ rw (few, kill_from) (p, few)
      | inl many ↦
          let one_less = λ (e : get_elem? t.replica_status i ≡ some alive).
            kill_one-IsMajority t i e (enough_left t many) p in
          rw (many, kill_if_alive-cases, kill_from)
            (if_alive-Ends IsBare t d i (get_elem? t.replica_status i) _ _ refl p lt there
              (λ e.
                let q = one_less e in
                let (d', d_lt, further) =
                  ahead (kill_one i t) (next_node t i) q (next_node-lt t i lt) in
                kill_from-Ends fuel k d' (next_node t i) (kill_one i t) q (omega arith)
                  (next_node-lt t i lt) (omega arith) further)
              (λ d' s further.
                kill_from-Ends fuel (suc k) d' (next_node t i) t p left (next_node-lt t i lt)
                  (omega arith) further))
    ]

-- `KillNode` on the number of a node ends, but not behind the first node that it kills: it goes on
-- until no node may go, and leaves the barest majority of nodes alive, with their number right.
pub kill_node-Ends :
    (t : TestMaster) (i : ℕ) → IsMajority t → i < t.num_replicas → Ends IsBare (kill_node i t)
unfolding kill_node
kill_node-Ends t i p lt =
    let (d, d_lt, there) = ahead t i p lt in
    let k = t.num_alive_replicas - 1 in
    let some_left : t.num_alive_replicas ≡ suc k = omega (arith, p.majority) in
    let rounds : room t.num_replicas (suc k) ≡ t.num_replicas * t.num_alive_replicas =
      room-mul t.num_replicas (suc k) ∙ ap (λ a. t.num_replicas * a) (sym some_left) in
    kill_from-Ends _ k d i t p some_left lt (omega (arith, rounds)) there
