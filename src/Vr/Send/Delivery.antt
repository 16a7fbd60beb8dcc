-- ===== src/Vr/Send/Delivery.antt =====
-- To whom a message goes, and when the sender goes on (vr/vr.go).
use go_phat.Prelude.{
  ℕ, zero, suc, ◌+◌, ◌-◌, ◌≤◌, ◌<◌, ◌≡◌, List, [], ◌∷◌, ◌++◌, Bool, true, false, ◌&&◌, ◌||◌, not,
  ◌==◌, ltb, leb, if◌then◌else◌, count_if, Bool-cases, inl, inr, arith,
}
use go_phat.Vr.Send.{
  pick_loop, others, Call, replied, failed, Action, retry, done, Collector, close, start_collector,
  collect, collect_all,
}

-- From `k` on, with room for all the numbers that are left but `me`.
pick_loop-count :
    (me rounds k n i : ℕ)
    → rounds ≤ n + (if leb k me && ltb me (k + rounds) then 1 else 0)
    → count_if (λ x. x == i) (pick_loop me rounds k n)
      ≡ (if leb k i && ltb i (k + rounds) && not (i == me) then 1 else 0)
unfolding pick_loop
pick_loop-count me zero k n i h = ground arith
pick_loop-count me (suc rounds) k zero i h = ground arith
pick_loop-count me (suc rounds) k (suc n) i h =
    ground
      (arith, pick_loop-count me rounds (suc k) (suc n) i, pick_loop-count me rounds (suc k) n i)

-- `sendAndRecv(NREPLICAS-1, ...)` on a replica with a number below NREPLICAS picks each of the other
-- replicas exactly once, and neither the replica itself nor a number out of range.
pub others-count :
    (nreplicas me i : ℕ)
    → me < nreplicas
    → count_if (λ x. x == i) (others nreplicas me)
      ≡ (if ltb i nreplicas && not (i == me) then 1 else 0)
unfolding others
others-count nreplicas me i h = ground (arith, pick_loop-count me nreplicas 0 (nreplicas - 1) i)

abbrev pub is_done : {A : Type 0} → Action A → Bool
is_done done = true
is_done (retry rep_num delay tries) = false

-- How often the sender is let go.
abbrev pub dones : {A : Type 0} → List (Action A) → ℕ
dones acts = count_if is_done acts

dones-append : {A : Type 0} (xs ys : List (Action A)) → dones (xs ++ ys) ≡ dones xs + dones ys
dones-append [] ys = omega arith
dones-append (x ∷ xs) ys = omega (arith, dones-append xs ys)

-- The sender has been let go.
abbrev pub released : Collector → Bool
released s = s.finished || not s.call_handler

abbrev pub owed : Collector → ℕ
owed s = if released s then 0 else 1

module _ {A : Type 0} (handler : A → Bool) where
  collect-dones :
      (s : Collector) (c : Call A)
      → s.finished ≡ false
      → dones (collect handler s c).1 + owed (collect handler s c).0 ≡ owed s
  unfolding collect close
  collect-dones s (failed rep_num tries) e = ground arith
  collect-dones s (replied rep_num tries reply) e = ground arith

  collect_all-dones :
      (s : Collector) (cs : List (Call A))
      → dones (collect_all handler s cs).1 + owed (collect_all handler s cs).0 ≡ owed s
  unfolding collect_all
  collect_all-dones s [] = omega arith
  collect_all-dones s (c ∷ cs) = elim (Bool-cases s.finished) [
    | inl over ↦ simp (over, collect_all) (omega arith)
    | inr open_still ↦
        simp (open_still, collect_all)
          (grind (
            arith,
            dones-append (collect handler s c).1 (collect_all handler (collect handler s c).0 cs).1,
            collect-dones s c open_still,
            collect_all-dones (collect handler s c).0 cs,
          ))
  ]

  dones-start_collector :
      (n : ℕ) → dones (start_collector {A = A} n).1 + owed (start_collector {A = A} n).0 ≡ 1
  unfolding start_collector close
  dones-start_collector n = ground arith

  owed-released : (s : Collector) → owed s + (if released s then 1 else 0) ≡ 1
  owed-released s = ground arith

  -- `sendAndRecvTo` lets its caller go at most once: from the start, whatever results come in and
  -- whatever the handler says, the caller has been signalled once if the handler has returned true
  -- or all the replies are in, and not at all otherwise.
  pub collect_all-once :
      (n : ℕ) (cs : List (Call A))
      → let (s, first) = start_collector {A = A} n in
        let (s', acts) = collect_all handler s cs in
        dones first + dones acts ≡ (if released s' then 1 else 0)
  collect_all-once n cs =
      let s = (start_collector {A = A} n).0 in
      omega (
        arith,
        dones-start_collector n,
        collect_all-dones s cs,
        owed-released (collect_all handler s cs).0,
      )
