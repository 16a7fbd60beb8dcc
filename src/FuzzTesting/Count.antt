-- ===== src/FuzzTesting/Count.antt =====
-- The number of nodes that are alive, and a majority of them (fuzz_testing/test_master.go).
use go_phat.Prelude.{
  ℕ, zero, suc, ◌+◌, ◌-◌, ◌*◌, ◌<◌, ◌≡◌, refl, some, List, [], ◌∷◌, Bool, true, false,
  if◌then◌else◌, length, length-set, length-replicate, get_elem?, set, replicate, count_if,
  count_if-set, arith,
}
use go_phat.FuzzTesting.{
  NodeStatus, alive, killed, stopped, TestMaster, kill_one, stop_one, resume_one, setup,
}

abbrev pub is_alive : NodeStatus → Bool
is_alive alive = true
is_alive killed = false
is_alive stopped = false

abbrev pub count_alive : List NodeStatus → ℕ
count_alive xs = count_if is_alive xs

abbrev weight : NodeStatus → ℕ
weight x = if is_alive x then 1 else 0

count_alive-set :
    (xs : List NodeStatus) (i : ℕ) (x y : NodeStatus)
    → get_elem? xs i ≡ some x
    → count_alive (set xs i y) + weight x ≡ count_alive xs + weight y
count_alive-set xs i x y e = count_if-set is_alive xs i x y e

-- A node that is alive, if the count says that there is one.
pub some_alive :
    (xs : List NodeStatus)
    → 0 < count_alive xs
    → (i : ℕ) × (i < length xs) × (get_elem? xs i ≡ some alive)
some_alive [] h = absurd (omega arith)
some_alive (alive ∷ xs) h = (0, omega arith, refl)
some_alive (killed ∷ xs) h = let (i, lt, e) = some_alive xs (omega arith) in (suc i, omega arith, e)
some_alive (stopped ∷ xs) h =
    let (i, lt, e) = some_alive xs (omega arith) in (suc i, omega arith, e)

count_alive-replicate : (n : ℕ) → count_alive (replicate n alive) ≡ n
count_alive-replicate zero = refl
count_alive-replicate (suc n) = omega (arith, count_alive-replicate n)

-- The numbers are what the statuses say, and the nodes that are alive are a majority.
pub record IsMajority (t : TestMaster) : Type 0 where
  pub counted : t.num_alive_replicas ≡ count_alive t.replica_status
  pub sized : length t.replica_status ≡ t.num_replicas
  pub majority : t.num_replicas < t.num_alive_replicas * 2

pub setup-IsMajority : (n c : ℕ) → 0 < n → IsMajority (setup n c)
setup-IsMajority n c some_nodes = record {
  counted = omega (arith, count_alive-replicate n);
  sized = length-replicate n alive;
  majority = omega arith;
}

pub kill_one-IsMajority :
    (t : TestMaster) (i : ℕ)
    → get_elem? t.replica_status i ≡ some alive
    → t.num_replicas < (t.num_alive_replicas - 1) * 2
    → IsMajority t
    → IsMajority (kill_one i t)
kill_one-IsMajority t i e enough p = record {
  counted = omega (arith, p.counted, count_alive-set t.replica_status i alive killed e);
  sized = omega (arith, p.sized, length-set t.replica_status i killed);
  majority = omega arith;
}

pub stop_one-IsMajority :
    (t : TestMaster) (i : ℕ)
    → get_elem? t.replica_status i ≡ some alive
    → t.num_replicas < (t.num_alive_replicas - 1) * 2
    → IsMajority t
    → IsMajority (stop_one i t)
stop_one-IsMajority t i e enough p = record {
  counted = omega (arith, p.counted, count_alive-set t.replica_status i alive stopped e);
  sized = omega (arith, p.sized, length-set t.replica_status i stopped);
  majority = omega arith;
}

pub resume_one-IsMajority :
    (t : TestMaster) (i : ℕ)
    → get_elem? t.replica_status i ≡ some stopped
    → IsMajority t
    → IsMajority (resume_one i t)
resume_one-IsMajority t i e p = record {
  counted = omega (arith, p.counted, count_alive-set t.replica_status i stopped alive e);
  sized = omega (arith, p.sized, length-set t.replica_status i alive);
  majority = omega (arith, p.majority);
}
