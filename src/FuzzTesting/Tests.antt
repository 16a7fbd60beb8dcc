-- ===== src/FuzzTesting/Tests.antt =====
-- The test master (fuzz_testing/test_master.go) on five nodes.
use go_phat.Prelude.{ℕ, str_eq, if◌then◌else◌, ◌≡◌, ◌↔◌, refl, String, true, List, [], ◌∷◌, arith}
use go_phat.FuzzTesting.Hashes.{AllHave, ensure_equal_hash_iff}
use go_phat.FuzzTesting.{
  NodeStatus, panics, ensure_equal_hash, alive, killed, TestMaster, returns, setup, stop, kill,
  continue, kill_node, stop_node, resume_all, startnodes, stopnode, resumenode, wait, createfile,
  stopped, process_call, resume_node, resume_from, sufficient_replicas, kill_from, stop_from,
  resume_all_from, stop_one,
}
use go_phat.FuzzTesting.Count.{IsMajority, setup-IsMajority}
use go_phat.FuzzTesting.Majority.{Ends}
use go_phat.FuzzTesting.Kill.{IsBare, kill_node-Ends}
use go_phat.FuzzTesting.Resume.{IsResumed, run_test-Ends}
use go_phat.FuzzTesting.Scripts.{process_line, run_file, run_test, test_two_master_failure}

abbrev five : TestMaster
five = setup 5 1

five-IsMajority : IsMajority five
five-IsMajority = setup-IsMajority 5 1 (omega arith)

kill_node-Ends_example : Ends IsBare (kill_node 4 five)
kill_node-Ends_example = kill_node-Ends five 4 five-IsMajority (omega arith)

-- The test of a replica that fails.
run_test-Ends_example : Ends IsResumed (run_test "1r" [] five)
run_test-Ends_example =
    run_test-Ends "1r" []
      (createfile ∷ wait 1000 ∷ stopnode 2 ∷ createfile ∷ resumenode 2 ∷ createfile ∷ []) 3 1 five
      refl (omega arith)
      (omega arith, (tt, (omega arith, (omega arith, (omega arith, (omega arith, tt))))))

-- A third stop would leave no majority and does nothing; a resume goes on to the first node stopped.
two_stopped :
    run_file (startnodes 5 1 ∷ stopnode 2 ∷ stopnode 2 ∷ stopnode 2 ∷ resumenode 0 ∷ []) five
    ≡ returns (record (setup 5 1) {
      num_alive_replicas = 4;
      replica_status = alive ∷ alive ∷ alive ∷ stopped ∷ alive ∷ [];
      signals = (2, stop) ∷ (3, stop) ∷ (2, continue) ∷ [];
    })
unfolding run_file process_call stop_node stop_from resume_node resume_from sufficient_replicas
two_stopped = refl

-- The test of two masters that fail leaves the first of them stopped, for main to resume.
master_stopped :
    run_file test_two_master_failure five
    ≡ returns (record (setup 5 1) {
      num_alive_replicas = 4;
      replica_status = alive ∷ stopped ∷ alive ∷ alive ∷ alive ∷ [];
      requests = "CREATE" ∷ "CREATE" ∷ "CREATE" ∷ "CREATE" ∷ "CREATE" ∷ [];
      signals = (1, stop) ∷ (2, stop) ∷ (2, continue) ∷ [];
    })
unfolding run_file process_call stop_node stop_from resume_node resume_from sufficient_replicas
master_stopped = refl

-- A kill takes two of five nodes, round the end of the list.
killed_two :
    kill_node 4 five
    ≡ returns (record five {
      num_alive_replicas = 3;
      replica_status = killed ∷ alive ∷ alive ∷ alive ∷ killed ∷ [];
      signals = (4, kill) ∷ (0, kill) ∷ [];
    })
unfolding kill_node kill_from sufficient_replicas
killed_two = refl

-- A stop takes one.
stopped_one : stop_node 4 five ≡ returns (stop_one 4 five)
unfolding stop_node stop_from sufficient_replicas
stopped_one = refl

resumed :
    resume_all (stop_one 4 (stop_one 1 five))
    ≡ record five { signals = (1, stop) ∷ (4, stop) ∷ (1, continue) ∷ (4, continue) ∷ [] }
unfolding resume_all resume_all_from
resumed = refl

abbrev answers : List (NodeStatus × String)
answers = (alive, "h") ∷ (killed, "g") ∷ (alive, "h") ∷ []

ensure_equal_hash_iff_example :
    (ensure_equal_hash answers ≡ true) ↔ ((e : String) × AllHave e answers)
ensure_equal_hash_iff_example = ensure_equal_hash_iff answers (refl, (refl, (refl, tt)))

abbrev one_digit : String → ℕ
one_digit s = if str_eq s "2" then 2 else if str_eq s "3" then 3 else 0

-- The line "stopnode 2", and a "startnodes" that lacks its second number.
read_lines :
    (process_line one_digit ("stopnode" ∷ "2" ∷ []) five ≡ stop_node 2 five)
    × (process_line one_digit ("startnodes" ∷ "3" ∷ []) five ≡ panics)
unfolding process_line process_call
read_lines = (refl, refl)
