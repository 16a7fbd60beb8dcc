-- ===== src/FuzzTesting/Scripts.antt =====
-- The scripts of the fuzz tests (fuzz_testing/basic_tests.go), the loop over the commands of a script
-- and what main does with the nodes (fuzz_testing/test_master.go). The check of the data that the
-- clients created is left out, as are the times that main waits.
use go_phat.Prelude.{ℕ, String, str_eq, List, [], ◌∷◌, if◌then◌else◌}
use go_phat.FuzzTesting.{
  TestMaster, Run, returns, panics, out_of_fuel, Command, startnodes, stopnode, resumenode, wait,
  createfile, process_call, resume_all,
}

abbrev pub test_replica_failure : List Command
test_replica_failure =
    startnodes 3 1
    ∷ createfile
    ∷ wait 1000
    ∷ stopnode 2
    ∷ createfile
    ∷ resumenode 2
    ∷ createfile
    ∷ []

abbrev pub test_two_replica_failure : List Command
test_two_replica_failure =
    startnodes 5 1
    ∷ createfile
    ∷ wait 1000
    ∷ stopnode 2
    ∷ createfile
    ∷ createfile
    ∷ stopnode 0
    ∷ resumenode 2
    ∷ createfile
    ∷ resumenode 0
    ∷ []

abbrev pub test_master_failure : List Command
test_master_failure =
    startnodes 3 1
    ∷ createfile
    ∷ wait 1000
    ∷ stopnode 1
    ∷ createfile
    ∷ resumenode 1
    ∷ createfile
    ∷ []

abbrev pub test_two_master_failure : List Command
test_two_master_failure =
    startnodes 5 1
    ∷ createfile
    ∷ wait 100
    ∷ stopnode 1
    ∷ wait 100
    ∷ createfile
    ∷ wait 300
    ∷ stopnode 2
    ∷ wait 100
    ∷ createfile
    ∷ createfile
    ∷ wait 300
    ∷ resumenode 2
    ∷ createfile
    ∷ wait 200
    ∷ []

abbrev pub test_double_master_failure : List Command
test_double_master_failure =
    startnodes 5 1
    ∷ createfile
    ∷ stopnode 1
    ∷ stopnode 2
    ∷ createfile
    ∷ wait 500
    ∷ createfile
    ∷ resumenode 2
    ∷ createfile
    ∷ wait 100
    ∷ resumenode 1
    ∷ createfile
    ∷ []

abbrev pub test_cascading_master_failure : List Command
test_cascading_master_failure =
    startnodes 5 1
    ∷ stopnode 1
    ∷ createfile
    ∷ wait 3000
    ∷ resumenode 1
    ∷ stopnode 2
    ∷ createfile
    ∷ wait 3000
    ∷ resumenode 2
    ∷ stopnode 3
    ∷ createfile
    ∷ wait 3000
    ∷ resumenode 3
    ∷ stopnode 4
    ∷ createfile
    ∷ wait 3000
    ∷ resumenode 4
    ∷ createfile
    ∷ []

abbrev pub test_lots_of_replicas : List Command
test_lots_of_replicas = startnodes 5 1 ∷ createfile ∷ createfile ∷ createfile ∷ wait 4 ∷ []

-- The command that `ProcessCall` makes of the words of a line, where `atoi` stands for the number that
-- `strconv.Atoi` returns; its error is dropped, A
-- word that is missing panics; a line with another first word does nothing.
unfoldable pub process_line : (atoi : String → ℕ) → List String → TestMaster → Run
unfolding process_call
process_line atoi [] t = panics
process_line atoi (word ∷ []) t =
    if str_eq word "createfile"
    then process_call createfile t
    else if str_eq word "startnodes"
    then panics
    else if str_eq word "stopnode"
    then panics
    else if str_eq word "resumenode"
    then panics
    else if str_eq word "wait"
    then panics
    else returns t
process_line atoi (word ∷ first ∷ rest) t =
    if str_eq word "startnodes"
    then start_nodes rest
    else if str_eq word "stopnode"
    then process_call (stopnode (atoi first)) t
    else if str_eq word "resumenode"
    then process_call (resumenode (atoi first)) t
    else if str_eq word "wait"
    then process_call (wait (atoi first)) t
    else if str_eq word "createfile"
    then process_call createfile t
    else returns t
  where
    start_nodes : List String → Run
    start_nodes [] = panics
    start_nodes (second ∷ more) = process_call (startnodes (atoi first) (atoi second)) t

abbrev pub and_then : Run → (TestMaster → Run) → Run
and_then (returns t) on = on t
and_then panics on = panics
and_then out_of_fuel on = out_of_fuel

-- The loop of `runFile` over the lines of a file, and the calls of a script.
unfoldable pub run_file : List Command → TestMaster → Run
unfolding process_call
run_file [] t = returns t
run_file (command ∷ rest) t = and_then (process_call command t) (run_file rest)

-- The script that main runs for the name of a test; without one, it is the file that is given, and
-- no line if no file is. Two of the scripts have no name.
abbrev pub script_of : (testtype : String) → (lines : List Command) → List Command
script_of testtype lines =
    if str_eq testtype "none"
    then lines
    else if str_eq testtype "1r"
    then test_replica_failure
    else if str_eq testtype "1m"
    then test_master_failure
    else if str_eq testtype "2m_o"
    then test_two_master_failure
    else if str_eq testtype "2m_s"
    then test_double_master_failure
    else if str_eq testtype "cmf"
    then test_cascading_master_failure
    else []

-- Main up to the checks: the script, and then the nodes that are stopped go on.
unfoldable pub run_test : (testtype : String) → (lines : List Command) → TestMaster → Run
unfolding run_file resume_all
run_test testtype lines t =
    and_then (run_file (script_of testtype lines) t) (λ t'. returns (resume_all t'))
