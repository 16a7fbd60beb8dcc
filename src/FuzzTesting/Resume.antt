-- ===== src/FuzzTesting/Resume.antt =====
-- `ResumeAll`, and main up to its checks (fuzz_testing/test_master.go).
use go_phat.Prelude.{
  ℕ, suc, ◌<◌, ◌≡◌, refl, sym, ap, ◌∙◌, String, some, List, [], ◌∷◌, ◌++◌, Bool, true, false,
  length, map, get_elem?, set, count_if, arith,
}
use go_phat.FuzzTesting.{
  NodeStatus, alive, killed, stopped, TestMaster, Run, returns, panics, out_of_fuel,
  resume_if_stopped, resume_all, resume_all_from, Command, startnodes,
}
use go_phat.FuzzTesting.Count.{IsMajority, resume_one-IsMajority}
use go_phat.FuzzTesting.Majority.{Ends}
use go_phat.FuzzTesting.Kept.{AreValid, run_file-Ends}
use go_phat.FuzzTesting.Scripts.{and_then, run_file, script_of, run_test}

abbrev resumed : NodeStatus → NodeStatus
resumed alive = alive
resumed killed = killed
resumed stopped = alive

abbrev is_stopped : NodeStatus → Bool
is_stopped alive = false
is_stopped killed = false
is_stopped stopped = true

-- No node is stopped, and the nodes alive are a majority.
abbrev pub IsResumed : TestMaster → Type 0
IsResumed t = IsMajority t × (count_if is_stopped t.replica_status ≡ 0)

get_elem?-behind :
    (done : List NodeStatus) (x : NodeStatus) (rest : List NodeStatus)
    → get_elem? (done ++ x ∷ rest) (length done) ≡ some x
get_elem?-behind [] x rest = refl
get_elem?-behind (y ∷ done) x rest = get_elem?-behind done x rest

set-behind :
    (done : List NodeStatus) (x y : NodeStatus) (rest : List NodeStatus)
    → set (done ++ x ∷ rest) (length done) y ≡ done ++ y ∷ rest
set-behind [] x y rest = refl
set-behind (z ∷ done) x y rest = ap (λ zs. z ∷ zs) (set-behind done x y rest)

snoc-cons :
    (done : List NodeStatus) (x : NodeStatus) (rest : List NodeStatus)
    → done ++ x ∷ rest ≡ (done ++ x ∷ []) ++ rest
snoc-cons [] x rest = refl
snoc-cons (y ∷ done) x rest = ap (λ zs. y ∷ zs) (snoc-cons done x rest)

length-snoc :
    (done : List NodeStatus) (x : NodeStatus) → length (done ++ x ∷ []) ≡ suc (length done)
length-snoc [] x = refl
length-snoc (y ∷ done) x = ap suc (length-snoc done x)

none_stopped : (xs : List NodeStatus) → count_if is_stopped (map resumed xs) ≡ 0
none_stopped [] = refl
none_stopped (alive ∷ xs) = omega (arith, none_stopped xs)
none_stopped (killed ∷ xs) = omega (arith, none_stopped xs)
none_stopped (stopped ∷ xs) = omega (arith, none_stopped xs)

-- What the loop leaves behind the nodes it has seen.
abbrev IsThrough : List NodeStatus → TestMaster → Type 0
IsThrough xs t = IsMajority t × (t.replica_status ≡ xs)

resume_if_stopped-IsThrough :
    (done : List NodeStatus) (x : NodeStatus) (rest : List NodeStatus) (t : TestMaster)
    → IsThrough (done ++ x ∷ rest) t
    → IsThrough (done ++ resumed x ∷ rest) (resume_if_stopped x (length done) t)
resume_if_stopped-IsThrough done alive rest t p = p
resume_if_stopped-IsThrough done killed rest t p = p
resume_if_stopped-IsThrough done stopped rest t p =
    let here = ap (λ xs. get_elem? xs (length done)) p.1 ∙ get_elem?-behind done stopped rest in
    (
      resume_one-IsMajority t (length done) here p.0,
      ap (λ xs. set xs (length done) alive) p.1 ∙ set-behind done stopped alive rest,
    )

resume_all_from-lem :
    (rest done : List NodeStatus) (node : ℕ) (t : TestMaster)
    → length done ≡ node
    → IsThrough (done ++ rest) t
    → IsThrough (done ++ map resumed rest) (resume_all_from node rest t)
unfolding resume_all_from
resume_all_from-lem [] done node t e p = p
resume_all_from-lem (x ∷ rest) done node t e p =
    let q = resume_if_stopped-IsThrough done x rest t p in
    let t' = resume_if_stopped x node t in
    let q' : IsThrough ((done ++ resumed x ∷ []) ++ rest) t' =
      rw (sym (snoc-cons done (resumed x) rest), sym e) q in
    rw (snoc-cons done (resumed x) (map resumed rest)) (
      resume_all_from-lem rest (done ++ resumed x ∷ []) (suc node) t'
        (length-snoc done (resumed x) ∙ ap suc e) q')

-- Behind `ResumeAll` no node is stopped, those that were are alive and those that were killed are not,
-- and the number of the nodes alive is right.
resume_all-IsResumed : (t : TestMaster) → IsMajority t → IsResumed (resume_all t)
unfolding resume_all
resume_all-IsResumed t p =
    let q = resume_all_from-lem t.replica_status [] 0 t refl (p, refl) in
    (q.0, ap (count_if is_stopped) q.1 ∙ none_stopped t.replica_status)

on_end : (r : Run) → Ends IsMajority r → Ends IsResumed (and_then r (λ t'. returns (resume_all t')))
on_end (returns t) p = resume_all-IsResumed t p
on_end panics p = p
on_end out_of_fuel p = p

-- If the script that is chosen starts some nodes and is valid for them, then main comes to its checks:
-- no node is stopped then, a majority of the nodes is alive and their number is right.
pub run_test-Ends :
    (testtype : String) (lines rest : List Command) (n c : ℕ) (t : TestMaster)
    → script_of testtype lines ≡ startnodes n c ∷ rest
    → 0 < n
    → AreValid rest n c
    → Ends IsResumed (run_test testtype lines t)
unfolding run_test
run_test-Ends testtype lines rest n c t chosen some_nodes valid =
    rw chosen
      (on_end (run_file (startnodes n c ∷ rest) t) (run_file-Ends n c rest t some_nodes valid))
