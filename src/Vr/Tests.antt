-- ===== src/Vr/Tests.antt =====
-- Runs of the normal operation of a replica (vr) on concrete states, and the theorems about it
-- applied to them.
use go_phat.Prelude.{ℕ, ◌≡◌, refl, ◌<◌, ◌≤◌, some, [], ◌∷◌, true, false, get_elem?, arith}
use go_phat.Prelude.Assoc.{lookup, insert}
use go_phat.Phatlog.{get_command, add}
use go_phat.Vr.State.{Globals, normal, PrepareArgs, PrepareReply, CommitArgs}
use go_phat.Vr.Exec.{World, ok, Always}
use go_phat.Vr.Commit.{do_commit}
use go_phat.Vr.Commit.CatchUp.{Holds, after, effects_from, do_commit-catch_up}
use go_phat.Vr.Commit.Fuel.{Ends, do_commit-Ends}
use go_phat.Vr.Coherence.{IsCoherent, Fits}
use go_phat.Vr.Coherence.Steps.{prepare_rpc-IsCoherent, commit_rpc-IsCoherent}
use go_phat.Vr.Lease.{is_master}
use go_phat.Vr.Normal.{
  globals, prepare_rpc, commit_rpc, calc_highest_majority_op, handle_prepare_ok,
}
use go_phat.Vr.Normal.Quorum.{
  acknowledged, calc_highest_majority_op-is_highest, IsBacked, handle_prepare_ok-IsBacked,
}
use go_phat.Vr.Normal.Majorities.{quorums-meet}
use go_phat.Vr.Fixtures.{three, cmd, two_entries, replica, world, follower, behind}

two_entries-Holds : Holds two_entries 1 (cmd 7 ∷ cmd 8 ∷ [])
unfolding get_command add lookup insert
two_entries-Holds = (refl, (refl, tt))

do_commit-catch_up_example :
    do_commit three 2 follower ≡ ok tt (after 2 (8 ∷ []) (effects_from 2 (cmd 8 ∷ [])) follower)
do_commit-catch_up_example =
    do_commit-catch_up three 2 follower two_entries (cmd 8 ∷ []) (omega arith) (omega arith)
      (omega arith) refl refl two_entries-Holds.1

do_commit-Ends_example : Ends three (do_commit three 3 behind)
do_commit-Ends_example = do_commit-Ends three 3 behind (omega arith) (omega arith, tt)

third-Holds : Holds (add 3 (some (cmd 9)) two_entries) 1 (cmd 7 ∷ cmd 8 ∷ cmd 9 ∷ [])
unfolding get_command add lookup insert
third-Holds = (refl, (refl, (refl, tt)))

abbrev behind-Fits : Fits behind
behind-Fits = record {
  coherent = record {
    log = two_entries;
    entries = cmd 7 ∷ cmd 8 ∷ [];
    has_log = refl;
    holds = two_entries-Holds;
    full = refl;
    behind = omega arith;
    executed = refl;
  };
  incoming = (
    add 3 (some (cmd 9)) two_entries,
    cmd 7 ∷ cmd 8 ∷ cmd 9 ∷ [],
    9 ∷ [],
    refl,
    third-Holds,
    refl,
    refl,
    tt,
  );
}

-- The `Prepare` of op 4, of which op 3 is missing.
abbrev fourth_prepare : PrepareArgs ℕ
fourth_prepare = record { view = 0; command = cmd 10; op_number = 4; commit_number = 3 }

prepare_rpc-IsCoherent_example : Always IsCoherent (prepare_rpc three 10 5 fourth_prepare behind)
prepare_rpc-IsCoherent_example =
    prepare_rpc-IsCoherent three 10 5 fourth_prepare behind behind-Fits (omega arith)
      (λ next. absurd (omega arith))

abbrev third_commit : CommitArgs
third_commit = record { view = 0; commit_number = 3 }

commit_rpc-IsCoherent_example : Always IsCoherent (commit_rpc three 10 5 third_commit behind)
commit_rpc-IsCoherent_example = commit_rpc-IsCoherent three 10 5 third_commit behind behind-Fits

-- Replica 0 is the master of view 0.
abbrev master : World ℕ
master = world (replica 0 0 2 1 normal)

abbrev master-IsCoherent : IsCoherent master
master-IsCoherent = record {
  log = two_entries;
  entries = cmd 7 ∷ cmd 8 ∷ [];
  has_log = refl;
  holds = two_entries-Holds;
  full = refl;
  behind = omega arith;
  executed = refl;
}

-- An answer of replica 1 to the master's `Prepare` of op 2.
abbrev prepare_ok : PrepareReply
prepare_ok = record { view = 0; op_number = 2; replica_number = 1; lease = 100 }

handle_prepare_ok-IsBacked_example :
    Always (IsBacked three prepare_ok master) (handle_prepare_ok three 10 prepare_ok master)
handle_prepare_ok-IsBacked_example = handle_prepare_ok-IsBacked three 10 prepare_ok master

-- Replica 1 has acknowledged op 2, replica 2 op 1.
abbrev acknowledging : World ℕ
acknowledging = record master {
  replica = record (master.replica) {
    mstate = record (master.replica.mstate) { highest_op = (1, 2) ∷ (2, 1) ∷ [] };
  };
}

master-is_master : is_master three acknowledging.replica ≡ true
unfolding is_master
master-is_master = refl

calc_highest_majority_op-is_highest_example :
    (m : ℕ) × (calc_highest_majority_op three acknowledging ≡ ok m acknowledging)
    × (1 ≤ acknowledged m acknowledging.replica)
    × ((k : ℕ) → m < k → acknowledged k acknowledging.replica < 1)
calc_highest_majority_op-is_highest_example =
    calc_highest_majority_op-is_highest three acknowledging master-is_master (omega arith)
      (omega arith)

-- One replica alone.
abbrev one : Globals
one = record { nreplicas = 1; f = 0 }

one-is_master : is_master one master.replica ≡ true
unfolding is_master
one-is_master = refl

quorums-meet_example :
    (i : ℕ) × (get_elem? (true ∷ true ∷ false ∷ []) i ≡ some true)
    × (get_elem? (false ∷ true ∷ true ∷ []) i ≡ some true)
unfolding globals
quorums-meet_example =
    quorums-meet 3 (true ∷ true ∷ false ∷ []) (false ∷ true ∷ true ∷ []) refl (omega arith) refl
      refl (omega arith) (omega arith)
