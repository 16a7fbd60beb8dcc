-- ===== src/Vr/ChangeTests.antt =====
-- View changes, recovery, sending and snapshots (vr) on concrete states, and the theorems about them
-- applied to them.
use go_phat.Prelude.{
  suc, zero, ap, sym, has_bit, set_bit, get_elem?, false, ℕ, ◌%◌, ◌==◌, ◌≡◌, refl, Option, none,
  some, List, [], ◌∷◌, Bool, true, has_bit-zero, has_bit-set_bit, arith,
}
use go_phat.Vr.State.{
  recovery, view_change, StartViewChangeArgs, StartViewArgs, DoViewChangeArgs, RecoveryResponse,
}
use go_phat.Vr.Exec.{World, ok, stop, exited, Always}
use go_phat.Vr.Recovery.{handle_recovery_response, fresh_rcvstate, zero_response}
use go_phat.Vr.Recovery.Majority.{IsCounted, IsJustified, handle_recovery_response-IsJustified}
use go_phat.Vr.Send.{Call, replied, failed}
use go_phat.Vr.Snapshot.{take_snapshot, load_snapshot}
use go_phat.Vr.Snapshot.RoundTrip.{load_snapshot-take_snapshot}
use go_phat.Vr.ViewChange.{fresh_vcstate, start_view_change_rpc}
use go_phat.Vr.ViewChange.Master.{Best, zero_best, weigh_all, start_view_rpc}
use go_phat.Vr.ViewChange.Stale.{start_view_rpc-exits}
use go_phat.Vr.ViewChange.Stuck.{IsStuck, start_view_change_rpc-IsStuck}
use go_phat.Vr.Fixtures.{three, two_entries, replica, world, follower, behind}

abbrev view_msg : (rep normal_view op : ℕ) → DoViewChangeArgs ℕ
view_msg rep normal_view op = record {
  view = 3;
  replica_number = rep;
  log = some two_entries;
  normal_view = normal_view;
  op_number = op;
  commit_number = 1;
}

abbrev view_msgs : List (DoViewChangeArgs ℕ)
view_msgs = view_msg 0 2 5 ∷ view_msg 1 2 7 ∷ view_msg 2 1 9 ∷ []

abbrev choosing : World ℕ
choosing = world (record (replica 3 0 2 1 view_change) {
  vcstate = record (fresh_vcstate three) { do_view_change_msgs = view_msgs };
})

abbrev chosen_rep : Option (Best ℕ) → ℕ
chosen_rep none = 99
chosen_rep (some b) = b.best_rep.replica_number

-- The higher normal view wins over the higher op number.
replica_1_wins : chosen_rep (weigh_all 3 view_msgs zero_best) ≡ 1
unfolding weigh_all
replica_1_wins = refl

-- Replica 0 changes to view 3, of which it is the master; one other message has come.
abbrev changing : World ℕ
changing = world (record (replica 3 0 2 1 view_change) {
  vcstate = record (fresh_vcstate three) { do_view_replies = 2; do_views = 1 };
})

abbrev start_change : StartViewChangeArgs
start_change = record { view = 3; replica_number = 1 }

start_view_change_rpc-IsStuck_example :
    Always (IsStuck three) (start_view_change_rpc three start_change changing)
start_view_change_rpc-IsStuck_example =
    start_view_change_rpc-IsStuck three start_change changing refl refl (has_bit-zero 1) refl refl
      refl (omega arith)

abbrev stuck : World ℕ
stuck = world (record (replica 3 0 2 1 view_change) {
  vcstate = record (fresh_vcstate three) { do_view_replies = 3; do_views = 2 };
})

abbrev old_view : StartViewArgs ℕ
old_view = record { view = 0; log = none; op_number = 0; commit_number = 0 }

start_view_rpc-exits_example :
    start_view_rpc three 10 old_view follower
    ≡ stop exited (record follower {
      replica = record (follower.replica) {
        phatlog = none;
        rstate = record (follower.replica.rstate) { op_number = 0; view = 0 };
      };
    })
start_view_rpc-exits_example = start_view_rpc-exits three 10 old_view follower (omega arith)

abbrev response_of : (from : ℕ) → RecoveryResponse ℕ
response_of from = record {
  view = 0;
  nonce = 5;
  log = some two_entries;
  snapshot = [];
  op_number = 2;
  commit_number = 2;
  replica_number = from;
  normal = true;
}

-- Replica 1 recovers; the master has answered before, and replica 2 answers.
abbrev recovering : World ℕ
recovering = world (record (replica 0 1 0 0 recovery) {
  rcvstate = record (fresh_rcvstate three) {
    recovery_response_msgs = response_of 0 ∷ zero_response ∷ zero_response ∷ [];
    recovery_response_replies = set_bit 0 0;
    recovery_responses = 1;
    nonce = 5;
  };
})

recovering-unseen :
    (i : ℕ) (m : RecoveryResponse ℕ)
    → has_bit (set_bit 0 0) i ≡ false
    → get_elem? recovering.replica.rcvstate.recovery_response_msgs i ≡ some m
    → m.normal ≡ false
recovering-unseen zero m new at =
    let seen = has_bit-set_bit 0 0 0 (omega arith) in absurd (ground (arith, seen))
recovering-unseen (suc zero) m new at =
    let e : zero_response ≡ m = cc in ap (λ (x : RecoveryResponse ℕ). x.normal) (sym e)
recovering-unseen (suc (suc zero)) m new at =
    let e : zero_response ≡ m = cc in ap (λ (x : RecoveryResponse ℕ). x.normal) (sym e)
recovering-unseen (suc (suc (suc i))) m new at = cc

recovering-IsCounted : IsCounted recovering
recovering-IsCounted = record { counted = omega arith; unseen = recovering-unseen }

handle_recovery_response-IsJustified_example :
    Always
      (IsJustified three (response_of 2) recovering)
      (handle_recovery_response three (response_of 2) recovering)
handle_recovery_response-IsJustified_example =
    handle_recovery_response-IsJustified three (response_of 2) recovering (omega arith) refl
      recovering-IsCounted

-- The handler is content with an even reply.
abbrev is_even : ℕ → Bool
is_even n = n % 2 == 0

abbrev calls : List (Call ℕ)
calls = replied 0 0 3 ∷ failed 1 0 ∷ replied 1 1 4 ∷ replied 2 0 6 ∷ []

abbrev copy_context : List ℕ → ℕ → Option (List ℕ × ℕ)
copy_context context index = some (context, index)

load_snapshot-take_snapshot_example :
    (file : List ℕ) × (take_snapshot copy_context true follower
      ≡ ok
          (some file)
          (record follower { replica = record (follower.replica) { snapshot_index = 1 } }))
    × (load_snapshot (λ bytes context. bytes) file behind
        ≡ ok tt (record behind {
          replica = record (behind.replica) {
            context = 7 ∷ [];
            snapshot_index = 1;
            rstate = record (behind.replica.rstate) { op_number = 1; commit_number = 1 };
          };
        }))
load_snapshot-take_snapshot_example =
    load_snapshot-take_snapshot copy_context (λ bytes context. bytes) follower behind (7 ∷ []) 1
      (omega arith) refl (omega arith)
