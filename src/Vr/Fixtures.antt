-- ===== src/Vr/Fixtures.antt =====
-- States of replicas for the tests of vr. The commands are numbers.
use go_phat.Prelude.{true, ℕ, none, some, [], ◌∷◌, false, take}
use go_phat.Phatlog.{Log, add, empty_log}
use go_phat.Vr.State.{Globals, Status, normal, VrCommand, GetStateResponse, Replica}
use go_phat.Vr.Exec.{World}
use go_phat.Vr.ViewChange.{fresh_vcstate}

-- Three replicas.
abbrev pub three : Globals
three = record { nreplicas = 3; f = 1 }

abbrev pub cmd : ℕ → VrCommand ℕ
cmd n = record { c = n; done = none }

-- The commands 7 and 8 at the indices 1 and 2.
abbrev pub two_entries : Log (VrCommand ℕ)
two_entries = add 2 (some (cmd 8)) (add 1 (some (cmd 7)) empty_log)

abbrev pub replica : (view me op_number commit_number : ℕ) → Status → Replica ℕ
replica view me op_number commit_number status = record {
  rstate = record {
    view = view;
    op_number = op_number;
    commit_number = commit_number;
    replica_number = me;
    status = status;
    normal_view = 0;
    view_change_msgs = 0;
    timer = 0;
  };
  mstate = record { made = true; highest_op = []; timer = some 0; heartbeats = [] };
  vcstate = fresh_vcstate three;
  rcvstate = record {
    recovery_response_msgs = [];
    recovery_response_replies = 0;
    empty_logs = 0;
    recovery_responses = 0;
    nonce = 5;
  };
  phatlog = some two_entries;
  context = take commit_number (7 ∷ 8 ∷ []);
  snapshot_index = 0;
  is_shutdown = false;
}

abbrev pub world : Replica ℕ → World ℕ
world r = record { replica = r; inbox = []; outbox = []; next_chan = 0 }

-- A replica that has both entries and has run the first command.
abbrev pub follower : World ℕ
follower = world (replica 0 1 2 1 normal)

-- The master's answer to a state transfer: a third entry, 9.
abbrev pub third : GetStateResponse ℕ
third = record {
  view = 0;
  log = some (add 3 (some (cmd 9)) two_entries);
  op_number = 3;
  commit_number = 3;
}

abbrev pub behind : World ℕ
behind = record follower { inbox = third ∷ [] }
