-- ===== src/Queuerpc/Sends.antt =====
-- What `Send` does with a command (queueRPC/queueRPC.go, vr/vr.go).
use go_phat.Prelude.{
  ℕ, suc, ◌+◌, ◌%◌, ◌<◌, ◌≡◌, ◌≢◌, refl, some, List, [], ◌∷◌, ◌++◌, true, false, u64, u64_mod, ◌==◌,
  ==_iff, arith,
}
use go_phat.Phatlog.{Log, add, get_command}
use go_phat.Phatlog.Entries.{get_command-add}
use go_phat.Vr.State.{Globals, VrCommand, normal, Message, prepare, send as sends}
use go_phat.Vr.Exec.{World, ok}
use go_phat.Vr.Commit.{is_normal}
use go_phat.Vr.Send.{others}
use go_phat.Vr.Normal.{append_op, run_vr}
use go_phat.Vr.Lease.{is_master, get_master_id}
use go_phat.Queuerpc.{
  QCommandWithChannel, ClientCommand, replicated, queued, check_state, send, send_checked,
  replicate_or_queue,
}

-- The command of a request with the channel on which its response comes.
abbrev pub sent_command : ClientCommand → ℕ → QCommandWithChannel
sent_command args ch = record { cmd = args.command; done = some ch }

-- What the log has for it, with the channel on which `RunVR` waits.
abbrev pub sent_entry : ClientCommand → ℕ → VrCommand QCommandWithChannel
sent_entry args ch = record { c = sent_command args ch; done = some (suc ch) }

abbrev pub the_others : Globals → World QCommandWithChannel → List ℕ
the_others g w = others g.nreplicas w.replica.rstate.replica_number

abbrev pub the_prepare : ClientCommand → World QCommandWithChannel → Message QCommandWithChannel
the_prepare args w = prepare (record {
  view = w.replica.rstate.view;
  command = sent_entry args w.next_chan;
  op_number = w.replica.rstate.op_number + 1;
  commit_number = w.replica.rstate.commit_number;
})

-- The command is one more entry of the log, asked of all the others; what was run and committed is as
-- before.
pub record IsSent (g : Globals) (args : ClientCommand) (w v : World QCommandWithChannel)
    : Type 0 where
  pub log : Log (VrCommand QCommandWithChannel)
  pub has_log : v.replica.phatlog ≡ some log
  pub op_number : v.replica.rstate.op_number ≡ w.replica.rstate.op_number + 1
  pub entry : get_command log (w.replica.rstate.op_number + 1) ≡ some (sent_entry args w.next_chan)
  pub others_kept :
      (l : Log (VrCommand QCommandWithChannel)) (i : ℕ)
      → w.replica.phatlog ≡ some l
      → i ≢ w.replica.rstate.op_number + 1
      → get_command log i ≡ get_command l i
  pub asked : v.outbox ≡ w.outbox ++ sends (the_others g w) (the_prepare args w) ∷ []
  pub committed : v.replica.rstate.commit_number ≡ w.replica.rstate.commit_number
  pub ran : v.replica.context ≡ w.replica.context

abbrev after_send :
    Globals
    → ClientCommand
    → Log (VrCommand QCommandWithChannel)
    → World QCommandWithChannel
    → World QCommandWithChannel
after_send g args l w = record w {
  replica = record (w.replica) {
    phatlog = some (add (w.replica.rstate.op_number + 1) (some (sent_entry args w.next_chan)) l);
    rstate = record (w.replica.rstate) { op_number = w.replica.rstate.op_number + 1 };
  };
  outbox = w.outbox ++ sends (the_others g w) (the_prepare args w) ∷ [];
  next_chan = suc (suc w.next_chan);
}

-- `Send` on a master in normal mode that is not shut down: with replication, the command goes into the
-- log under the next op number and to all the other replicas, and nothing is run yet; without, it goes
-- to the queue on disk, and the replica is as before. The op number is not the last 64-bit number.
pub send-IsSent :
    (g : Globals) (args : ClientCommand) (w : World QCommandWithChannel)
    (l : Log (VrCommand QCommandWithChannel))
    → w.replica.rstate.status ≡ normal
    → w.replica.rstate.replica_number ≡ w.replica.rstate.view % g.nreplicas
    → w.replica.is_shutdown ≡ false
    → w.replica.phatlog ≡ some l
    → w.replica.rstate.op_number + 1 < u64_mod
    → ((v : World QCommandWithChannel) × (send g true args w
          ≡ ok (replicated w.next_chan (some (suc w.next_chan))) v)
        × IsSent g args w v)
      × (send g false args w
          ≡ ok (queued (sent_command args w.next_chan)) (record w { next_chan = suc w.next_chan }))
unfolding send send_checked replicate_or_queue check_state get_master_id run_vr append_op is_master
send-IsSent g args w l up self running has_log lt =
    let r = w.replica.rstate in
    let on : is_normal r.status ≡ true = rw up refl in
    let me : (r.replica_number == r.view % g.nreplicas) ≡ true = (==_iff _ _).1 self in
    let me' : (r.view % g.nreplicas == r.replica_number) ≡ true = ground arith in
    let next : u64 (r.op_number + 1) ≡ r.op_number + 1 = omega arith in
    let n = r.op_number + 1 in
    let entry = sent_entry args w.next_chan in
    let itself : (n == n) ≡ true = (==_iff n n).1 refl in
    (
      (
        after_send g args l w,
        simp (on, me, me', running, has_log, next, send, run_vr) refl,
        record {
          log = add n (some entry) l;
          has_log = refl;
          op_number = refl;
          entry = rw (get_command-add, itself) refl;
          others_kept = λ l' i there away.
              let same : l' ≡ l = ground (arith, there, has_log) in
              let other : (n == i) ≡ false = ground (arith, away) in
              rw (get_command-add, other, same) refl;
          asked = refl;
          committed = refl;
          ran = refl;
        },
      ),
      simp (on, me, send) refl,
    )
