-- ===== src/Client/Cluster.antt =====
-- A client of replicas that answer with their own master (client/client.go, phatRPC/phatRPC.go).
use go_phat.Prelude.{
  ℕ, ◌%◌, ◌<◌, ◌≡◌, String, Option, none, some, List, Bool-cases, inl, inr, length, arith,
}
use go_phat.Vr.State.{Globals, Replica}
use go_phat.Vr.Commit.{is_normal}
use go_phat.Vr.Lease.{get_master_id}
use go_phat.Phatdb.Server.{DbCommand}
use go_phat.Phatrpc.{get_master}
use go_phat.Client.{Network, Answer, timed_out, errored, master_is, ClientWorld, connect_to_master}
use go_phat.Client.Master.{Returns, IsConnected, connect_to_master-IsConnected}

-- The answer of a replica, or of none that can be reached.
unfoldable pub answer_of : Globals → Option (Replica DbCommand) → Answer
answer_of g none = timed_out
answer_of g (some r) = elim (get_master g r) [
  | none ↦ errored "Master Failover"
  | some m ↦ master_is m
]

-- At each time there is some replica behind an address, or none; each may be in any state.
abbrev pub cluster :
    Globals → (ℕ → String → Option String) → (ℕ → String → Option (Replica DbCommand)) → Network
cluster g dials replicas = record {
  dial = dials;
  get_master = λ t address. answer_of g (replicas t address);
}

answer_of-lt :
    (g : Globals) (r : Option (Replica DbCommand)) (m : ℕ)
    → 0 < g.nreplicas
    → answer_of g r ≡ master_is m
    → m < g.nreplicas
unfolding answer_of get_master get_master_id
answer_of-lt g none m few e = ground arith
answer_of-lt g (some r) m few e = elim (Bool-cases (is_normal r.rstate.status)) [
  | inr failover ↦ let answer = rw (failover, answer_of) at e in ground arith
  | inl normal ↦
      let answer : master_is (r.rstate.view % g.nreplicas) ≡ master_is m =
        simp (normal, answer_of, get_master, get_master_id) at e in
      let same : r.rstate.view % g.nreplicas ≡ m = cc in omega arith
]

-- A client of a cluster of replicas, whatever states these are in at each time and whichever can be
-- reached: `ConnectToMaster` leaves it connected to one of them, without a number out of range, and
-- with no error it is the one that the client takes for the master.
pub connect_to_master-reaches :
    (g : Globals) (dials : ℕ → String → Option String)
    (replicas : ℕ → String → Option (Replica DbCommand)) (servers : List String) (w : ClientWorld)
    → length servers ≡ g.nreplicas
    → IsConnected servers w
    → Returns
        (λ e v. IsConnected servers v × (e ≡ none → v.client.id ≡ v.client.master_id))
        (connect_to_master (cluster g dials replicas) w)
connect_to_master-reaches g dials replicas servers w sized p =
    connect_to_master-IsConnected (cluster g dials replicas) servers
      (λ t a m e.
        let lt : m < g.nreplicas =
          answer_of-lt g (replicas t a) m (omega (arith, sized, p.id_is_server)) e in
        omega arith)
      w p
