-- ===== src/Vr/Normal/SmallCluster.antt =====
-- Clusters of one or two replicas, where F is 0 (vr/vr.go, vr/lease.go): the index into the sorted
-- heartbeats is their number.
use go_phat.Prelude.{
  Bool-cases, inl, inr, ℕ, ◌-◌, ◌≡◌, refl, none, List, [], ◌∷◌, true, false, ltb, ◌==◌, ==_iff,
  length, get_elem?, nat_eq, arith,
}
use go_phat.Prelude.Assoc.{insert}
use go_phat.Vr.State.{Globals, PrepareReply}
use go_phat.Vr.Exec.{World, stop, panicked}
use go_phat.Vr.Lease.{is_master, heartbeat, sort_times}
use go_phat.Vr.Normal.{handle_prepare_ok}

get_elem?-length : (xs : List ℕ) → get_elem? xs (length xs) ≡ none
get_elem?-length [] = refl
get_elem?-length (x ∷ xs) = get_elem?-length xs

module _ {C : Type 0} where
  -- With F = 0 a master that gets an answer to a `Prepare` in its view panics.
  pub handle_prepare_ok-panics :
      (g : Globals) (now : ℕ) (reply : PrepareReply) (w : World C)
      → g.f ≡ 0
      → is_master g w.replica ≡ true
      → reply.view ≡ w.replica.rstate.view
      → (v : World C) × (handle_prepare_ok g now reply w ≡ stop panicked v)
  unfolding handle_prepare_ok heartbeat
  handle_prepare_ok-panics g now reply w f0 master view =
      let hb = insert reply.replica_number reply.lease w.replica.mstate.heartbeats in
      let same : (reply.view == w.replica.rstate.view) ≡ true = (==_iff _ _).1 view in
      let enough : ltb (length (sort_times hb)) g.f ≡ false = ground arith in
      let last : length (sort_times hb) - g.f ≡ length (sort_times hb) = omega arith in
      elim (Bool-cases w.replica.mstate.made) [
        | inr unmade ↦ (w, simp (master, same, unmade, handle_prepare_ok, heartbeat) refl)
        | inl made ↦ (
          record w {
            replica = record (w.replica) { mstate = record (w.replica.mstate) { heartbeats = hb } };
          },
          simp (master, same, made, enough, last, get_elem?-length, handle_prepare_ok, heartbeat)
              refl,
        )
      ]
