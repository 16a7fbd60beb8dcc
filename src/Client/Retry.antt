-- ===== src/Client/Retry.antt =====
-- What retries do: the servers that are asked for the master, and the calls that are sent again
-- (client/client.go).
use go_phat.Prelude.{ℕ, suc, ◌≡◌, ◌≢◌, refl, String, none, some, List, [], ◌∷◌, ◌++◌, false}
use go_phat.Client.{
  Network, Answer, timed_out, errored, master_is, Call, ClientWorld, returns, tick, dialled,
  dial_address, connect_to_server, heard, ask, go_via, search, go_to_master, connect_to_master,
  new_client, unconnected,
}

-- Every server can be dialled, and none says who the master is.
pub record IsSilent (net : Network) : Type 0 where
  pub dials : (t : ℕ) (a : String) → net.dial t a ≡ none
  pub silent : (t : ℕ) (a : String) (m : ℕ) → net.get_master t a ≢ master_is m

heard-silent :
    (answer : Answer) (w : ClientWorld)
    → ((m : ℕ) → answer ≢ master_is m)
    → heard answer w ≡ returns false (tick w)
unfolding heard
heard-silent timed_out w silent = refl
heard-silent (errored e) w silent = refl
heard-silent (master_is m) w silent = absurd (silent m refl)

abbrev pub question : String → Call
question address = record { address = address; method = "Server.GetMaster" }

abbrev pub three_servers : (a b c : String) → List String
three_servers a b c = a ∷ b ∷ c ∷ []

abbrev pub world_at : (a b c uid : String) (id : ℕ) → String → ℕ → List Call → ClientWorld
world_at a b c uid id address time sent = record {
  client = record (unconnected (three_servers a b c) id uid) { rpc_client = some address };
  time = time;
  sent = sent;
}

module _ (net : Network) (quiet : IsSilent net) (a b c uid : String) where
  ask-silent :
      (id t : ℕ) (address : String) (sent : List Call)
      → ask net (world_at a b c uid id address t sent)
        ≡ returns false (world_at a b c uid id address (suc t) (sent ++ question address ∷ []))
  unfolding ask go_via
  ask-silent id t address sent = heard-silent _ _ (quiet.silent t address)

  dialled-silent :
      (index id t : ℕ) (address old : String) (sent : List Call)
      → dialled index address (net.dial t address) (world_at a b c uid id old t sent)
        ≡ returns none (world_at a b c uid index address (suc t) sent)
  unfolding dialled
  dialled-silent index id t address old sent = rw (quiet.dials t address, dialled) refl

  -- With three servers of which none says who the master is, a new client that starts at the first one
  -- asks the first, the second and the first again, but never the third; then it is content with the
  -- first one and reports no error.
  pub new_client-skips :
      (w : ClientWorld) × (new_client net (three_servers a b c) 0 uid ≡ returns none w)
      × (w.sent ≡ question a ∷ question b ∷ question a ∷ [])
      × (w.client.id ≡ 0)
      × (w.client.rpc_client ≡ some a)
  unfolding new_client connect_to_server dial_address connect_to_master search go_to_master
  new_client-skips = (
    world_at a b c uid 0 a 7 asked_aba,
    rw
        (
          quiet.dials 0 a,
          ask-silent 0 1 a [],
          dialled-silent 1 0 2 b a asked_a,
          ask-silent 1 3 b asked_a,
          dialled-silent 0 1 4 a b asked_ab,
          ask-silent 0 5 a asked_ab,
          dialled-silent 0 0 6 a a asked_aba,
          new_client,
        )
        refl,
    refl,
    refl,
    refl,
  )
    where
      asked_a : List Call
      asked_a = question a ∷ []

      asked_ab : List Call
      asked_ab = question a ∷ question b ∷ []

      asked_aba : List Call
      asked_aba = question a ∷ question b ∷ question a ∷ []
