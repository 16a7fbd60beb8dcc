-- ===== src/Client/Master.antt =====
-- The search for the master ends at a server of the cluster (client/client.go).
use go_phat.Prelude.{
  ℕ, zero, suc, ◌<◌, ◌≡◌, refl, sym, ap, ◌∙◌, String, Option, none, some, List, Bool, true, false,
  Bool-cases, inl, inr, ◌==◌, length, get_elem?, get_elem?-some, arith,
}
use go_phat.Client.{
  Network, Answer, timed_out, heard, ask, go_via, unless, errored, master_is, ClientWorld, Run,
  returns, panics, tick, connected, sent_call, dialled, dial_address, connect_to_server, search,
  next_server, go_to_master, connect_to_master, ◌>>=◌,
}

-- It returns, and with a result and a world in `P`.
abbrev pub Returns : {A : Type 0} → (A → ClientWorld → Type 0) → Run A → Type 0
Returns P (returns a w) = P a w
Returns P (panics w) = ⊥

pub Returns-then :
    {A B : Type 0} (P : A → ClientWorld → Type 0) (Q : B → ClientWorld → Type 0) (r : Run A)
    (f : A → ClientWorld → Run B)
    → Returns P r
    → ((a : A) (w : ClientWorld) → P a w → Returns Q (f a w))
    → Returns Q (r >>= f)
Returns-then P Q (returns a w) f p next = next a w p
Returns-then P Q (panics w) f p next = absurd p

pub Returns-mono :
    {A : Type 0} (P Q : A → ClientWorld → Type 0) (r : Run A)
    → Returns P r
    → ((a : A) (w : ClientWorld) → P a w → Q a w)
    → Returns Q r
Returns-mono P Q (returns a w) p f = f a w p
Returns-mono P Q (panics w) p f = absurd p

-- The client knows these servers, its numbers are numbers of servers, and its connection goes to the
-- server that it says.
pub record IsConnected (servers : List String) (w : ClientWorld) : Type 0 where
  pub knows : w.client.server_locations ≡ servers
  pub counted : w.client.num_servers ≡ length servers
  pub id_is_server : w.client.id < length servers
  pub master_is_server : w.client.master_id < length servers
  pub connection : w.client.rpc_client ≡ get_elem? servers w.client.id

-- No server names a master outside the cluster.
abbrev pub NamesServers : ℕ → Network → Type 0
NamesServers n net = (t : ℕ) (a : String) (m : ℕ) → net.get_master t a ≡ master_is m → m < n

abbrev IsAt : List String → ℕ → Option String → ClientWorld → Type 0
IsAt servers index e w = IsConnected servers w × (e ≡ none → w.client.id ≡ index)

module _ (net : Network) (servers : List String) where
  abbrev IsHere : {A : Type 0} → A → ClientWorld → Type 0
  IsHere a w = IsConnected servers w

  connected-IsConnected :
      (index : ℕ) (address : String) (w : ClientWorld)
      → get_elem? servers index ≡ some address
      → index < length servers
      → IsConnected servers w
      → IsConnected servers (connected index address w)
  connected-IsConnected index address w at lt p = record {
    knows = p.knows;
    counted = p.counted;
    id_is_server = lt;
    master_is_server = p.master_is_server;
    connection = sym at;
  }

  pub tick-IsConnected : (w : ClientWorld) → IsConnected servers w → IsConnected servers (tick w)
  tick-IsConnected w p = record {
    knows = p.knows;
    counted = p.counted;
    id_is_server = p.id_is_server;
    master_is_server = p.master_is_server;
    connection = p.connection;
  }

  dialled-IsAt :
      (index : ℕ) (address : String) (e : Option String) (w : ClientWorld)
      → get_elem? servers index ≡ some address
      → index < length servers
      → IsConnected servers w
      → Returns
          (λ e v. IsAt servers index e v × (v.client.master_id ≡ w.client.master_id))
          (dialled index address e w)
  unfolding dialled
  dialled-IsAt index address none w at lt p =
      ((connected-IsConnected index address w at lt p, λ _. refl), refl)
  dialled-IsAt index address (some e) w at lt p = ((tick-IsConnected w p, λ absent. cc), refl)

  dial_address-IsAt :
      (index : ℕ) (address : Option String) (w : ClientWorld)
      → get_elem? servers index ≡ address
      → index < length servers
      → IsConnected servers w
      → Returns
          (λ e v. IsAt servers index e v × (v.client.master_id ≡ w.client.master_id))
          (dial_address net index address w)
  unfolding dial_address
  dial_address-IsAt index none w at lt p =
      let (address, there) = get_elem?-some servers index lt in cc
  dial_address-IsAt index (some address) w at lt p =
      dialled-IsAt index address (net.dial w.time address) w at lt p

  connect_to_server-IsAt :
      (index : ℕ) (w : ClientWorld)
      → index < length servers
      → IsConnected servers w
      → Returns
          (λ e v. IsAt servers index e v × (v.client.master_id ≡ w.client.master_id))
          (connect_to_server net index w)
  unfolding connect_to_server
  connect_to_server-IsAt index w lt p =
      dial_address-IsAt index (get_elem? w.client.server_locations index) w
        (ap (λ xs. get_elem? xs index) (sym p.knows)) lt p

  pub sent_call-IsConnected :
      (method address : String) (w : ClientWorld)
      → IsConnected servers w
      → IsConnected servers (sent_call method address w)
  sent_call-IsConnected method address w p = record {
    knows = p.knows;
    counted = p.counted;
    id_is_server = p.id_is_server;
    master_is_server = p.master_is_server;
    connection = p.connection;
  }

  pub go_via-IsConnected :
      (method : String) (address : Option String) (w : ClientWorld)
      → w.client.rpc_client ≡ address
      → IsConnected servers w
      → Returns IsHere (go_via method address w)
  unfolding go_via
  go_via-IsConnected method none w e p =
      let (address, at) = get_elem?-some servers w.client.id p.id_is_server in
      let known : w.client.rpc_client ≡ some address = p.connection ∙ at in cc
  go_via-IsConnected method (some address) w e p = sent_call-IsConnected method address w p

  heard-IsConnected :
      (answer : Answer) (w : ClientWorld)
      → ((m : ℕ) → answer ≡ master_is m → m < length servers)
      → IsConnected servers w
      → Returns IsHere (heard answer w)
  unfolding heard
  heard-IsConnected timed_out w names p = tick-IsConnected w p
  heard-IsConnected (errored e) w names p = tick-IsConnected w p
  heard-IsConnected (master_is m) w names p = record {
    knows = p.knows;
    counted = p.counted;
    id_is_server = p.id_is_server;
    master_is_server = names m refl;
    connection = p.connection;
  }

  module _ (names : NamesServers (length servers) net) where
    ask-IsConnected : (w : ClientWorld) → IsConnected servers w → Returns IsHere (ask net w)
    unfolding ask
    ask-IsConnected w p =
        Returns-then IsHere IsHere (go_via "Server.GetMaster" w.client.rpc_client w) _
          (go_via-IsConnected "Server.GetMaster" w.client.rpc_client w refl p)
          (λ address v q.
            heard-IsConnected (net.get_master v.time address) v (names v.time address) q)

    next_server-lt :
        (i : ℕ) (w : ClientWorld) → IsConnected servers w → next_server i w.client < length servers
    next_server-lt i w p = omega (arith, p.counted, p.id_is_server)

    unless-IsConnected :
        (found : Bool) (next : ClientWorld → Run (Unit {0})) (w : ClientWorld)
        → IsConnected servers w
        → Returns IsHere (next w)
        → Returns IsHere (unless found next w)
    unless-IsConnected true next w p q = p
    unless-IsConnected false next w p q = q

    search-IsConnected :
        (rounds i : ℕ) (w : ClientWorld)
        → IsConnected servers w
        → Returns IsHere (search net rounds i w)
    unfolding search
    search-IsConnected zero i w p = p
    search-IsConnected (suc rounds) i w p =
        Returns-then IsHere IsHere (ask net w) _ (ask-IsConnected w p) (λ found v q.
          unless-IsConnected found _ v q (
            Returns-then _ IsHere (connect_to_server net (next_server i v.client) v) _
              (connect_to_server-IsAt (next_server i v.client) v (next_server-lt i v q) q)
              (λ e u r. search-IsConnected rounds (suc i) u r.0.0)))

    go_to_master-IsAt :
        (w : ClientWorld)
        → IsConnected servers w
        → Returns
            (λ e v. IsConnected servers v × (e ≡ none → v.client.id ≡ v.client.master_id))
            (go_to_master net w)
    unfolding go_to_master
    go_to_master-IsAt w p = elim (Bool-cases (w.client.master_id == w.client.id)) [
      | inl here ↦ simp (here, go_to_master) (p, λ _. ground arith)
      | inr elsewhere ↦
          simp (elsewhere, go_to_master)
            (Returns-mono _ _ (connect_to_server net w.client.master_id w)
              (connect_to_server-IsAt w.client.master_id w p.master_is_server p)
              (λ e v q. (q.0.0, λ absent. q.0.1 absent ∙ sym q.1)))
    ]

    -- `ConnectToMaster` never panics on a number out of range and leaves the client connected to a
    -- server of the cluster; and when it returns no error, that server is the one that the client
    -- takes for the master. No server may name a master outside the cluster.
    pub connect_to_master-IsConnected :
        (w : ClientWorld)
        → IsConnected servers w
        → Returns
            (λ e v. IsConnected servers v × (e ≡ none → v.client.id ≡ v.client.master_id))
            (connect_to_master net w)
    unfolding connect_to_master
    connect_to_master-IsConnected w p =
        Returns-then IsHere _ (search net w.client.num_servers 0 w) _
          (search-IsConnected w.client.num_servers 0 w p) (λ found v q. go_to_master-IsAt v q)
