-- ===== src/Client.antt =====
-- The client of a cluster (client/client.go): the connection to a server, the search for the master,
-- and calls with retries. What the network does is a parameter; time is a counter of the operations
-- that wait for it. The log lines are left out, and so is an answer that comes after its timeout.
pub mod Master
pub mod Retry
pub mod Counting
pub mod Calls
pub mod Cluster
pub mod Tests
use go_phat.Prelude.{
  ℕ, zero, suc, ◌+◌, ◌%◌, Bool, true, false, String, Option, none, some, List, [], ◌∷◌, ◌++◌, ◌==◌,
  if◌then◌else◌, u64, length, get_elem?,
}

pub record Client : Type 0 where
  pub server_locations : List String
  pub num_servers : ℕ
  pub master_id : ℕ
  pub id : ℕ
  pub uid : String
  -- the address that the connection goes to, `none` for nil
  pub rpc_client : Option String

-- What comes back from a call of `Server.GetMaster`.
pub data Answer : Type 0 where
  timed_out : Answer
  errored : String → Answer
  master_is : ℕ → Answer

-- At a time, for an address: the error of a dial or none, and the answer about the master.
pub record Network : Type 0 where
  pub dial : ℕ → String → Option String
  pub get_master : ℕ → String → Answer

pub record Call : Type 0 where
  pub address : String
  pub method : String

pub record ClientWorld : Type 0 where
  pub client : Client
  pub time : ℕ
  pub sent : List Call

-- A function returns, or panics on an index out of range or a nil connection.
pub data Run (A : Type 0) : Type 0 where
  returns : A → ClientWorld → Run A
  panics : ClientWorld → Run A

infixl 5 ◌>>=◌
abbrev pub ◌>>=◌ : {A B : Type 0} → Run A → (A → ClientWorld → Run B) → Run B
returns a w >>= f = f a w
panics w >>= f = panics w

abbrev pub tick : ClientWorld → ClientWorld
tick w = record w { time = suc w.time }

abbrev pub connected : ℕ → String → ClientWorld → ClientWorld
connected index address w = record (tick w) {
  client = record w.client { id = index; rpc_client = some address };
}

unfoldable pub dialled : ℕ → String → Option String → ClientWorld → Run (Option String)
dialled index address none w = returns none (connected index address w)
dialled index address (some e) w = returns (some e) (tick w)

unfoldable pub dial_address : Network → ℕ → Option String → ClientWorld → Run (Option String)
unfolding dialled
dial_address net index none w = panics w
dial_address net index (some address) w = dialled index address (net.dial w.time address) w

-- `ConnectToServer`: the error, if any.
unfoldable pub connect_to_server : Network → ℕ → ClientWorld → Run (Option String)
unfolding dial_address
connect_to_server net index w = dial_address net index (get_elem? w.client.server_locations index) w

abbrev pub sent_call : String → String → ClientWorld → ClientWorld
sent_call method address w = record w {
  sent = w.sent ++ record { address = address; method = method } ∷ [];
}

-- `RpcClient.Go`: the address that the call went to.
unfoldable pub go_via : String → Option String → ClientWorld → Run String
go_via method none w = panics w
go_via method (some address) w = returns address (sent_call method address w)

abbrev pub go : String → ClientWorld → Run String
go method w = go_via method w.client.rpc_client w

abbrev pub told : ℕ → ClientWorld → ClientWorld
told m w = record (tick w) { client = record w.client { master_id = m } }

-- The server to try behind round `i`.
abbrev pub next_server : ℕ → Client → ℕ
next_server i c = u64 (c.id + u64 (i + 1)) % c.num_servers

-- Is the master known now?
unfoldable pub heard : Answer → ClientWorld → Run Bool
heard timed_out w = returns false (tick w)
heard (errored e) w = returns false (tick w)
heard (master_is m) w = returns true (told m w)

-- One question for the master, to the server that the client is connected to.
unfoldable pub ask : Network → ClientWorld → Run Bool
unfolding go_via heard
ask net w = go "Server.GetMaster" w >>= λ address v. heard (net.get_master v.time address) v

abbrev pub unless : Bool → (ClientWorld → Run (Unit {0})) → ClientWorld → Run (Unit {0})
unless true next w = returns tt w
unless false next w = next w

-- The loop of `ConnectToMaster` with `rounds` rounds to go, in round `i`. The error of a dial is
-- dropped. A server that answers ends the loop.
unfoldable pub search : Network → (rounds i : ℕ) → ClientWorld → Run (Unit {0})
unfolding ask
search net zero i w = returns tt w
search net (suc rounds) i w = ask net w >>= λ found.
    unless found
      (λ v. connect_to_server net (next_server i v.client) v >>= λ e u. search net rounds (suc i) u)

-- The end of `ConnectToMaster`.
unfoldable pub go_to_master : Network → ClientWorld → Run (Option String)
go_to_master net w =
    if w.client.master_id == w.client.id
    then returns none w
    else connect_to_server net w.client.master_id w

unfoldable pub connect_to_master : Network → ClientWorld → Run (Option String)
unfolding search go_to_master
connect_to_master net w = search net w.client.num_servers 0 w >>= λ _ v. go_to_master net v

abbrev pub unconnected : List String → ℕ → String → Client
unconnected servers id uid = record {
  server_locations = servers;
  num_servers = length servers;
  master_id = 0;
  id = id;
  uid = uid;
  rpc_client = none;
}

-- `NewClient`: the error, if any; the client is nil if the first dial fails.
unfoldable pub new_client : Network → List String → ℕ → String → Run (Option String)
unfolding connect_to_server connect_to_master
new_client net servers id uid =
    connect_to_server net id (record { client = unconnected servers id uid; time = 0; sent = [] })
    >>= λ e w. elim e [ some e ↦ returns (some e) w | none ↦ connect_to_master net w ]

-- What the `select` of `ProcessCallWithRetry` receives.
pub data Event : Type 0 where
  giveup_timer : Event
  call_timer : Event
  call_done : Option String → Event

-- The call was given an end, with its error if any, or still waits.
pub data Retried : Type 0 where
  finished : Option String → Retried
  waiting : Retried

-- What is to be done about an event: return with a result, or search the master and call again.
unfoldable pub result_of : Event → Option (Option String)
result_of giveup_timer = some (some "Completely timed out")
result_of call_timer = none
result_of (call_done none) = some none
result_of (call_done (some e)) = none

abbrev pub finish_or :
    Option (Option String) → (ClientWorld → Run Retried) → ClientWorld → Run Retried
finish_or none next w = next w
finish_or (some result) next w = returns (finished result) w

-- `ProcessCallWithRetry` on the events it receives, one in each round of its loop. The error of
-- `ConnectToMaster` is dropped.
unfoldable pub process_call_with_retry :
    Network → (method : String) → List Event → ClientWorld → Run Retried
unfolding go_via result_of
process_call_with_retry net method [] w = go method w >>= λ address v. returns waiting v
process_call_with_retry net method (event ∷ events) w = go method w >>= λ address v.
    finish_or (result_of event)
      (λ u. connect_to_master net u >>= λ e x. process_call_with_retry net method events x) (tick v)
