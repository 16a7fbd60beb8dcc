-- ===== src/Phatclient.antt =====
-- The client of the database (phatclient/phatclient.go): each operation makes a command, has it called
-- with retries, and reads the reply. `reply` is what the RPC wrote into the reply's memory; gob carries
-- no nil pointer in an interface. The log lines are left out.
pub mod Replies
pub mod Twice
pub mod Tests
use go_phat.Prelude.{ℕ, String, Option, none, some, List, [], Bool, str_eq, if◌then◌else◌}
use go_phat.Phatdb.Tree.{StatNode, DataNode}
use go_phat.Phatdb.Server.{
  DbCommand, DbResponse, Reply, no_reply, names, data_node, stat_node, bool, text,
}
use go_phat.Client.{
  Network, ClientWorld, Run, Event, Retried, finished, waiting, process_call_with_retry, returns,
  ◌>>=◌,
}

-- What an operation returns: a result, an error, or nothing, where a type assertion panics or the
-- call still waits.
pub data Returned (A : Type 0) : Type 0 where
  result : A → Returned A
  error : String → Returned A
  asserts : Returned A
  waits : Returned A

unfoldable pub string_to_error : String → Option String
string_to_error s = if str_eq s "" then none else some s

-- The reply, once the call is done without an error and the reply has none.
unfoldable pub checked : {A : Type 0} → (Reply → Returned A) → Option String → Reply → Returned A
checked read none reply = read reply
checked read (some e) reply = error e

unfoldable pub returned : {A : Type 0} → (Reply → Returned A) → DbResponse → Retried → Returned A
unfolding checked string_to_error
returned read reply waiting = waits
returned read reply (finished (some e)) = error e
returned read reply (finished none) = checked read (string_to_error reply.error) reply.reply

-- `reply.Reply.(phatdb.DataNode)`, and the like below.
unfoldable pub as_data_node : Reply → Returned DataNode
as_data_node no_reply = asserts
as_data_node (names xs) = asserts
as_data_node (data_node none) = asserts
as_data_node (data_node (some d)) = result d
as_data_node (stat_node s) = asserts
as_data_node (bool b) = asserts
as_data_node (text s) = asserts

unfoldable pub as_names : Reply → Returned (List String)
as_names no_reply = asserts
as_names (names xs) = result xs
as_names (data_node d) = asserts
as_names (stat_node s) = asserts
as_names (bool b) = asserts
as_names (text s) = asserts

unfoldable pub as_stat_node : Reply → Returned StatNode
as_stat_node no_reply = asserts
as_stat_node (names xs) = asserts
as_stat_node (data_node d) = asserts
as_stat_node (stat_node s) = result s
as_stat_node (bool b) = asserts
as_stat_node (text s) = asserts

unfoldable pub as_text : Reply → Returned String
as_text no_reply = asserts
as_text (names xs) = asserts
as_text (data_node d) = asserts
as_text (stat_node s) = asserts
as_text (bool b) = asserts
as_text (text s) = result s

abbrev pub as_nothing : Reply → Returned (Unit {0})
as_nothing reply = result tt

-- An operation: its command, and how it reads the reply.
pub record Operation (A : Type 0) : Type 0 where
  pub command : DbCommand
  pub read : Reply → Returned A

module _ (subpath : String) where
  unfoldable pub create : String → Operation DataNode
  create initialdata = record {
    command = record { command = "CREATE"; path = subpath; value = initialdata };
    read = as_data_node;
  }

  unfoldable pub get_data : Operation DataNode
  get_data = record {
    command = record { command = "GET"; path = subpath; value = "" };
    read = as_data_node;
  }

  unfoldable pub set_data : String → Operation (Unit {0})
  set_data data_value = record {
    command = record { command = "SET"; path = subpath; value = data_value };
    read = as_nothing;
  }

  unfoldable pub get_children : Operation (List String)
  get_children = record {
    command = record { command = "CHILDREN"; path = subpath; value = "" };
    read = as_names;
  }

  unfoldable pub get_stats : Operation StatNode
  get_stats = record {
    command = record { command = "STAT"; path = subpath; value = "" };
    read = as_stat_node;
  }

  unfoldable pub delete : Operation (Unit {0})
  delete = record {
    command = record { command = "DELETE"; path = subpath; value = "" };
    read = as_nothing;
  }

unfoldable pub get_hash : Operation String
get_hash = record { command = record { command = "SHA256"; path = ""; value = "" }; read = as_text }

-- An operation of a client: the call of "Server.RPCDB" with retries, and the reading of the reply.
unfoldable pub run_operation :
    {A : Type 0} → Network → Operation A → DbResponse → List Event → ClientWorld → Run (Returned A)
unfolding returned
run_operation net op reply events w =
    process_call_with_retry net "Server.RPCDB" events w >>= λ retried.
    returns (returned op.read reply retried)
