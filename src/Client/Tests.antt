-- ===== src/Client/Tests.antt =====
-- The client (client/client.go) on a cluster of three servers.
use go_phat.Prelude.{
  List, ◌++◌, ℕ, zero, suc, ◌≡◌, refl, String, Option, none, some, List, [], ◌∷◌, arith,
}
use go_phat.Vr.State.{Replica}
use go_phat.Phatdb.Server.{DbCommand}
use go_phat.Phatrpc.Tests.{three, db_world}
use go_phat.Client.{
  Network, timed_out, ClientWorld, returns, call_timer, giveup_timer, call_done, Event, waiting,
  finished, process_call_with_retry, connect_to_master, new_client,
}
use go_phat.Client.Master.{Returns, IsConnected}
use go_phat.Client.Retry.{IsSilent, question, new_client-skips, world_at, three_servers}
use go_phat.Client.Calls.{Sends, process_call_with_retry-repeats}
use go_phat.Client.Cluster.{cluster, connect_to_master-reaches}

abbrev pub silent : Network
silent = record { dial = λ t a. none; get_master = λ t a. timed_out }

silent-IsSilent : IsSilent silent
silent-IsSilent = record { dials = λ t a. refl; silent = λ t a m e. ground arith }

new_client-skips_example :
    (w : ClientWorld) × (new_client silent (three_servers "a" "b" "c") 0 "me" ≡ returns none w)
    × (w.sent ≡ question "a" ∷ question "b" ∷ question "a" ∷ [])
    × (w.client.id ≡ 0)
    × (w.client.rpc_client ≡ some "a")
new_client-skips_example = new_client-skips silent silent-IsSilent "a" "b" "c" "me"

abbrev pub servers : List String
servers = three_servers "a" "b" "c"

abbrev pub at_b : ClientWorld
at_b = world_at "a" "b" "c" "me" 1 "b" 0 []

pub at_b-IsConnected : IsConnected servers at_b
at_b-IsConnected = record {
  knows = refl;
  counted = refl;
  id_is_server = omega arith;
  master_is_server = omega arith;
  connection = refl;
}

-- Replica 1 answers from time 1 on.
abbrev late : ℕ → String → Option (Replica DbCommand)
late zero a = none
late (suc t) a = some (db_world 1 1).replica

connect_to_master-reaches_example :
    Returns
      (λ e v. IsConnected servers v × (e ≡ none → v.client.id ≡ v.client.master_id))
      (connect_to_master (cluster three (λ t a. none) late) at_b)
connect_to_master-reaches_example =
    connect_to_master-reaches three (λ t a. none) late servers at_b refl at_b-IsConnected

abbrev failures : List Event
failures = call_timer ∷ call_done (some "connection is shut down") ∷ []

process_call_with_retry-repeats_example :
    let sent = Sends silent servers (λ t a m e. ground arith) "Server.Send" refl in
    let run = process_call_with_retry silent "Server.Send" in
    Returns (sent (finished none) 3 at_b) (run (failures ++ call_done none ∷ []) at_b)
    × Returns
        (sent (finished (some "Completely timed out")) 3 at_b)
        (run (failures ++ giveup_timer ∷ []) at_b)
    × Returns (sent waiting 3 at_b) (run (failures ++ []) at_b)
process_call_with_retry-repeats_example =
    process_call_with_retry-repeats silent servers (λ t a m e. ground arith) "Server.Send" refl
      failures [] at_b (tt, (tt, tt)) at_b-IsConnected
