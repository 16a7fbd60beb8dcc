-- ===== src/Vr/Connections/Tests.antt =====
-- The connections of a replica (vr/helpers.go, vr/vr.go) in a cluster of three.
use go_phat.Prelude.{ℕ, ◌≡◌, refl, none, some, [], ◌∷◌, true, false}
use go_phat.Vr.State.{normal}
use go_phat.Vr.Fixtures.{replica}
use go_phat.Vr.Connections.{
  Node, dialled, refused, connected, exits, disconnect, reconnect, shutdown, revive, client_connect,
  send_connection, drop_connection,
}
use go_phat.Vr.Connections.Cut.{reconnect-redials, IsIn}

abbrev node : Node ℕ
node = record {
  replica = replica 0 1 2 1 normal;
  is_disconnected = false;
  listener = some 7;
  codecs = [];
  conns = some 20 ∷ none ∷ none ∷ [];
  timer_runs = true;
  master_timer_runs = false;
  listening = true;
  closed = [];
}

reconnect-redials_example :
    (n' : Node ℕ) × (n'' : Node ℕ) × (v : Node ℕ) × (reconnect (dialled 8) (disconnect node)
      ≡ some n')
    × (n'.listener ≡ some 8)
    × IsIn 20 n'.closed
    × (send_connection (dialled 30) 0 n' ≡ connected 20 n')
    × (drop_connection 0 n' ≡ some n'')
    × (send_connection (dialled 31) 0 n'' ≡ connected 31 v)
    × (client_connect (dialled 31) 0 (revive (dialled 8) (shutdown node))
        ≡ refused "Disconnected" (revive (dialled 8) (shutdown node)))
reconnect-redials_example = reconnect-redials node (dialled 30) 8 0 20 31 refl refl

to_itself : client_connect (dialled 30) 1 node ≡ exits
unfolding client_connect
to_itself = refl
