-- ===== src/Vr/Connections/Cut.antt =====
-- Replicas that are cut off, and whether they come back (vr/helpers.go, vr/vr.go).
use go_phat.Prelude.{
  ℕ, ◌≡◌, refl, sym, ap, ◌∙◌, Option, none, some, List, [], ◌∷◌, ◌++◌, true, false, ◌==◌, get_elem?,
  set, zero, suc,
}
use mathlib.Core.List.{append_assoc}
use go_phat.Vr.Connections.{
  Node, Dialled, dialled, of_option, of_options, refused, connected, shutdown_incoming,
  shutdown_outgoing, disconnect, reconnect, shutdown, reset_mstate, revive, client_connect, dial_to,
  keep_connection, send_connection, connection_or, drop_connection, dropped, accept_round,
}

get_set :
    (xs : List (Option ℕ)) (i : ℕ) (old new : Option ℕ)
    → get_elem? xs i ≡ some old
    → get_elem? (set xs i new) i ≡ some new
get_set [] i old new e = cc
get_set (x ∷ xs) zero old new e = refl
get_set (x ∷ xs) (suc i) old new e = get_set xs i old new e

abbrev pub IsIn : ℕ → List ℕ → Type 0
IsIn c cs = (before : List ℕ) × (after : List ℕ) × (cs ≡ before ++ c ∷ after)

IsIn-append : (c : ℕ) (xs ys : List ℕ) → IsIn c ys → IsIn c (xs ++ ys)
IsIn-append c xs ys (before, after, e) =
    (xs ++ before, after, ap (λ t. xs ++ t) e ∙ sym (append_assoc xs before (c ∷ after)))

IsIn-of_options :
    (xs : List (Option ℕ)) (i c : ℕ) → get_elem? xs i ≡ some (some c) → IsIn c (of_options xs)
IsIn-of_options [] i c e = cc
IsIn-of_options (x ∷ xs) zero c e = let here : x ≡ some c = cc in rw here ([], of_options xs, refl)
IsIn-of_options (x ∷ xs) (suc i) c e =
    IsIn-append c (of_option x) (of_options xs) (IsIn-of_options xs i c e)

module _ {C : Type 0} where
  -- `Shutdown` and then `Revive` leave a replica that is not shut down and whose timers run, but that
  -- is cut off: it refuses to connect to any replica, whatever the network answers, and `ReplicaRun`
  -- ends in its first round.
  pub revive-refuses :
      (n : Node C) (ln : ℕ) (d l a : Dialled) (rep_num : ℕ)
      → let n' = revive (dialled ln) (shutdown n) in
        (n'.replica.is_shutdown ≡ false)
        × (n'.timer_runs ≡ true)
        × (client_connect d rep_num n' ≡ refused "Disconnected" n')
        × (accept_round l a n' ≡ none)
  unfolding revive shutdown disconnect shutdown_incoming shutdown_outgoing reset_mstate
      client_connect accept_round
  revive-refuses n ln d l a rep_num = (refl, refl, refl, refl)

  abbrev rejoined : ℕ → Node C → Node C
  rejoined ln n = record n {
    is_disconnected = false;
    listener = some ln;
    codecs = [];
    listening = true;
    closed = (n.closed ++ (of_option n.listener ++ n.codecs)) ++ of_options n.conns;
  }

  abbrev without : ℕ → ℕ → Node C → Node C
  without rep_num c n = record n { closed = n.closed ++ c ∷ []; conns = set n.conns rep_num none }

  abbrev with_new : ℕ → ℕ → Node C → Node C
  with_new rep_num c n = record n { closed = n.closed ++ []; conns = set n.conns rep_num (some c) }

  -- `Disconnect` closes every connection, but keeps it: after a `Reconnect` the replica listens again
  -- and sends on the closed connection first; the failure of that call drops it, and the retry dials
  -- the replica anew. After `Shutdown` and `Revive` it refuses to connect to the replica.
  pub reconnect-redials :
      (n : Node C) (d : Dialled) (ln rep_num c c' : ℕ)
      → get_elem? n.conns rep_num ≡ some (some c)
      → (rep_num == n.replica.rstate.replica_number) ≡ false
      → (n' : Node C) × (n'' : Node C) × (v : Node C) × (reconnect (dialled ln) (disconnect n)
          ≡ some n')
        × (n'.listener ≡ some ln)
        × IsIn c n'.closed
        × (send_connection d rep_num n' ≡ connected c n')
        × (drop_connection rep_num n' ≡ some n'')
        × (send_connection (dialled c') rep_num n'' ≡ connected c' v)
        × (client_connect (dialled c') rep_num (revive (dialled ln) (shutdown n))
            ≡ refused "Disconnected" (revive (dialled ln) (shutdown n)))
  unfolding disconnect reconnect shutdown_incoming shutdown_outgoing send_connection connection_or
      drop_connection dropped client_connect dial_to keep_connection
  reconnect-redials n d ln rep_num c c' at other =
      let empty : get_elem? (set n.conns rep_num none) rep_num ≡ some none =
        get_set n.conns rep_num (some c) none at in
      (
        rejoined ln n,
        without rep_num c (rejoined ln n),
        with_new rep_num c' (without rep_num c (rejoined ln n)),
        refl,
        refl,
        IsIn-append c _ (of_options n.conns) (IsIn-of_options n.conns rep_num c at),
        rw (at, send_connection) refl,
        rw (at, drop_connection) refl,
        rw (empty, other, empty, send_connection) refl,
        (revive-refuses n ln (dialled c') d d rep_num).2,
      )
