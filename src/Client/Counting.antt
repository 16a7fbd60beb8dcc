-- ===== src/Client/Counting.antt =====
-- How often a call is sent: the search for the master sends none of it (client/client.go).
use go_phat.Prelude.{
  ℕ, zero, suc, ◌+◌, ◌≡◌, String, Option, none, some, List, [], ◌∷◌, ◌++◌, Bool, true, false,
  count_if, str_eq, Bool-cases, Option-cases, inl, inr, ◌==◌, if◌then◌else◌, arith,
}
use go_phat.Client.{
  Network, Answer, timed_out, errored, master_is, Call, ClientWorld, Run, returns, panics,
  sent_call, dialled, dial_address, connect_to_server, heard, ask, go_via, unless, search,
  next_server, go_to_master, connect_to_master, ◌>>=◌,
}
use go_phat.Client.Master.{Returns}

-- Wherever it returns or panics, the world satisfies `P`.
abbrev pub Always : {A : Type 0} → (ClientWorld → Type 0) → Run A → Type 0
Always P (returns a w) = P w
Always P (panics w) = P w

Always-then :
    {A B : Type 0} (P : ClientWorld → Type 0) (r : Run A) (f : A → ClientWorld → Run B)
    → Always P r
    → ((a : A) (w : ClientWorld) → P w → Always P (f a w))
    → Always P (r >>= f)
Always-then P (returns a w) f p next = next a w p
Always-then P (panics w) f p next = p

pub Returns-Always :
    {A : Type 0} (P : A → ClientWorld → Type 0) (Q : ClientWorld → Type 0) (r : Run A)
    → Returns P r
    → Always Q r
    → Returns (λ a w. P a w × Q w) r
Returns-Always P Q (returns a w) p q = (p, q)
Returns-Always P Q (panics w) p q = absurd p

-- How often a method was called.
abbrev pub calls : String → ClientWorld → ℕ
calls method w = count_if (λ c. str_eq c.method method) w.sent

count_if-append :
    {A : Type 0} (p : A → Bool) (xs ys : List A)
    → count_if p (xs ++ ys) ≡ count_if p xs + count_if p ys
count_if-append p [] ys = omega arith
count_if-append p (x ∷ xs) ys = omega (arith, count_if-append p xs ys)

pub calls-sent_call :
    (method m address : String) (w : ClientWorld)
    → calls method (sent_call m address w) ≡ calls method w + (if str_eq m method then 1 else 0)
calls-sent_call method m address w = omega (
  arith,
  count_if-append (λ (c : Call). str_eq c.method method) w.sent
      (record { address = address; method = m } ∷ []),
)

module _ (net : Network) (method : String) (other : str_eq "Server.GetMaster" method ≡ false)
    (n : ℕ) where
  abbrev IsCalled : ClientWorld → Type 0
  IsCalled w = calls method w ≡ n

  dial_address-calls :
      (index : ℕ) (address : Option String) (w : ClientWorld)
      → IsCalled w
      → Always IsCalled (dial_address net index address w)
  unfolding dial_address dialled
  dial_address-calls index none w p = p
  dial_address-calls index (some address) w p = elim (Option-cases (net.dial w.time address)) [
    | inl reached ↦ rw (reached, dialled) p
    | inr (e, failed) ↦ rw (failed, dialled) p
  ]

  connect_to_server-calls :
      (index : ℕ) (w : ClientWorld) → IsCalled w → Always IsCalled (connect_to_server net index w)
  unfolding connect_to_server
  connect_to_server-calls index w p = dial_address-calls index _ w p

  heard-calls : (answer : Answer) (w : ClientWorld) → IsCalled w → Always IsCalled (heard answer w)
  unfolding heard
  heard-calls timed_out w p = p
  heard-calls (errored e) w p = p
  heard-calls (master_is m) w p = p

  go_via-calls :
      (address : Option String) (w : ClientWorld)
      → IsCalled w
      → Always IsCalled (go_via "Server.GetMaster" address w)
  unfolding go_via
  go_via-calls none w p = p
  go_via-calls (some address) w p =
      let sent = calls-sent_call method "Server.GetMaster" address w in
      let same : calls method (sent_call "Server.GetMaster" address w) ≡ calls method w + 0 =
        rw other at sent in
      omega (arith, same)

  ask-calls : (w : ClientWorld) → IsCalled w → Always IsCalled (ask net w)
  unfolding ask
  ask-calls w p =
      Always-then IsCalled (go_via "Server.GetMaster" w.client.rpc_client w) _
        (go_via-calls w.client.rpc_client w p) (λ address v q. heard-calls _ v q)

  unless-calls :
      (found : Bool) (next : ClientWorld → Run (Unit {0})) (w : ClientWorld)
      → IsCalled w
      → Always IsCalled (next w)
      → Always IsCalled (unless found next w)
  unless-calls true next w p q = p
  unless-calls false next w p q = q

  search-calls :
      (rounds i : ℕ) (w : ClientWorld) → IsCalled w → Always IsCalled (search net rounds i w)
  unfolding search
  search-calls zero i w p = p
  search-calls (suc rounds) i w p = Always-then IsCalled (ask net w) _ (ask-calls w p) (λ found v q.
      unless-calls found _ v q (
        Always-then IsCalled (connect_to_server net (next_server i v.client) v) _
          (connect_to_server-calls (next_server i v.client) v q)
          (λ e u r. search-calls rounds (suc i) u r)))

  go_to_master-calls : (w : ClientWorld) → IsCalled w → Always IsCalled (go_to_master net w)
  unfolding go_to_master
  go_to_master-calls w p = elim (Bool-cases (w.client.master_id == w.client.id)) [
    | inl here ↦ simp (here, go_to_master) p
    | inr elsewhere ↦
        simp (elsewhere, go_to_master) (connect_to_server-calls w.client.master_id w p)
  ]

  pub connect_to_master-calls :
      (w : ClientWorld) → IsCalled w → Always IsCalled (connect_to_master net w)
  unfolding connect_to_master
  connect_to_master-calls w p =
      Always-then IsCalled (search net w.client.num_servers 0 w) _
        (search-calls w.client.num_servers 0 w p) (λ found v q. go_to_master-calls v q)
