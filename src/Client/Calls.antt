-- ===== src/Client/Calls.antt =====
-- A call with retries (client/client.go): how often it is sent, and that it ends.
use go_phat.Prelude.{
  ℕ, suc, ◌+◌, ◌≡◌, refl, sym, ◌∙◌, String, Option, none, some, List, [], ◌∷◌, ◌++◌, true, false,
  length, str_eq, eq_iff, Option-cases, inl, inr, arith,
}
use go_phat.Client.{
  Network, ClientWorld, tick, go_via, connect_to_master, Event, result_of, Retried, finished,
  waiting, giveup_timer, call_timer, call_done, process_call_with_retry,
}
use go_phat.Client.Master.{
  Returns, Returns-then, IsConnected, NamesServers, Returns-mono, sent_call-IsConnected,
  connect_to_master-IsConnected, go_via-IsConnected, tick-IsConnected,
}
use go_phat.Client.Counting.{calls, calls-sent_call, Returns-Always, connect_to_master-calls}

-- The result that the events lead to, and how often the call is sent for it.
abbrev pub result_after : List Event → Retried
result_after [] = waiting
result_after (event ∷ events) = elim (result_of event) [
  | none ↦ result_after events
  | some result ↦ finished result
]

abbrev pub rounds_of : List Event → ℕ
rounds_of [] = 1
rounds_of (event ∷ events) =
    let rest = rounds_of events in elim (result_of event) [ none ↦ suc rest | some result ↦ 1 ]

-- The event is a failure or a timeout of a single call.
abbrev pub IsFailure : Event → Type 0
IsFailure giveup_timer = ⊥
IsFailure call_timer = Unit {0}
IsFailure (call_done none) = ⊥
IsFailure (call_done (some e)) = Unit {0}

abbrev pub AreFailures : List Event → Type 0
AreFailures [] = Unit {0}
AreFailures (event ∷ events) = IsFailure event × AreFailures events

-- Failures lead on to what comes behind them, each with one more call.
result_after-failures :
    (fails events : List Event)
    → AreFailures fails
    → (result_after (fails ++ events) ≡ result_after events)
      × (rounds_of (fails ++ events) ≡ length fails + rounds_of events)
unfolding result_of
result_after-failures [] events h = (refl, omega arith)
result_after-failures (giveup_timer ∷ fails) events h = absurd h.0
result_after-failures (call_timer ∷ fails) events h =
    let (e, n) = result_after-failures fails events h.1 in (e, omega (arith, n))
result_after-failures (call_done none ∷ fails) events h = absurd h.0
result_after-failures (call_done (some x) ∷ fails) events h =
    let (e, n) = result_after-failures fails events h.1 in (e, omega (arith, n))

module _ (net : Network) (servers : List String) (names : NamesServers (length servers) net)
    (method : String) (other : str_eq "Server.GetMaster" method ≡ false) where
  connect_to_master-both :
      (w : ClientWorld)
      → IsConnected servers w
      → Returns
          (λ e v. IsConnected servers v × (calls method v ≡ calls method w))
          (connect_to_master net w)
  connect_to_master-both w p =
      Returns-mono
        (λ e v.
          (IsConnected servers v × (e ≡ none → v.client.id ≡ v.client.master_id))
          × (calls method v ≡ calls method w))
        _ _
        (Returns-Always _ (λ v. calls method v ≡ calls method w) (connect_to_master net w)
          (connect_to_master-IsConnected net servers names w p)
          (connect_to_master-calls net method other (calls method w) w refl))
        (λ e v q. (q.0.0, q.1))

  go_via-counted :
      (address : Option String) (w : ClientWorld)
      → w.client.rpc_client ≡ address
      → IsConnected servers w
      → Returns
          (λ _ v. IsConnected servers v × (calls method v ≡ calls method w + 1))
          (go_via method address w)
  unfolding go_via
  go_via-counted none w e p = go_via-IsConnected net servers method none w e p
  go_via-counted (some address) w e p =
      let itself : str_eq method method ≡ true = (eq_iff method method).1 refl in
      let sent = calls-sent_call method method address w in
      (sent_call-IsConnected net servers method address w p, rw itself at sent)

  -- The outcome of a call with retries: a client that still waits or has finished as the events say,
  -- and `rounds_of` more calls on the way.
  abbrev pub Gives : List Event → ℕ → Retried → ClientWorld → Type 0
  Gives events before r v =
      (r ≡ result_after events)
      × (calls method v ≡ before + rounds_of events)
      × IsConnected servers v

  -- The events, as they are read, decide on the result and on the number of calls.
  pub process_call_with_retry-Gives :
      (events : List Event) (w : ClientWorld)
      → IsConnected servers w
      → Returns (Gives events (calls method w)) (process_call_with_retry net method events w)
  unfolding process_call_with_retry
  process_call_with_retry-Gives [] w p =
      Returns-then (λ _ v. IsConnected servers v × (calls method v ≡ calls method w + 1)) _
        (go_via method w.client.rpc_client w) _ (go_via-counted w.client.rpc_client w refl p)
        (λ address v q. (refl, q.1, q.0))
  process_call_with_retry-Gives (event ∷ events) w p =
      Returns-then (λ _ v. IsConnected servers v × (calls method v ≡ calls method w + 1)) _
        (go_via method w.client.rpc_client w) _ (go_via-counted w.client.rpc_client w refl p)
        (λ address v q. elim (Option-cases (result_of event)) [
          | inr (result, ends) ↦
              let over : result_after (event ∷ events) ≡ finished result =
                rw (ends, result_after) refl in
              let once : rounds_of (event ∷ events) ≡ 1 = rw (ends, rounds_of) refl in
              rw ends (sym over, omega (arith, q.1, once), tick-IsConnected net servers v q.0)
          | inl again ↦
              let goes_on : result_after (event ∷ events) ≡ result_after events =
                rw (again, result_after) refl in
              let more : rounds_of (event ∷ events) ≡ suc (rounds_of events) =
                rw (again, rounds_of) refl in
              rw again (
                Returns-then _ _ (connect_to_master net (tick v)) _
                  (connect_to_master-both (tick v) (tick-IsConnected net servers v q.0))
                  (λ e u r.
                    Returns-mono (Gives events (calls method u)) _ _
                      (process_call_with_retry-Gives events u r.0)
                      (λ a x g. (g.0 ∙ sym goes_on, omega (arith, g.1, r.1, q.1, more), g.2))))
        ])

  -- The call is over with this result, after this many times that the command was sent, on a client
  -- that is connected.
  abbrev pub Sends : Retried → ℕ → ClientWorld → Retried → ClientWorld → Type 0
  Sends result times w r v =
      (r ≡ result) × (calls method v ≡ calls method w + times) × IsConnected servers v

  Sends-mono :
      (events : List Event) (result : Retried) (times : ℕ) (w : ClientWorld)
      → IsConnected servers w
      → result_after events ≡ result
      → rounds_of events ≡ times
      → Returns (Sends result times w) (process_call_with_retry net method events w)
  Sends-mono events result times w p over rounds =
      Returns-mono (Gives events (calls method w)) _ _ (process_call_with_retry-Gives events w p)
        (λ r v g. (g.0 ∙ over, omega (arith, g.1, rounds), g.2))

  -- A call with retries, on a connected client of a cluster whose servers name no master outside it,
  -- after some failures and timeouts of single calls: the command has been sent once for each of them
  -- and once more. If that call is done without an error, the client returns without one, whatever
  -- would come later; if the timer to give up fires, it returns "Completely timed out"; and if nothing
  -- comes, it waits.
  pub process_call_with_retry-repeats :
      (fails later : List Event) (w : ClientWorld)
      → AreFailures fails
      → IsConnected servers w
      → Returns
          (Sends (finished none) (length fails + 1) w)
          (process_call_with_retry net method (fails ++ call_done none ∷ later) w)
        × Returns
            (Sends (finished (some "Completely timed out")) (length fails + 1) w)
            (process_call_with_retry net method (fails ++ giveup_timer ∷ later) w)
        × Returns
            (Sends waiting (length fails + 1) w)
            (process_call_with_retry net method (fails ++ []) w)
  unfolding result_of
  process_call_with_retry-repeats fails later w h p =
      let (done, sent_done) = result_after-failures fails (call_done none ∷ later) h in
      let (gave_up, sent_gave_up) = result_after-failures fails (giveup_timer ∷ later) h in
      let (waits, sent_waits) = result_after-failures fails [] h in
      (
        Sends-mono (fails ++ call_done none ∷ later) (finished none) (length fails + 1) w p done
            sent_done,
        Sends-mono (fails ++ giveup_timer ∷ later) (finished (some "Completely timed out"))
            (length fails + 1) w p gave_up sent_gave_up,
        Sends-mono (fails ++ []) waiting (length fails + 1) w p waits sent_waits,
      )
