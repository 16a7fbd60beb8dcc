-- ===== src/Vr/Normal/Quorum.antt =====
-- What the master commits has been acknowledged by a majority (vr/vr.go).
use go_phat.Prelude.{
  get_elem?-some, ℕ, ◌-◌, ◌%◌, ◌≤◌, ◌<◌, ◌≡◌, refl, sym, ap, ◌⊎◌, inl, inr, Bool, true, false, ltb,
  leb, ◌==◌, ==_iff, if◌then◌else◌, Bool-cases, Option-cases, length, get_elem?, arith, nat_eq,
  nat_eq,
}
use go_phat.Prelude.Assoc.{values, insert, lookup, lookup-insert}
use go_phat.Vr.Commit.{do_commit}
use go_phat.Vr.Commit.Bound.{AtMost, do_commit-AtMost}
use go_phat.Prelude.Sort.{
  sort, sort-IsSorted, reaching, reaching-sort, length-sort, reaching-get_elem?, reaching_above,
  reaching_mono,
}
use go_phat.Vr.State.{Globals, Replica, MasterState, PrepareReply}
use go_phat.Vr.Exec.{
  World, ok, Exec, ◌>>=◌, ◌>>◌, pure, get, Always-and_then, Always-mono, Always-of_Yields,
  Always-next, Always, Yields,
}
use go_phat.Vr.Lease.{is_master, heartbeat, sort_times}
use go_phat.Vr.Normal.{calc_highest_majority_op, handle_prepare_ok, note_highest_op, get_or_zero}

-- The highest op number that the master has from a replica, 0 if it has none.
abbrev pub recorded : ℕ → MasterState → ℕ
recorded j s = get_or_zero (lookup j s.highest_op)

module _ {C : Type 0} where
  -- How many entries of HighestOp are at least `m`.
  abbrev pub acknowledged : ℕ → Replica C → ℕ
  acknowledged m r = reaching m (values r.mstate.highest_op)

  -- At a master that heard of at least F >= 1 replicas, `calcHighestMajorityOp` returns the highest
  -- op number that F of them acknowledged (with the master itself, a majority): F of them are at
  -- it or above, and fewer than F are above it. Nothing changes.
  pub calc_highest_majority_op-is_highest :
      (g : Globals) (w : World C)
      → is_master g w.replica ≡ true
      → 0 < g.f
      → g.f ≤ length (values w.replica.mstate.highest_op)
      → (m : ℕ) × (calc_highest_majority_op g w ≡ ok m w)
        × (g.f ≤ acknowledged m w.replica)
        × ((k : ℕ) → m < k → acknowledged k w.replica < g.f)
  unfolding calc_highest_majority_op
  calc_highest_majority_op-is_highest g w master pos enough =
      let ops = values w.replica.mstate.highest_op in
      let (m, at) =
        get_elem?-some (sort ops) (length (sort ops) - g.f) (omega (arith, length-sort ops)) in
      let t : ltb (length (sort ops)) g.f ≡ false = ground (arith, length-sort ops) in
      (
        m,
        rw (master, t, at, calc_highest_majority_op) refl,
        omega (
          arith,
          reaching-get_elem? (sort ops) (length (sort ops) - g.f) m (sort-IsSorted ops) at,
          reaching-sort m ops,
          length-sort ops,
        ),
        λ k lt. omega (
          arith,
          reaching_above (sort ops) (length (sort ops) - g.f) m k (sort-IsSorted ops) at lt,
          reaching-sort k ops,
          length-sort ops,
        ),
      )

  -- What a heartbeat leaves alone.
  record Untouched (w : World C) (w' : World C) : Type 0 where
    commit_number : w'.replica.rstate.commit_number ≡ w.replica.rstate.commit_number
    view : w'.replica.rstate.view ≡ w.replica.rstate.view
    replica_number : w'.replica.rstate.replica_number ≡ w.replica.rstate.replica_number
    highest_op : w'.replica.mstate.highest_op ≡ w.replica.mstate.highest_op

  heartbeat-Untouched :
      (g : Globals) (now replica time : ℕ) (w : World C)
      → Always (Untouched w) (heartbeat g now replica time w)
  unfolding heartbeat
  heartbeat-Untouched g now replica time w = elim (Bool-cases (is_master g w.replica)) [
    | inr off ↦
        rw (off, heartbeat)
          (record { commit_number = refl; view = refl; replica_number = refl; highest_op = refl })
    | inl on ↦ elim (Bool-cases w.replica.mstate.made) [
      | inr unmade ↦
          rw (on, unmade, heartbeat)
            (record { commit_number = refl; view = refl; replica_number = refl; highest_op = refl })
      | inl made ↦
          let sorted = sort_times (insert replica time w.replica.mstate.heartbeats) in
          elim (Bool-cases (ltb (length sorted) g.f)) [
            | inl few ↦
                rw (on, made, few, heartbeat)
                  (record {
                    commit_number = refl;
                    view = refl;
                    replica_number = refl;
                    highest_op = refl;
                  })
            | inr many ↦ elim (Option-cases (get_elem? sorted (length sorted - g.f))) [
              | inl out ↦
                  rw (on, made, many, out, heartbeat)
                    (record {
                      commit_number = refl;
                      view = refl;
                      replica_number = refl;
                      highest_op = refl;
                    })
              | inr (t, found) ↦
                  rw (on, made, many, found, heartbeat)
                    (record {
                      commit_number = refl;
                      view = refl;
                      replica_number = refl;
                      highest_op = refl;
                    })
            ]
          ]
    ]
  ]

  calc-Yields :
      (g : Globals) (w : World C)
      → Yields
          (λ m w'. (w' ≡ w) × ((m ≡ 0) ⊎ (g.f ≤ acknowledged m w.replica)))
          (λ w'. w' ≡ w)
          (calc_highest_majority_op g w)
  unfolding calc_highest_majority_op
  calc-Yields g w = elim (Bool-cases (is_master g w.replica)) [
    | inr off ↦ rw (off, calc_highest_majority_op) refl
    | inl on ↦
        let ops = values w.replica.mstate.highest_op in
        elim (Bool-cases (ltb (length (sort ops)) g.f)) [
          | inl few ↦ rw (on, few, calc_highest_majority_op) (refl, inl refl)
          | inr many ↦ elim (Option-cases (get_elem? (sort ops) (length (sort ops) - g.f))) [
            | inl out ↦ rw (on, many, out, calc_highest_majority_op) refl
            | inr (m, at) ↦
                let le : g.f ≤ reaching m ops = ground (
                  arith,
                  reaching-get_elem? (sort ops) (length (sort ops) - g.f) m (sort-IsSorted ops) at,
                  reaching-sort m ops,
                ) in
                rw (on, many, at, calc_highest_majority_op) (refl, inr le)
          ]
        ]
  ]

  -- What the master has from each replica is as before, but that it may have the op number of an answer
  -- of its view from the replica that sent the answer.
  abbrev pub Heard : PrepareReply → World C → MasterState → Type 0
  Heard reply w s =
      (j : ℕ)
      → (recorded j s ≡ recorded j w.replica.mstate)
        ⊎ ((j ≡ reply.replica_number)
            × (recorded j s ≡ reply.op_number)
            × (reply.view ≡ w.replica.rstate.view))

  -- The commit number is as before, or F replicas acknowledged it; and the acknowledgements are as
  -- before but for the answer at hand.
  abbrev pub IsBacked : Globals → PrepareReply → World C → World C → Type 0
  IsBacked g reply w w' =
      ((w'.replica.rstate.commit_number ≡ w.replica.rstate.commit_number)
        ⊎ (g.f ≤ acknowledged w'.replica.rstate.commit_number w'.replica))
      × Heard reply w w'.replica.mstate

  -- The end of the handler, given the result of `calcHighestMajorityOp`.
  commit_up_to : Globals → PrepareReply → ℕ → Exec C Bool
  commit_up_to g reply high_commit = do
    r ← get
    if ltb r.rstate.commit_number high_commit then do_commit g high_commit else pure tt
    pure (leb reply.op_number high_commit)

  commit_up_to-IsBacked :
      (g : Globals) (w v : World C) (reply : PrepareReply) (m : ℕ)
      → v.replica.rstate.view % g.nreplicas ≡ v.replica.rstate.replica_number
      → v.replica.rstate.commit_number ≡ w.replica.rstate.commit_number
      → Heard reply w v.replica.mstate
      → (m ≡ 0) ⊎ (g.f ≤ acknowledged m v.replica)
      → Always (IsBacked g reply w) (commit_up_to g reply m v)
  unfolding commit_up_to
  commit_up_to-IsBacked g w v reply m self same heard (inl nothing) =
      let t : ltb v.replica.rstate.commit_number m ≡ false = ground arith in
      rw (t, commit_up_to) (inl same, heard)
  commit_up_to-IsBacked g w v reply m self same heard (inr enough) =
      elim (Bool-cases (ltb v.replica.rstate.commit_number m)) [
        | inr done ↦ rw (done, commit_up_to) (inl same, heard)
        | inl go ↦
            rw (go, commit_up_to)
              (Always-and_then (IsBacked g reply w) (do_commit g m v) _
                (Always-mono (AtMost g m v.replica.mstate) (IsBacked g reply w) (do_commit g m v)
                  (λ u p. (
                    inr (
                        rw p.same (
                          omega (
                            arith,
                            enough,
                            reaching_mono u.replica.rstate.commit_number m
                                (values v.replica.mstate.highest_op) p.within,
                          ))),
                    rw p.same heard,
                  ))
                  (do_commit-AtMost g m v.replica.mstate m v (omega arith)
                    (record { self = self; within = ground arith; same = refl })))
                (λ a u p. p))
      ]

  note_highest_op-frame :
      (reply : PrepareReply) (r : Replica C) → (note_highest_op reply r).rstate ≡ r.rstate
  unfolding note_highest_op
  note_highest_op-frame reply r =
      elim (Bool-cases
        (ltb (get_or_zero (lookup reply.replica_number r.mstate.highest_op)) reply.op_number)) [
          | inl up ↦ rw (up, note_highest_op) refl
          | inr old ↦ rw (old, note_highest_op) refl
        ]

  note_highest_op-Heard :
      (w u : World C) (reply : PrepareReply)
      → Untouched w u
      → reply.view ≡ w.replica.rstate.view
      → Heard reply w (note_highest_op reply u.replica).mstate
  unfolding note_highest_op
  note_highest_op-Heard w u reply same view j =
      let before : recorded j u.replica.mstate ≡ recorded j w.replica.mstate =
        ap (λ ops. get_or_zero (lookup j ops)) same.highest_op in
      let ops = u.replica.mstate.highest_op in
      elim (Bool-cases (ltb (get_or_zero (lookup reply.replica_number ops)) reply.op_number)) [
        | inr old ↦ rw (old, note_highest_op) (inl before)
        | inl up ↦
            rw (up, note_highest_op, lookup-insert reply.replica_number j reply.op_number ops)
              (elim (Bool-cases (reply.replica_number == j)) [
                | inl this ↦
                    rw this (inr (sym ((==_iff reply.replica_number j).0 this), refl, view))
                | inr other ↦ rw other (inl before)
              ])
      ]

  after_heartbeat-IsBacked :
      (g : Globals) (w u : World C) (reply : PrepareReply)
      → is_master g w.replica ≡ true
      → reply.view ≡ w.replica.rstate.view
      → Untouched w u
      → Always (IsBacked g reply w) (
          (calc_highest_majority_op g >>= commit_up_to g reply)
            (record u { replica = note_highest_op reply u.replica }))
  unfolding is_master
  after_heartbeat-IsBacked g w u reply on view same =
      let v : World C = record u { replica = note_highest_op reply u.replica } in
      let e : v.replica.rstate ≡ u.replica.rstate = note_highest_op-frame reply u.replica in
      let self : u.replica.rstate.view % g.nreplicas ≡ u.replica.rstate.replica_number =
        ground (arith, same.view, same.replica_number) in
      let self' : v.replica.rstate.view % g.nreplicas ≡ v.replica.rstate.replica_number =
        rw e self in
      let before : v.replica.rstate.commit_number ≡ w.replica.rstate.commit_number =
        rw e same.commit_number in
      let heard : Heard reply w v.replica.mstate = note_highest_op-Heard w u reply same view in
      Always-of_Yields _ _ (IsBacked g reply w) (calc_highest_majority_op g v)
        (commit_up_to g reply) (calc-Yields g v)
        (λ m x (x=v, enough).
          rw x=v (commit_up_to-IsBacked g w v reply m self' before heard enough))
        (λ x x=v. (inl (rw x=v before), rw x=v heard))

  -- `handlePrepareOK` commits nothing that lacks a majority, however it ends: afterwards the commit
  -- number is what it was, or at least F other replicas have acknowledged it or a later op. And it
  -- takes for an acknowledgement only what a replica has answered: what it has from each replica is as
  -- before, but for the op number of this answer, of the master's view, from the one that sent it.
  pub handle_prepare_ok-IsBacked :
      (g : Globals) (now : ℕ) (reply : PrepareReply) (w : World C)
      → Always (IsBacked g reply w) (handle_prepare_ok g now reply w)
  unfolding handle_prepare_ok commit_up_to
  handle_prepare_ok-IsBacked g now reply w = elim (Bool-cases (is_master g w.replica)) [
    | inr off ↦ rw (off, handle_prepare_ok) (inl refl, λ j. inl refl)
    | inl on ↦ elim (Bool-cases (reply.view == w.replica.rstate.view)) [
      | inr other ↦ rw (on, other, handle_prepare_ok) (inl refl, λ j. inl refl)
      | inl same ↦
          rw (on, same, handle_prepare_ok)
            (Always-next (Untouched w) (IsBacked g reply w)
              (heartbeat g now reply.replica_number reply.lease w) _
              (heartbeat-Untouched g now reply.replica_number reply.lease w)
              (λ a u p. after_heartbeat-IsBacked g w u reply on ((==_iff _ _).0 same) p)
              (λ u p. (
                inl p.commit_number,
                λ j. inl (ap (λ ops. get_or_zero (lookup j ops)) p.highest_op),
              )))
    ]
  ]
