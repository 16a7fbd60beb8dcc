-- ===== src/Vr/Commit/CatchUp.antt =====
-- What `doCommit` does (vr/vr.go) when the log has the entries up to the commit that is asked for.
use mathlib.Core.List.{append_assoc, append-nil}
use go_phat.Prelude.{
  ℕ, suc, ◌+◌, ◌-◌, ◌%◌, ◌≤◌, ◌<◌, ◌≡◌, refl, ap, ◌∙◌, Option, none, some, List, [], ◌∷◌, ◌++◌, map,
  Bool, true, false, inl, inr, u64, u64_mod, ltb, leb, ◌==◌, ==_iff, if◌then◌else◌, Bool-cases,
  length, arith,
}
use go_phat.Phatlog.{Log, get_command}
use go_phat.Vr.State.{Globals, VrCommand, Effect, signal, take_snapshot}
use go_phat.Vr.Exec.{World, ok, ◌>>=◌, pure, emit}
use go_phat.Vr.Commit.{
  snap_freq, signal_done, commit_entry, run_command, commit_one, commit_loop, do_commit_fuel,
  do_commit, inbox_length,
}

module _ {C : Type 0} where
  -- The log holds these commands from an index on.
  abbrev pub Holds : Log (VrCommand C) → ℕ → List (VrCommand C) → Type 0
  Holds l i [] = Unit {0}
  Holds l i (c ∷ cs) = (get_command l i ≡ some c) × Holds l (suc i) cs

  abbrev pub done_effect : Option ℕ → List (Effect C)
  done_effect none = []
  done_effect (some ch) = signal ch ∷ []

  -- The effects of commit number `n`: perhaps a snapshot, then the signal to `RunVR`.
  abbrev pub commit_effects : ℕ → VrCommand C → List (Effect C)
  commit_effects n c =
      (if n % snap_freq == snap_freq - 1 then take_snapshot ∷ [] else []) ++ done_effect c.done

  abbrev pub effects_from : ℕ → List (VrCommand C) → List (Effect C)
  effects_from i [] = []
  effects_from i (c ∷ cs) = commit_effects i c ++ effects_from (suc i) cs

  abbrev pub commands : List (VrCommand C) → List C
  commands = map (λ c. c.c)

  -- The world after commits up to `n` that ran the commands `xs` and had the effects `es`.
  abbrev pub after : ℕ → List C → List (Effect C) → World C → World C
  after n xs es w = record w {
    replica = record (w.replica) {
      context = w.replica.context ++ xs;
      rstate = record (w.replica.rstate) { commit_number = n };
    };
    outbox = w.outbox ++ es;
  }

  after-after :
      (m n : ℕ) (xs ys : List C) (es fs : List (Effect C)) (w : World C)
      → after m ys fs (after n xs es w) ≡ after m (xs ++ ys) (es ++ fs) w
  after-after m n xs ys es fs w = rw (append_assoc, append_assoc)

  after-nil : (m : ℕ) (w : World C) → w.replica.rstate.commit_number ≡ m → w ≡ after m [] [] w
  after-nil m w e = rw (append-nil, ← e, append-nil)

  finish_commit :
      (b : Bool) (d : Option ℕ) (w : World C)
      → ((if b then emit take_snapshot else pure tt) >>= λ _. signal_done d) w
        ≡ ok tt (record w {
          outbox = w.outbox ++ ((if b then take_snapshot ∷ [] else []) ++ done_effect d);
        })
  unfolding signal_done
  finish_commit true none w = refl
  finish_commit true (some ch) w = rw append_assoc
  finish_commit false none w = rw append-nil
  finish_commit false (some ch) w = refl

  pub run_command-some :
      (w : World C) (i : ℕ) (c : VrCommand C)
      → u64 (w.replica.rstate.commit_number + 1) ≡ i
      → run_command (some c) w ≡ ok tt (after i (c.c ∷ []) (commit_effects i c) w)
  unfolding run_command
  run_command-some w i c e =
      rw (e, run_command) (finish_commit (i % snap_freq == snap_freq - 1) c.done _)

  -- The next index, on any fuel.
  pub do_commit_fuel-next :
      (g : Globals) (fuel i : ℕ) (w : World C)
      → i ≡ suc w.replica.rstate.commit_number
      → i < u64_mod
      → i ≤ w.replica.rstate.op_number
      → do_commit_fuel g (suc fuel) i w ≡ run_command (commit_entry w.replica.phatlog i) w
  unfolding do_commit_fuel
  do_commit_fuel-next g fuel i w e lt le =
      let e' : u64 (w.replica.rstate.commit_number + 1) ≡ i = omega arith in
      let t1 : leb i w.replica.rstate.commit_number ≡ false = ground arith in
      let t2 : ltb w.replica.rstate.op_number i ≡ false = ground arith in
      let t3 : ltb (u64 (w.replica.rstate.commit_number + 1)) i ≡ false = ground arith in
      rw (t1, t2, t3, do_commit_fuel) (rw (e', (==_iff i i).1 refl, commit_one))

  do_commit_fuel-one :
      (g : Globals) (fuel i : ℕ) (w : World C) (l : Log (VrCommand C)) (c : VrCommand C)
      → i ≡ suc w.replica.rstate.commit_number
      → i < u64_mod
      → i ≤ w.replica.rstate.op_number
      → w.replica.phatlog ≡ some l
      → get_command l i ≡ some c
      → do_commit_fuel g (suc fuel) i w ≡ ok tt (after i (c.c ∷ []) (commit_effects i c) w)
  unfolding commit_entry
  do_commit_fuel-one g fuel i w l c e lt le p q =
      let found : commit_entry w.replica.phatlog i ≡ some c = rw (p, commit_entry) q in
      do_commit_fuel-next g fuel i w e lt le ∙ rw found (run_command-some w i c (omega arith))

  -- The loop runs the commands in the order of the log, each once.
  commit_loop_lem :
      (g : Globals) (fuel i m : ℕ) (w : World C) (l : Log (VrCommand C)) (cs : List (VrCommand C))
      → i ≡ suc w.replica.rstate.commit_number
      → m ≡ length cs + w.replica.rstate.commit_number
      → m ≤ w.replica.rstate.op_number
      → m + 1 < u64_mod
      → w.replica.phatlog ≡ some l
      → Holds l i cs
      → commit_loop (do_commit_fuel g (suc fuel)) m (length cs) i w
        ≡ ok tt (after m (commands cs) (effects_from i cs) w)
  unfolding commit_loop
  commit_loop_lem g fuel i m w l [] e em le lt p h =
      let em' : w.replica.rstate.commit_number ≡ m = omega arith in
      let done : leb i m ≡ false = ground arith in
      rw (done, commit_loop) (ap (ok tt) (after-nil m w em'))
  commit_loop_lem g fuel i m w l (c ∷ cs) e em le lt p h =
      let more : leb i m ≡ true = ground arith in
      let next : u64 (i + 1) ≡ suc i = omega arith in
      rw (more, commit_loop)
        (rw (next, do_commit_fuel-one g fuel i w l c e (omega arith) (omega arith) p h.0)
          (commit_loop_lem g fuel (suc i) m (after i (c.c ∷ []) (commit_effects i c) w) l cs refl
              (omega arith) le lt p h.1
            ∙ ap (ok tt) (
                after-after m i (c.c ∷ []) (commands cs) (commit_effects i c)
                  (effects_from (suc i) cs) w)))

  -- The next index only: no loop.
  catch_up_one :
      (g : Globals) (fuel cn : ℕ) (w : World C) (l : Log (VrCommand C)) (cs : List (VrCommand C))
      → cn ≡ suc w.replica.rstate.commit_number
      → cn ≤ w.replica.rstate.op_number
      → cn < u64_mod
      → w.replica.phatlog ≡ some l
      → length cs ≡ 1
      → Holds l cn cs
      → do_commit_fuel g (suc fuel) cn w ≡ ok tt (after cn (commands cs) (effects_from cn cs) w)
  catch_up_one g fuel cn w l [] e le bound p len h = absurd (omega arith)
  catch_up_one g fuel cn w l (c ∷ []) e le bound p len h =
      rw append-nil (do_commit_fuel-one g fuel cn w l c e bound le p h.0)
  catch_up_one g fuel cn w l (c ∷ d ∷ cs) e le bound p len h = absurd (omega arith)

  -- More than the next index: the loop.
  catch_up_more :
      (g : Globals) (fuel cn : ℕ) (w : World C) (l : Log (VrCommand C)) (cs : List (VrCommand C))
      → suc w.replica.rstate.commit_number < cn
      → cn ≤ w.replica.rstate.op_number
      → cn + 1 < u64_mod
      → w.replica.phatlog ≡ some l
      → length cs ≡ cn - w.replica.rstate.commit_number
      → Holds l (suc w.replica.rstate.commit_number) cs
      → do_commit_fuel g (suc (suc fuel)) cn w
        ≡ ok tt (after cn (commands cs) (effects_from (suc w.replica.rstate.commit_number) cs) w)
  unfolding do_commit_fuel
  catch_up_more g fuel cn w l cs lt le bound p len h =
      let next : u64 (w.replica.rstate.commit_number + 1) ≡ suc w.replica.rstate.commit_number =
        omega arith in
      let t1 : leb cn w.replica.rstate.commit_number ≡ false = ground arith in
      let t2 : ltb w.replica.rstate.op_number cn ≡ false = ground arith in
      let t3 : ltb (u64 (w.replica.rstate.commit_number + 1)) cn ≡ true = ground arith in
      rw (t1, t2, t3, do_commit_fuel)
        (rw (next, ← len)
          (commit_loop_lem g fuel (suc w.replica.rstate.commit_number) cn w l cs refl (omega arith)
            le bound p h))

  -- `doCommit cn` on a replica that is behind and has the entries up to `cn` in its log: it runs the
  -- commands after the commit number up to `cn`, in the order of the log and each once, signals
  -- those that wait and starts the snapshots that are due; the commit number is then `cn`, no reply
  -- of another replica is used, and nothing else changes. `cn` is not the last 64-bit number, at
  -- which the loop does not end.
  pub do_commit-catch_up :
      (g : Globals) (cn : ℕ) (w : World C) (l : Log (VrCommand C)) (cs : List (VrCommand C))
      → w.replica.rstate.commit_number < cn
      → cn ≤ w.replica.rstate.op_number
      → cn + 1 < u64_mod
      → w.replica.phatlog ≡ some l
      → length cs ≡ cn - w.replica.rstate.commit_number
      → Holds l (suc w.replica.rstate.commit_number) cs
      → do_commit g cn w
        ≡ ok tt (after cn (commands cs) (effects_from (suc w.replica.rstate.commit_number) cs) w)
  unfolding do_commit
  do_commit-catch_up g cn w l cs lt le bound p len h =
      let fuel : inbox_length w.inbox + 2 ≡ suc (suc (inbox_length w.inbox)) = omega arith in
      rw fuel (elim (Bool-cases (cn == suc w.replica.rstate.commit_number)) [
        | inl one ↦
            let e : cn ≡ suc w.replica.rstate.commit_number = (==_iff cn _).0 one in
            rw e (
              catch_up_one g (suc (inbox_length w.inbox)) (suc w.replica.rstate.commit_number) w l
                cs refl (omega arith) (omega arith) p (omega arith) h)
        | inr more ↦
            catch_up_more g (inbox_length w.inbox) cn w l cs (ground arith) le bound p len h
      ])
