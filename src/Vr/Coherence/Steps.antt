-- ===== src/Vr/Coherence/Steps.antt =====
-- `Prepare`, `Commit`, `RunVR` and `handlePrepareOK` (vr/vr.go) keep a replica coherent.
use go_phat.Prelude.{
  ℕ, suc, ◌+◌, ◌≤◌, ◌<◌, ◌≡◌, refl, sym, ap, ◌∙◌, some, List, [], ◌∷◌, ◌++◌, true, inl, inr, u64,
  u64_mod, ltb, ◌==◌, ==_iff, Bool-cases, length, length-append, take, take-append, arith,
}
use go_phat.Phatlog.{Log, add, get_command}
use go_phat.Phatlog.Entries.{get_command-add}
use go_phat.Vr.State.{Globals, VrCommand, PrepareArgs, CommitArgs}
use go_phat.Vr.Exec.{World, Exec, ◌>>◌, Always, Always-and_then, Always-mono, Always-next}
use go_phat.Vr.Commit.{do_commit, start_state_transfer, is_normal}
use go_phat.Vr.Commit.CatchUp.{Holds, commands}
use go_phat.Vr.Commit.Keeps.{do_commit-Always, start_state_transfer-Always}
use go_phat.Vr.Lease.{is_master}
use go_phat.Vr.Recovery.{prepare_recovery, is_recovery}
use go_phat.Vr.Normal.{append_op, prepare_rpc, commit_rpc, run_vr}
use go_phat.Vr.Coherence.{
  IsCoherent, Extends, Fits, Extends-append, Holds-add, Fits-Keeps, length-commands,
}

module _ {C : Type 0} where
  Holds-append :
      (l : Log (VrCommand C)) (i j : ℕ) (es : List (VrCommand C)) (c : VrCommand C)
      → Holds l i es
      → j ≡ length es + i
      → get_command l j ≡ some c
      → Holds l i (es ++ c ∷ [])
  Holds-append l i j [] c h e p = (let i=j : j ≡ i = omega arith in rw i=j at p, tt)
  Holds-append l i j (d ∷ es) c h e p = (h.0, Holds-append l (suc i) j es c h.1 (omega arith) p)

  commands-append :
      (es : List (VrCommand C)) (c : VrCommand C)
      → commands (es ++ c ∷ []) ≡ commands es ++ c.c ∷ []
  commands-append [] c = refl
  commands-append (e ∷ es) c = ap (λ t. e.c ∷ t) (commands-append es c)

  -- One more op at the end of a coherent log.
  append_op-Fits :
      (w : World C) (c : VrCommand C) (k : IsCoherent w)
      → w.replica.rstate.op_number + 1 < u64_mod
      → Extends (commands (k.entries ++ c ∷ [])) w.inbox
      → Always Fits (append_op c w)
  unfolding append_op
  append_op-Fits w c k lt incoming =
      let n = w.replica.rstate.commit_number in
      let j = u64 (w.replica.rstate.op_number + 1) in
      let j=op : j ≡ suc w.replica.rstate.op_number = omega arith in
      let self : (j == j) ≡ true = (==_iff j j).1 refl in
      let here : get_command (add j (some c) k.log) j ≡ some c = rw (get_command-add, self) refl in
      let kept : Holds (add j (some c) k.log) 1 k.entries =
        Holds-add k.log 1 j k.entries (some c) (omega (arith, k.full)) k.holds in
      let le : n ≤ length (commands k.entries) =
        omega (arith, k.behind, k.full, length-commands k.entries) in
      rw (k.has_log, append_op)
        (record {
          coherent = record {
            log = add j (some c) k.log;
            entries = k.entries ++ c ∷ [];
            has_log = refl;
            holds =
                Holds-append (add j (some c) k.log) 1 j k.entries c kept (omega (arith, k.full))
                  here;
            full = omega (arith, k.full, length-append k.entries (c ∷ []));
            behind = omega (arith, k.behind);
            executed =
                k.executed
                ∙ sym (
                    ap (take n) (commands-append k.entries c)
                    ∙ take-append n (commands k.entries) (c.c ∷ []) le);
          };
          incoming = incoming;
        })

  Fits_before :
      (w : World C) (c : VrCommand C) (k : IsCoherent w)
      → Extends (commands (k.entries ++ c ∷ [])) w.inbox
      → Fits w
  Fits_before w c k incoming = record {
    coherent = k;
    incoming =
        Extends-append (commands k.entries) (c.c ∷ []) w.inbox (rw commands-append at incoming);
  }

  -- Coherence is about the log, the two numbers and the commands that were run.
  pub IsCoherent-cong :
      (w v : World C)
      → v.replica.phatlog ≡ w.replica.phatlog
      → v.replica.rstate.op_number ≡ w.replica.rstate.op_number
      → v.replica.rstate.commit_number ≡ w.replica.rstate.commit_number
      → v.replica.context ≡ w.replica.context
      → IsCoherent w
      → IsCoherent v
  IsCoherent-cong w v log op cn context k = record {
    log = k.log;
    entries = k.entries;
    has_log = log ∙ k.has_log;
    holds = k.holds;
    full = k.full ∙ sym op;
    behind = omega (arith, k.behind);
    executed = context ∙ k.executed ∙ ap (λ n. take n (commands k.entries)) (sym cn);
  }

  prepare_recovery-IsCoherent :
      (g : Globals) (nonce : ℕ) (w : World C)
      → IsCoherent w
      → Always IsCoherent (prepare_recovery g nonce w)
  unfolding prepare_recovery
  prepare_recovery-IsCoherent g nonce w k =
      elim (Bool-cases (is_recovery w.replica.rstate.status)) [
        | inl in_it ↦ rw (in_it, prepare_recovery) k
        | inr new ↦ rw (new, prepare_recovery) (IsCoherent-cong w _ refl refl refl refl k)
      ]

  -- The part of `Prepare` after the guards.
  commit_then_reply :
      {A : Type 0} (g : Globals) (cn : ℕ) (f : Exec C A) (w : World C)
      → Fits w
      → ((v : World C) → IsCoherent v → Always IsCoherent (f v))
      → Always IsCoherent ((do_commit g cn >> f) w)
  commit_then_reply g cn f w fits next =
      Always-and_then IsCoherent (do_commit g cn w) (λ _. f)
        (Always-mono Fits IsCoherent (do_commit g cn w) (λ v p. p.coherent)
          (do_commit-Always Fits-Keeps g cn w fits))
        (λ a v k. next v k)

  -- `Prepare` keeps a replica coherent, on every branch and however it ends: if before it the log
  -- had one entry for each op number up to the replica's and the commands that were run were the
  -- first of them up to the commit number, so it is after it. The op number must not be the last
  -- 64-bit number. Each log that a state transfer brings in extends the one before it, the first
  -- one the replica's; and if the `Prepare` has the next op number, so that its command is added
  -- first, the replica's with this command.
  pub prepare_rpc-IsCoherent :
      (g : Globals) (now nonce : ℕ) (args : PrepareArgs C) (w : World C) (fits : Fits w)
      → w.replica.rstate.op_number + 1 < u64_mod
      → (args.op_number ≡ w.replica.rstate.op_number + 1
          → Extends (commands (fits.coherent.entries ++ args.command ∷ [])) w.inbox)
      → Always IsCoherent (prepare_rpc g now nonce args w)
  unfolding prepare_rpc
  prepare_rpc-IsCoherent g now nonce args w fits lt incoming =
      let r = w.replica.rstate in
      let k : IsCoherent w = fits.coherent in
      elim (Bool-cases (ltb r.view args.view)) [
        | inl newer ↦
            rw (newer, prepare_rpc)
              (Always-and_then IsCoherent (prepare_recovery g nonce w) _
                (prepare_recovery-IsCoherent g nonce w k) (λ a v p. p))
        | inr not_newer ↦ elim (Bool-cases (ltb args.view r.view)) [
          | inl older ↦ rw (not_newer, older, prepare_rpc) k
          | inr same ↦ elim (Bool-cases (is_normal r.status)) [
            | inr off ↦ rw (not_newer, same, off, prepare_rpc) k
            | inl on ↦ elim (Bool-cases (ltb (u64 (r.op_number + 1)) args.op_number)) [
              | inl gap ↦
                  rw (not_newer, same, on, gap, prepare_rpc)
                    (Always-and_then IsCoherent (start_state_transfer g w) _
                      (Always-mono Fits IsCoherent (start_state_transfer g w) (λ v p. p.coherent)
                        (start_state_transfer-Always Fits-Keeps g w fits))
                      (λ a v p. p))
              | inr next ↦ elim (Bool-cases (ltb r.op_number args.op_number)) [
                | inl fresh ↦
                    rw (not_newer, same, on, next, fresh, prepare_rpc)
                      (Always-next Fits IsCoherent (append_op args.command w) _
                        (append_op-Fits w args.command k lt (incoming (ground arith)))
                        (λ a v p.
                          commit_then_reply g args.commit_number _ v p
                            (λ u q. IsCoherent-cong u _ refl refl refl refl q))
                        (λ v p. p.coherent))
                | inr again ↦
                    rw (not_newer, same, on, next, again, prepare_rpc)
                      (commit_then_reply g args.commit_number _ w fits
                        (λ u q. IsCoherent-cong u _ refl refl refl refl q))
              ]
            ]
          ]
        ]
      ]

  -- `Commit` keeps a replica coherent, on every branch and however it ends, if each log that a state
  -- transfer brings in extends the replica's.
  pub commit_rpc-IsCoherent :
      (g : Globals) (now nonce : ℕ) (args : CommitArgs) (w : World C)
      → Fits w
      → Always IsCoherent (commit_rpc g now nonce args w)
  unfolding commit_rpc
  commit_rpc-IsCoherent g now nonce args w fits =
      elim (Bool-cases (ltb w.replica.rstate.view args.view)) [
        | inl newer ↦
            rw (newer, commit_rpc)
              (Always-and_then IsCoherent (prepare_recovery g nonce w) _
                (prepare_recovery-IsCoherent g nonce w fits.coherent) (λ a v p. p))
        | inr not_newer ↦ elim (Bool-cases (ltb args.view w.replica.rstate.view)) [
          | inl older ↦ rw (not_newer, older, commit_rpc) fits.coherent
          | inr same ↦
              rw (not_newer, same, commit_rpc)
                (commit_then_reply g args.commit_number _ w fits
                  (λ u q. IsCoherent-cong u _ refl refl refl refl q))
        ]
      ]

  abbrev fresh_chan : World C → World C
  fresh_chan w = record w { next_chan = suc w.next_chan }

  -- `RunVR`, up to its wait, keeps a replica coherent, however it ends, if the op number is not the
  -- last 64-bit number and no answer of a state transfer is under way.
  pub run_vr-IsCoherent :
      (g : Globals) (command : C) (w : World C)
      → IsCoherent w
      → w.replica.rstate.op_number + 1 < u64_mod
      → w.inbox ≡ []
      → Always IsCoherent (run_vr g command w)
  unfolding run_vr
  run_vr-IsCoherent g command w k lt empty = elim (Bool-cases w.replica.is_shutdown) [
    | inl down ↦ simp (down, run_vr) k
    | inr up ↦ elim (Bool-cases (is_master g w.replica)) [
      | inr other ↦ simp (up, other, run_vr) k
      | inl master ↦
          simp (up, master, run_vr)
            (Always-next Fits IsCoherent
              (append_op (record { c = command; done = some w.next_chan }) (fresh_chan w)) _
              (append_op-Fits (fresh_chan w) _ (IsCoherent-cong w _ refl refl refl refl k) lt
                (rw empty tt))
              (λ a v p. IsCoherent-cong v _ refl refl refl refl p.coherent) (λ v p. p.coherent))
    ]
  ]
