-- ===== src/Vr/Coherence.antt =====
-- The state machine that a replica runs (vr/vr.go, vr/vrstatetransfer.go): what it has executed is
-- what its log says, in order, up to the commit number.
pub mod Steps
use mathlib.Core.List.{append_assoc}
use go_phat.Prelude.{
  ℕ, zero, suc, ◌+◌, ◌≤◌, ◌<◌, ◌≡◌, ◌≢◌, refl, sym, ap, ◌∙◌, Option, none, some, List, [], ◌∷◌,
  ◌++◌, map, Bool, true, false, inl, inr, u64, u64_mod, ◌==◌, if◌then◌else◌, length, length-append,
  get_elem?, take, take-append, take-suc, arith,
}
use go_phat.Phatlog.{Log, add, get_command}
use go_phat.Phatlog.Entries.{get_command-add}
use go_phat.Vr.State.{VrCommand, Effect, GetStateResponse}
use go_phat.Vr.Exec.{World}
use go_phat.Vr.Commit.{commit_entry}
use go_phat.Vr.Commit.CatchUp.{Holds, commands, after, commit_effects}
use go_phat.Vr.Commit.Keeps.{Keeps, installed}

module _ {C : Type 0} where
  -- The log has one entry for each op number up to the replica's, and the commands that were run are
  -- the first of them, as many as the commit number says.
  pub record IsCoherent (w : World C) : Type 0 where
    pub log : Log (VrCommand C)
    pub entries : List (VrCommand C)
    pub has_log : w.replica.phatlog ≡ some log
    pub holds : Holds log 1 entries
    pub full : length entries ≡ w.replica.rstate.op_number
    pub behind : w.replica.rstate.commit_number ≤ w.replica.rstate.op_number
    pub executed : w.replica.context ≡ take w.replica.rstate.commit_number (commands entries)

  -- Each reply of the master that is still to come has a log that extends the one before.
  abbrev pub Extends : List C → List (GetStateResponse C) → Type 0
  Extends xs [] = Unit {0}
  Extends xs (reply ∷ rest) =
      (l : Log (VrCommand C)) × (es : List (VrCommand C)) × (more : List C) × (reply.log ≡ some l)
      × Holds l 1 es
      × (length es ≡ reply.op_number)
      × (commands es ≡ xs ++ more)
      × Extends (commands es) rest

  pub record Fits (w : World C) : Type 0 where
    pub coherent : IsCoherent w
    pub incoming : Extends (commands coherent.entries) w.inbox

  pub Extends-append :
      (xs ys : List C) (inbox : List (GetStateResponse C))
      → Extends (xs ++ ys) inbox
      → Extends xs inbox
  Extends-append xs ys [] h = tt
  Extends-append xs ys (reply ∷ rest) (l, es, more, p, q, r, e, next) =
      (l, es, ys ++ more, p, q, r, e ∙ append_assoc xs ys more, next)

  pub length-commands : (es : List (VrCommand C)) → length (commands es) ≡ length es
  length-commands [] = refl
  length-commands (e ∷ es) = ap suc (length-commands es)

  -- The entry at an index of the log is the one of the list.
  Holds-get :
      (l : Log (VrCommand C)) (i j n : ℕ) (es : List (VrCommand C)) (c : VrCommand C)
      → Holds l i es
      → n < length es
      → j ≡ n + i
      → get_command l j ≡ some c
      → get_elem? (commands es) n ≡ some c.c
  Holds-get l i j n [] c h lt p e = absurd (omega arith)
  Holds-get l i j zero (d ∷ es) c h lt p e =
      let i=j : i ≡ j = omega arith in let here : get_command l j ≡ some d = rw i=j at h.0 in cc
  Holds-get l i j (suc n) (d ∷ es) c h lt p e =
      Holds-get l (suc i) j n es c h.1 (omega arith) (omega arith) e

  pub Holds-add :
      (l : Log (VrCommand C)) (i index : ℕ) (es : List (VrCommand C)) (c : Option (VrCommand C))
      → length es + i ≤ index
      → Holds l i es
      → Holds (add index c l) i es
  Holds-add l i index [] c le h = tt
  Holds-add l i index (d ∷ es) c le h =
      let other : (index == i) ≡ false = ground arith in
      (rw (get_command-add, other) h.0, Holds-add l (suc i) index es c (omega arith) h.1)

  Fits-ran :
      (w : World C) (c : VrCommand C)
      → commit_entry w.replica.phatlog (suc w.replica.rstate.commit_number) ≡ some c
      → suc w.replica.rstate.commit_number ≤ w.replica.rstate.op_number
      → Fits w
      → Fits (
          after
            (suc w.replica.rstate.commit_number)
            (c.c ∷ [])
            (commit_effects (suc w.replica.rstate.commit_number) c)
            w)
  unfolding commit_entry
  Fits-ran w c e le p =
      let k : IsCoherent w = p.coherent in
      let n = w.replica.rstate.commit_number in
      let found : get_command k.log (suc n) ≡ some c = rw (← e, k.has_log, commit_entry) in
      let at : get_elem? (commands k.entries) n ≡ some c.c =
        Holds-get k.log 1 (suc n) n k.entries c k.holds (omega (arith, k.full)) (omega arith)
          found in
      record {
        coherent = record {
          log = k.log;
          entries = k.entries;
          has_log = k.has_log;
          holds = k.holds;
          full = k.full;
          behind = le;
          executed = ap (λ xs. xs ++ c.c ∷ []) k.executed ∙ sym (take-suc n _ c.c at);
        };
        incoming = p.incoming;
      }

  Fits-took :
      (w : World C) (reply : GetStateResponse C) (rest : List (GetStateResponse C))
      → w.inbox ≡ reply ∷ rest
      → Fits w
      → Fits (installed reply rest w)
  Fits-took w reply rest e p =
      let k : IsCoherent w = p.coherent in
      let n = w.replica.rstate.commit_number in
      let known : Extends (commands k.entries) (reply ∷ rest) = rw e at p.incoming in
      let (l, es, more, has_log, holds, full, extends, next) = known in
      let longer : length (commands es) ≡ length (commands k.entries) + length more =
        ap length extends ∙ length-append (commands k.entries) more in
      let le : n ≤ length (commands k.entries) =
        omega (arith, k.behind, k.full, length-commands k.entries) in
      record {
        coherent = record {
          log = l;
          entries = es;
          has_log = has_log;
          holds = holds;
          full = full;
          behind = omega (
            arith,
            k.behind,
            k.full,
            full,
            longer,
            length-commands es,
            length-commands k.entries,
          );
          executed =
              k.executed ∙ sym (ap (take n) extends ∙ take-append n (commands k.entries) more le);
        };
        incoming = next;
      }

  Fits-dropped :
      (w : World C) (reply : GetStateResponse C) (rest : List (GetStateResponse C))
      → w.inbox ≡ reply ∷ rest
      → Fits w
      → Fits (record w { inbox = rest })
  Fits-dropped w reply rest e p =
      let k : IsCoherent w = p.coherent in
      let known : Extends (commands k.entries) (reply ∷ rest) = rw e at p.incoming in
      let (l, es, more, has_log, holds, full, extends, next) = known in
      let next' : Extends (commands k.entries ++ more) rest = rw extends at next in
      record {
        coherent = record {
          log = k.log;
          entries = k.entries;
          has_log = k.has_log;
          holds = k.holds;
          full = k.full;
          behind = k.behind;
          executed = k.executed;
        };
        incoming = Extends-append (commands k.entries) more rest next';
      }

  pub Fits-Keeps : Keeps Fits
  Fits-Keeps = record {
    ran = Fits-ran;
    took = λ w reply rest e same p. Fits-took w reply rest e p;
    dropped = Fits-dropped;
    sent = λ w e p. record {
      coherent = record {
        log = p.coherent.log;
        entries = p.coherent.entries;
        has_log = p.coherent.has_log;
        holds = p.coherent.holds;
        full = p.coherent.full;
        behind = p.coherent.behind;
        executed = p.coherent.executed;
      };
      incoming = p.incoming;
    };
  }
