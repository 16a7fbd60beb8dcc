-- ===== src/Vr/ViewChange/Choice.antt =====
-- Which log a new master takes over (`calcMasterView` of vr/vrviewchange.go).
use mathlib.Core.List.{Memᴰ}
use go_phat.Prelude.{ℕ, ◌≤◌, ◌<◌, ◌≡◌, ◌⊎◌, List, [], ◌∷◌, false}
use go_phat.Vr.State.{DoViewChangeArgs}
use go_phat.Vr.Exec.{World}
use go_phat.Vr.ViewChange.{zero_do_view_change}
use go_phat.Vr.ViewChange.Master.{or_empty, Best, better}

module _ {C : Type 0} where
  -- The first message is not after the second one in the order of (NormalView, OpNumber).
  abbrev pub IsAtMost : DoViewChangeArgs C → DoViewChangeArgs C → Type 0
  IsAtMost m b =
      (m.normal_view < b.normal_view)
      ⊎ ((m.normal_view ≡ b.normal_view) × (m.op_number ≤ b.op_number))

  -- No message has a higher (NormalView, OpNumber) pair, view or commit number than was chosen.
  abbrev pub Tops : Best C → List (DoViewChangeArgs C) → Type 0
  Tops b [] = Unit {0}
  Tops b (m ∷ msgs) =
      IsAtMost m b.best_rep × (m.view ≤ b.max_view) × (m.commit_number ≤ b.max_commit) × Tops b msgs

  -- What was weighed before stays topped.
  record Grows (a b : Best C) : Type 0 where
    not_better : better a.best_rep b.best_rep ≡ false
    view : a.max_view ≤ b.max_view
    commit : a.max_commit ≤ b.max_commit

  -- The number is that of one of the messages.
  abbrev pub Occurs : (DoViewChangeArgs C → ℕ) → ℕ → List (DoViewChangeArgs C) → Type 0
  Occurs f n [] = ⊥
  Occurs f n (m ∷ msgs) = (f m ≡ n) ⊎ Occurs f n msgs

  record Chosen (b : Best C) (msgs : List (DoViewChangeArgs C)) (b' : Best C) : Type 0 where
    grows : Grows b b'
    tops : Tops b' msgs
    member : (b'.best_rep ≡ b.best_rep) ⊎ Memᴰ b'.best_rep msgs
    view : (b'.max_view ≡ b.max_view) ⊎ Occurs (λ m. m.view) b'.max_view msgs
    commit : (b'.max_commit ≡ b.max_commit) ⊎ Occurs (λ m. m.commit_number) b'.max_commit msgs

  -- The message whose log a new master takes over, and the view and the commit number: no message has
  -- a higher (NormalView, OpNumber) pair, in this order, view or commit number, and each of the three
  -- is that of one of the messages, or of the zero message.
  pub record IsHighest (b : Best C) (msgs : List (DoViewChangeArgs C)) : Type 0 where
    pub tops : Tops b msgs
    pub among : (b.best_rep ≡ zero_do_view_change) ⊎ Memᴰ b.best_rep msgs
    pub view : (b.max_view ≡ 0) ⊎ Occurs (λ m. m.view) b.max_view msgs
    pub commit : (b.max_commit ≡ 0) ⊎ Occurs (λ m. m.commit_number) b.max_commit msgs

  -- The replica with the log and op number of the best message and the highest view.
  abbrev pub taken_over : Best C → World C → World C
  taken_over b w = record w {
    replica = record (w.replica) {
      phatlog = or_empty b.best_rep.log;
      rstate = record (w.replica.rstate) { view = b.max_view; op_number = b.best_rep.op_number };
    };
  }
