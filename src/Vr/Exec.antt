-- ===== src/Vr/Exec.antt =====
-- Handlers as actions on a replica and its surroundings. Go has no exceptions here: an action ends,
-- or the process stops for good in it (a failed `assert` exits, a nil pointer or an index out of
-- range panics), or it waits forever.
use go_phat.Prelude.{ℕ, List, [], ◌∷◌, ◌++◌, Bool, if◌then◌else◌}
use go_phat.Vr.State.{Replica, Effect, GetStateResponse}

-- `inbox` has the replies that the blocking state transfers will get, `outbox` what was sent.
pub record World (C : Type 0) : Type 0 where
  pub replica : Replica C
  pub inbox : List (GetStateResponse C)
  pub outbox : List (Effect C)
  pub next_chan : ℕ

pub data Stop : Type 0 where
  blocked exited panicked out_of_fuel : Stop

pub data Run (C A : Type 0) : Type 0 where
  ok : A → World C → Run C A
  stop : Stop → World C → Run C A

abbrev pub Exec : Type 0 → Type 0 → Type 0
Exec C A = World C → Run C A

abbrev pub and_then : {C A B : Type 0} → Run C A → (A → Exec C B) → Run C B
and_then (ok a w) f = f a w
and_then (stop s w) f = stop s w

infixl 5 ◌>>=◌ ◌>>◌
abbrev pub ◌>>=◌ : {C A B : Type 0} → Exec C A → (A → Exec C B) → Exec C B
◌>>=◌ m f w = and_then (m w) f

abbrev pub ◌>>◌ : {C B : Type 0} → Exec C (Unit {0}) → Exec C B → Exec C B
m >> k = m >>= λ _. k

module _ {C : Type 0} where
  abbrev pub pure : {A : Type 0} → A → Exec C A
  pure a w = ok a w

  abbrev pub get : Exec C (Replica C)
  get w = ok w.replica w

  abbrev pub put : Replica C → Exec C (Unit {0})
  put r w = ok tt (record w { replica = r })

  abbrev pub emit : Effect C → Exec C (Unit {0})
  emit e w = ok tt (record w { outbox = w.outbox ++ e ∷ [] })

  abbrev pub assert : Bool → Exec C (Unit {0})
  assert b w = if b then ok tt w else stop exited w

  -- What the action ends with satisfies `P`; it does end.
  abbrev pub Returns : {A : Type 0} → (A → World C → Type 0) → Run C A → Type 0
  Returns P (ok a w) = P a w
  Returns P (stop s w) = ⊥

  -- Wherever the action ends or stops, the world satisfies `P`.
  abbrev pub Always : {A : Type 0} → (World C → Type 0) → Run C A → Type 0
  Always P (ok a w) = P w
  Always P (stop s w) = P w

pub Always-and_then :
    {C A B : Type 0} (P : World C → Type 0) (r : Run C A) (f : A → Exec C B)
    → Always P r
    → ((a : A) (w : World C) → P w → Always P (f a w))
    → Always P (and_then r f)
Always-and_then P (ok a w) f p keep = keep a w p
Always-and_then P (stop s w) f p keep = p

-- The action ends with a result and a world in `P`, or stops in a world in `Q`.
abbrev pub Yields : {C A : Type 0} → (A → World C → Type 0) → (World C → Type 0) → Run C A → Type 0
Yields P Q (ok a w) = P a w
Yields P Q (stop s w) = Q w

pub Yields-and_then :
    {C A B : Type 0} (P : A → World C → Type 0) (P' : B → World C → Type 0) (Q : World C → Type 0)
    (r : Run C A) (f : A → Exec C B)
    → Yields P Q r
    → ((a : A) (w : World C) → P a w → Yields P' Q (f a w))
    → Yields P' Q (and_then r f)
Yields-and_then P P' Q (ok a w) f p keep = keep a w p
Yields-and_then P P' Q (stop s w) f p keep = p

pub Always-mono :
    {C A : Type 0} (P Q : World C → Type 0) (r : Run C A)
    → ((w : World C) → P w → Q w)
    → Always P r
    → Always Q r
Always-mono P Q (ok a w) f p = f w p
Always-mono P Q (stop s w) f p = f w p

pub Always-of_Yields :
    {C A B : Type 0} (P : A → World C → Type 0) (Q R : World C → Type 0) (r : Run C A)
    (f : A → Exec C B)
    → Yields P Q r
    → ((a : A) (w : World C) → P a w → Always R (f a w))
    → ((w : World C) → Q w → R w)
    → Always R (and_then r f)
Always-of_Yields P Q R (ok a w) f p next stopped = next a w p
Always-of_Yields P Q R (stop s w) f p next stopped = stopped w p

pub Always-next :
    {C A B : Type 0} (P R : World C → Type 0) (r : Run C A) (f : A → Exec C B)
    → Always P r
    → ((a : A) (w : World C) → P w → Always R (f a w))
    → ((w : World C) → P w → R w)
    → Always R (and_then r f)
Always-next P R (ok a w) f p next stopped = next a w p
Always-next P R (stop s w) f p next stopped = stopped w p

pub Always-all :
    {C A : Type 0} (P : World C → Type 0) (r : Run C A) → ((w : World C) → P w) → Always P r
Always-all P (ok a w) h = h w
Always-all P (stop s w) h = h w
