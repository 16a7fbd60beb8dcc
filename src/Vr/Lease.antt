-- ===== src/Vr/Lease.antt =====
-- Leases and heartbeats (vr/lease.go), and who is the master (vr/helpers.go). Times are nanoseconds.
-- `Timer.Reset(d)` sets the time at which the timer fires to now plus d, and to now if d < 0.
use go_phat.Prelude.{
  ℕ, ◌+◌, ◌-◌, ◌/◌, ◌%◌, Option, none, some, List, Bool, ◌&&◌, not, ◌==◌, ltb, if◌then◌else◌,
  length, get_elem?, nat_eq,
}
use go_phat.Prelude.Assoc.{insert, values}
use go_phat.Prelude.Sort.{sort}
use go_phat.Vr.State.{Globals, Replica}
use go_phat.Vr.Exec.{Exec, panicked, ok, stop, ◌>>=◌, ◌>>◌, pure, get, put}
use go_phat.Vr.Commit.{is_normal}

-- LEASE, MAX_CLOCK_DRIFT and RENEW_FACTOR
abbrev pub lease : ℕ
lease = 2000000000

abbrev pub max_clock_drift : ℕ
max_clock_drift = lease / 10

abbrev pub renew_factor : ℕ
renew_factor = 2

-- `SortTimes`
unfoldable pub sort_times : List (ℕ × ℕ) → List ℕ
sort_times times = sort (values times)

module _ {C : Type 0} where
  unfoldable pub get_master_id : Globals → Replica C → ℕ
  get_master_id g r = r.rstate.view % g.nreplicas

  unfoldable pub is_master : Globals → Replica C → Bool
  is_master g r =
      r.rstate.view % g.nreplicas == r.rstate.replica_number && is_normal r.rstate.status

  unfoldable pub extend_lease : (now new_time : ℕ) → Replica C → Replica C
  extend_lease now new_time r = record r {
    rstate = record (r.rstate) { timer = now + (new_time - now) };
  }

  unfoldable pub extend_needs_renewal : (now new_time : ℕ) → Replica C → Replica C
  extend_needs_renewal now new_time r = record r {
    mstate = record (r.mstate) { timer = some (now + (new_time - now) / renew_factor) };
  }

  -- An index out of range panics.
  abbrev pub or_panic : {A : Type 0} → Option A → Exec C A
  or_panic none w = stop panicked w
  or_panic (some a) w = ok a w

  unfoldable pub heartbeat : Globals → (now replica new_time : ℕ) → Exec C (Unit {0})
  unfolding is_master extend_lease extend_needs_renewal
  heartbeat g now replica new_time = do
    r ← get
    if not (is_master g r)
        then pure tt
        else if not r.mstate.made
        then (λ w. stop panicked w)
        else do
          let heartbeats = insert replica new_time r.mstate.heartbeats
          put (record r { mstate = record (r.mstate) { heartbeats = heartbeats } })
          let sorted = sort_times heartbeats
          if ltb (length sorted) g.f then pure tt else do
            time ← or_panic (get_elem? sorted (length sorted - g.f))
            r ← get
            let expiry = time - max_clock_drift
            put (extend_lease now expiry (extend_needs_renewal now expiry r))
