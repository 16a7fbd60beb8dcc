-- ===== src/Phatlog/Entries.antt =====
-- What a log holds after `Add` and `Suffix` (phatlog/phatlog.go), and its bounds.
use go_phat.Prelude.{
  ℕ, zero, suc, ◌+◌, ◌-◌, ◌≤◌, ◌<◌, ◌≡◌, refl, Option, none, some, ◌&&◌, ltb, leb, ◌==◌,
  if◌then◌else◌, u64, u64_mod, arith, nat_eq,
}
use go_phat.Prelude.Assoc.{lookup, lookup-insert}
use go_phat.Phatlog.{Log, add, get_command, suffix_loop, suffix, empty_log}

module _ {A : Type 0} where
  pub get_command-add :
      (i j : ℕ) (c : Option A) (l : Log A)
      → get_command (add i c l) j ≡ (if i == j then c else get_command l j)
  unfolding get_command add
  get_command-add i j c l = ground (arith, lookup-insert i j c l.commits)

  pub max_index-add : (i : ℕ) (c : Option A) (l : Log A) → l.max_index ≤ (add i c l).max_index
  unfolding add
  max_index-add i c l = ground arith

  -- Every entry lies within the two bounds.
  pub record IsBounded (l : Log A) : Type 0 where
    pub within : (j : ℕ) (c : A) → get_command l j ≡ some c → (l.min_index < j) × (j ≤ l.max_index)

  -- `Add` of an index above the lower bound keeps the bounds.
  pub add-IsBounded :
      (i : ℕ) (c : Option A) (l : Log A) → l.min_index < i → IsBounded l → IsBounded (add i c l)
  add-IsBounded i c l h b = record {
    within = λ j d e. unfold add in ground (arith, get_command-add i j c l, b.within j d);
  }

  suffix_loop-get :
      (l : Log A) (rounds i : ℕ) (n : Log A) (j : ℕ)
      → get_command (suffix_loop l rounds i n) j
        ≡ (if leb i j && ltb j (i + rounds) then get_command l j else get_command n j)
  unfolding suffix_loop
  suffix_loop-get l zero i n j = ground arith
  suffix_loop-get l (suc rounds) i n j = ground (
    arith,
    suffix_loop-get l rounds (suc i) (add i (get_command l i) n) j,
    get_command-add i j (get_command l i) n,
  )

  get_command-empty :
      (b j : ℕ) → get_command (record (empty_log {A = A}) { min_index = b }) j ≡ none
  unfolding get_command lookup
  get_command-empty b j = refl

  -- The suffix after `b`, which is not the last 64-bit number, holds the entries strictly between `b`
  -- and the highest index, as they are in the log, and nothing else.
  pub get_command-suffix :
      (l : Log A) (b j : ℕ)
      → b + 1 < u64_mod
      → get_command (suffix l b) j
        ≡ (if ltb b j && ltb j l.max_index then get_command l j else none)
  unfolding suffix
  get_command-suffix l b j h = ground (
    arith,
    suffix_loop-get l (l.max_index - u64 (b + 1)) (u64 (b + 1)) (record empty_log { min_index = b })
        j,
    get_command-empty b j,
  )
