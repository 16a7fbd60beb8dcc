-- ===== src/Phatlog.antt =====
-- phatlog/phatlog.go: the log of a replica, a map from indices to commands with two bounds.
-- An entry is an `interface{}`, so that it can be nil (`none`). `HashLog` is not modelled.
pub mod Entries
pub mod Tests
use go_phat.Prelude.{
  ℕ, zero, suc, ◌+◌, ◌-◌, Option, none, some, List, [], Bool, u64, ltb, if◌then◌else◌, nat_eq,
}
use go_phat.Prelude.Assoc.{lookup, insert}

pub record Log (A : Type 0) : Type 0 where
  pub commits : List (ℕ × Option A)
  pub max_index : ℕ
  pub min_index : ℕ

unfoldable pub max_uint : ℕ → ℕ → ℕ
max_uint a b = if ltb a b then b else a

module _ {A : Type 0} where
  abbrev pub empty_log : Log A
  empty_log = record { commits = []; max_index = 0; min_index = 0 }

  unfoldable pub add : ℕ → Option A → Log A → Log A
  unfolding max_uint
  add index command l = record l {
    commits = insert index command l.commits;
    max_index = max_uint l.max_index index;
  }

  -- A missing key reads as nil.
  abbrev entry : Option (Option A) → Option A
  entry none = none
  entry (some command) = command

  unfoldable pub get_command : Log A → ℕ → Option A
  get_command l index = entry (lookup index l.commits)

  -- The loop of `Suffix`, `for i := newBegin+1; i < l.MaxIndex; i++`, with the rounds left.
  suffix_loop : Log A → ℕ → ℕ → Log A → Log A
  suffix_loop l zero i new_log = new_log
  suffix_loop l (suc rounds) i new_log =
      suffix_loop l rounds (suc i) (add i (get_command l i) new_log)

  unfoldable pub suffix : Log A → ℕ → Log A
  unfolding suffix_loop
  suffix l new_begin =
      let first = u64 (new_begin + 1) in
      suffix_loop l (l.max_index - first) first (record empty_log { min_index = new_begin })

  unfoldable pub has_entry : Log A → ℕ → Bool
  has_entry l index = ltb l.min_index index
