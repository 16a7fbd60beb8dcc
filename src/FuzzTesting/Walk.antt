-- ===== src/FuzzTesting/Walk.antt =====
-- Going round the nodes, as the loops of the test master do (fuzz_testing/test_master.go).
use native.Mathlib.Nat.{mod-eq_of_lt, mod_self}
use go_phat.Prelude.{ℕ, zero, suc, ◌+◌, ◌-◌, ◌%◌, ◌<◌, ◌≡◌, ap, ◌∙◌, arith}
use native.Mathlib.Decide.{dec_lt}

-- The node after some steps.
abbrev pub walk : ℕ → ℕ → ℕ → ℕ
walk n zero i = i
walk n (suc d) i = walk n d ((i + 1) % n)

walk_up : (n d i : ℕ) → i + d < n → walk n d i ≡ i + d
walk_up n zero i h = omega arith
walk_up n (suc d) i h =
    let next : (i + 1) % n ≡ i + 1 = mod-eq_of_lt (omega arith) in
    ap (walk n d) next ∙ walk_up n d (i + 1) (omega arith) ∙ omega arith

-- Up to the last node, on to node 0, and up again.
walk_round : (n d p i : ℕ) → i + suc d ≡ n → p < n → walk n (suc (d + p)) i ≡ p
walk_round n zero p i h lt =
    let last : i + 1 ≡ n = omega arith in
    let next : (i + 1) % n ≡ 0 = ap (λ k. k % n) last ∙ mod_self n in
    let short : 0 + p ≡ p = omega arith in
    ap (walk n (0 + p)) next
    ∙ ap (λ k. walk n k 0) short
    ∙ walk_up n p 0 (omega arith)
    ∙ omega arith
walk_round n (suc d) p i h lt =
    let next : (i + 1) % n ≡ i + 1 = mod-eq_of_lt (omega arith) in
    let steps : suc d + p ≡ suc (d + p) = omega arith in
    ap (walk n (suc d + p)) next
    ∙ ap (λ k. walk n k (i + 1)) steps
    ∙ walk_round n d p (i + 1) (omega arith) lt

-- Every node is less than one round away.
pub walk-reaches : (n i p : ℕ) → i < n → p < n → (d : ℕ) × (d < n) × (walk n d i ≡ p)
walk-reaches n i p lt lt' = elim (dec_lt p i) [
  | no ahead ↦ (p - i, omega arith, walk_up n (p - i) i (omega arith) ∙ omega arith)
  | yes behind ↦ (suc (n - i - 1 + p), omega arith, walk_round n (n - i - 1) p i (omega arith) lt')
]

-- A whole round leads back.
pub walk-round : (n i : ℕ) → i < n → walk n (suc (n - 1)) i ≡ i
walk-round n i lt =
    let whole : n - 1 ≡ n - i - 1 + i = omega arith in
    ap (λ d. walk n (suc d) i) whole ∙ walk_round n (n - i - 1) i i (omega arith) lt
