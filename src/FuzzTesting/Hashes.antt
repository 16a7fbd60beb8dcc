-- ===== src/FuzzTesting/Hashes.antt =====
-- The comparison of the replicas' hashes (fuzz_testing/test_master.go).
use go_phat.Prelude.{
  ℕ, ◌+◌, ◌≤◌, ◌≡◌, ◌↔◌, refl, sym, String, List, [], ◌∷◌, true, false, str_eq, eq_iff,
  if◌then◌else◌, Bool-cases, inl, inr, arith,
}
use go_phat.FuzzTesting.{NodeStatus, alive, killed, stopped, count_failures, ensure_equal_hash}

-- Every node that is alive has this hash.
abbrev pub AllHave : String → List (NodeStatus × String) → Type 0
AllHave e [] = Unit {0}
AllHave e ((alive, h) ∷ rest) = (h ≡ e) × AllHave e rest
AllHave e ((killed, h) ∷ rest) = AllHave e rest
AllHave e ((stopped, h) ∷ rest) = AllHave e rest

-- No hash is the empty text; those of SHA-256 are not.
abbrev pub AreHashes : List (NodeStatus × String) → Type 0
AreHashes [] = Unit {0}
AreHashes ((status, h) ∷ rest) = (str_eq h "" ≡ false) × AreHashes rest

count_failures-le :
    (e : String) (n : ℕ) (nodes : List (NodeStatus × String)) → n ≤ count_failures e n nodes
unfolding count_failures
count_failures-le e n [] = omega arith
count_failures-le e n ((alive, h) ∷ rest) =
    let e' = if str_eq e "" then h else e in
    elim (Bool-cases (str_eq e' h)) [
      | inl same ↦ rw same (count_failures-le e' n rest)
      | inr other ↦ rw other (omega (arith, count_failures-le e' (n + 1) rest))
    ]
count_failures-le e n ((killed, h) ∷ rest) = count_failures-le e n rest
count_failures-le e n ((stopped, h) ∷ rest) = count_failures-le e n rest

differs : (e h : String) → str_eq e h ≡ false → h ≡ e → ⊥
differs e h other is = let same = (eq_iff e h).1 (sym is) in cc

-- With a hash that is expected, there is no failure more exactly if all have it.
expected-AllHave :
    (e : String) (n : ℕ) (nodes : List (NodeStatus × String))
    → str_eq e "" ≡ false
    → (count_failures e n nodes ≡ n) ↔ AllHave e nodes
unfolding count_failures
expected-AllHave e n [] given = (λ h. tt, λ h. refl)
expected-AllHave e n ((alive, h) ∷ rest) given = elim (Bool-cases (str_eq e h)) [
  | inl same ↦
      let (to, from) = expected-AllHave e n rest given in
      let is_e : h ≡ e = sym ((eq_iff e h).0 same) in
      rw (given, same) (λ none_more. (is_e, to none_more), λ all. from all.1)
  | inr other ↦
      let more = count_failures-le e (n + 1) rest in
      rw (given, other) (λ none_more. absurd (omega arith), λ all. absurd (differs e h other all.0))
]
expected-AllHave e n ((killed, h) ∷ rest) given = expected-AllHave e n rest given
expected-AllHave e n ((stopped, h) ∷ rest) given = expected-AllHave e n rest given

no_failures-AllHave :
    (nodes : List (NodeStatus × String))
    → AreHashes nodes
    → (count_failures "" 0 nodes ≡ 0) ↔ ((e : String) × AllHave e nodes)
unfolding count_failures
no_failures-AllHave [] hashes = (λ h. ("", tt), λ h. refl)
no_failures-AllHave ((alive, h) ∷ rest) hashes =
    let (to, from) = expected-AllHave h 0 rest hashes.0 in
    let itself : str_eq h h ≡ true = (eq_iff h h).1 refl in
    rw itself (λ none_yet. (h, (refl, to none_yet)), λ all. from (rw (all.1.0) all.1.1))
no_failures-AllHave ((killed, h) ∷ rest) hashes = no_failures-AllHave rest hashes.1
no_failures-AllHave ((stopped, h) ∷ rest) hashes = no_failures-AllHave rest hashes.1

-- `EnsureEqualHash` lets the test pass exactly if there is a hash that every node alive has.
pub ensure_equal_hash_iff :
    (nodes : List (NodeStatus × String))
    → AreHashes nodes
    → (ensure_equal_hash nodes ≡ true) ↔ ((e : String) × AllHave e nodes)
unfolding ensure_equal_hash
ensure_equal_hash_iff nodes hashes =
    let (to, from) = no_failures-AllHave nodes hashes in
    (λ passes. to (ground arith), λ all. let none_yet = from all in ground arith)
