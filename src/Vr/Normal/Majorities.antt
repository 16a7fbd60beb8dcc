-- ===== src/Vr/Normal/Majorities.antt =====
-- Do F + 1 replicas make a majority? (`RunAsReplica`, `calcHighestMajorityOp` of vr/vr.go.)
use go_phat.Prelude.{
  ℕ, zero, suc, ◌+◌, ◌%◌, ◌≤◌, ◌<◌, ◌≡◌, refl, some, List, [], ◌∷◌, ◌++◌, Bool, true, false, length,
  length-append, get_elem?, count_if, replicate, u64_mod, arith, length-replicate,
}
use go_phat.Vr.Normal.{globals}

-- A set of replicas: for each number, is the replica in it?
abbrev pub size : List Bool → ℕ
size xs = count_if (λ x. x) xs

abbrev pub overlap : List Bool → List Bool → ℕ
overlap [] ys = 0
overlap (x ∷ xs) [] = 0
overlap (true ∷ xs) (true ∷ ys) = suc (overlap xs ys)
overlap (true ∷ xs) (false ∷ ys) = overlap xs ys
overlap (false ∷ xs) (y ∷ ys) = overlap xs ys

size-overlap :
    (xs ys : List Bool) → length xs ≡ length ys → size xs + size ys ≤ length xs + overlap xs ys
size-overlap [] [] e = omega arith
size-overlap [] (y ∷ ys) e = absurd (omega arith)
size-overlap (x ∷ xs) [] e = absurd (omega arith)
size-overlap (true ∷ xs) (true ∷ ys) e = let ih = size-overlap xs ys (omega arith) in omega arith
size-overlap (true ∷ xs) (false ∷ ys) e = let ih = size-overlap xs ys (omega arith) in omega arith
size-overlap (false ∷ xs) (true ∷ ys) e = let ih = size-overlap xs ys (omega arith) in omega arith
size-overlap (false ∷ xs) (false ∷ ys) e = let ih = size-overlap xs ys (omega arith) in omega arith

overlap-shared :
    (xs ys : List Bool)
    → 0 < overlap xs ys
    → (i : ℕ) × (get_elem? xs i ≡ some true) × (get_elem? ys i ≡ some true)
overlap-shared [] ys lt = absurd (omega arith)
overlap-shared (x ∷ xs) [] lt = absurd (omega arith)
overlap-shared (true ∷ xs) (true ∷ ys) lt = (0, refl, refl)
overlap-shared (true ∷ xs) (false ∷ ys) lt =
    let (i, h, k) = overlap-shared xs ys lt in (suc i, h, k)
overlap-shared (false ∷ xs) (y ∷ ys) lt = let (i, h, k) = overlap-shared xs ys lt in (suc i, h, k)

-- In a cluster with an odd 64-bit number of replicas, any two sets of F + 1 of them, for the F that
-- `RunAsReplica` computes, share a replica.
pub quorums-meet :
    (n : ℕ) (xs ys : List Bool)
    → n % 2 ≡ 1
    → n < u64_mod
    → length xs ≡ n
    → length ys ≡ n
    → (globals n).f + 1 ≤ size xs
    → (globals n).f + 1 ≤ size ys
    → (i : ℕ) × (get_elem? xs i ≡ some true) × (get_elem? ys i ≡ some true)
unfolding globals
quorums-meet n xs ys odd word lx ly sx sy =
    let bound = size-overlap xs ys (omega arith) in overlap-shared xs ys (omega arith)

size-append : (xs ys : List Bool) → size (xs ++ ys) ≡ size xs + size ys
size-append [] ys = omega arith
size-append (true ∷ xs) ys = omega (arith, size-append xs ys)
size-append (false ∷ xs) ys = omega (arith, size-append xs ys)

size_full : (n : ℕ) → size (replicate n true) ≡ n
size_full zero = refl
size_full (suc n) = omega (arith, size_full n)

size_none : (n : ℕ) → size (replicate n false) ≡ 0
size_none zero = refl
size_none (suc n) = omega (arith, size_none n)

overlap_none :
    (n m : ℕ)
    → overlap (replicate n true ++ replicate m false) (replicate n false ++ replicate m true) ≡ 0
overlap_none zero zero = refl
overlap_none zero (suc m) = overlap_none zero m
overlap_none (suc n) m = overlap_none n m

-- With an even number of replicas, 2 at least and below 2^64, they need not: there are two sets of F + 1 replicas each that have
-- none in common.
pub quorums-miss :
    (n : ℕ)
    → n % 2 ≡ 0
    → 0 < n
    → n < u64_mod
    → (xs : List Bool) × (ys : List Bool) × (length xs ≡ n)
      × (length ys ≡ n)
      × (size xs ≡ (globals n).f + 1)
      × (size ys ≡ (globals n).f + 1)
      × (overlap xs ys ≡ 0)
unfolding globals
quorums-miss n even lt word =
    let h = (globals n).f + 1 in
    let half : h + h ≡ n = omega arith in
    let xs = replicate h true ++ replicate h false in
    let ys = replicate h false ++ replicate h true in
    (
      xs,
      ys,
      omega (
        arith,
        length-append (replicate h true) (replicate h false),
        length-replicate h true,
        length-replicate h false,
      ),
      omega (
        arith,
        length-append (replicate h false) (replicate h true),
        length-replicate h true,
        length-replicate h false,
      ),
      omega (arith, size-append (replicate h true) (replicate h false), size_full h, size_none h),
      omega (arith, size-append (replicate h false) (replicate h true), size_full h, size_none h),
      overlap_none h h,
    )
