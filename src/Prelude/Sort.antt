-- ===== src/Prelude/Sort.antt =====
-- `sort.Sort` on numbers, in ascending order. The sorted list is unique, so that the algorithm does
-- not show; and how many elements reach the one at an index.
use Prim.Native.Nat.{ℕ, zero, suc, ◌+◌, ◌-◌, ◌≤◌, ◌<◌}
use mathlib.Core.Path.{◌≡◌, refl}
use mathlib.Core.List.{List, [], ◌∷◌}
use mathlib.Core.Option.{some}
use native.Mathlib.Omega.{arith}
use go_phat.Prelude.Tests.{leb, if◌then◌else◌}
use go_phat.Prelude.Lists.{length, get_elem?, count_if}

insert_sorted : ℕ → List ℕ → List ℕ
insert_sorted x [] = x ∷ []
insert_sorted x (y ∷ ys) = if leb x y then x ∷ y ∷ ys else y ∷ insert_sorted x ys

unfoldable pub sort : List ℕ → List ℕ
unfolding insert_sorted
sort [] = []
sort (x ∷ xs) = insert_sorted x (sort xs)

-- Every element of a list is at least `a`.
abbrev AtLeast : ℕ → List ℕ → Type 0
AtLeast a [] = Unit {0}
AtLeast a (x ∷ xs) = (a ≤ x) × AtLeast a xs

abbrev pub IsSorted : List ℕ → Type 0
IsSorted [] = Unit {0}
IsSorted (x ∷ xs) = AtLeast x xs × IsSorted xs

AtLeast-mono : (a b : ℕ) (xs : List ℕ) → b ≤ a → AtLeast a xs → AtLeast b xs
AtLeast-mono a b [] h k = tt
AtLeast-mono a b (x ∷ xs) h k = (omega arith, AtLeast-mono a b xs h k.1)

AtLeast-insert_sorted :
    (a x : ℕ) (xs : List ℕ) → a ≤ x → AtLeast a xs → AtLeast a (insert_sorted x xs)
unfolding insert_sorted
AtLeast-insert_sorted a x [] h k = (h, tt)
AtLeast-insert_sorted a x (y ∷ ys) h k = ground (arith, AtLeast-insert_sorted a x ys)

insert_sorted-IsSorted : (x : ℕ) (xs : List ℕ) → IsSorted xs → IsSorted (insert_sorted x xs)
unfolding insert_sorted
insert_sorted-IsSorted x [] k = (tt, tt)
insert_sorted-IsSorted x (y ∷ ys) k =
    ground (arith, insert_sorted-IsSorted x ys, AtLeast-mono y x ys, AtLeast-insert_sorted y x ys)

pub sort-IsSorted : (xs : List ℕ) → IsSorted (sort xs)
unfolding sort
sort-IsSorted [] = tt
sort-IsSorted (x ∷ xs) = insert_sorted-IsSorted x (sort xs) (sort-IsSorted xs)

-- How many elements are at least `m`.
abbrev pub reaching : ℕ → List ℕ → ℕ
reaching m = count_if (leb m)

reaching-insert_sorted :
    (m x : ℕ) (xs : List ℕ)
    → reaching m (insert_sorted x xs) ≡ (if leb m x then 1 else 0) + reaching m xs
unfolding insert_sorted
reaching-insert_sorted m x [] = refl
reaching-insert_sorted m x (y ∷ ys) = ground (arith, reaching-insert_sorted m x ys)

-- Sorting keeps the elements, as often.
pub reaching-sort : (m : ℕ) (xs : List ℕ) → reaching m (sort xs) ≡ reaching m xs
unfolding sort
reaching-sort m [] = refl
reaching-sort m (x ∷ xs) = omega (arith, reaching-insert_sorted m x (sort xs), reaching-sort m xs)

length-insert_sorted : (x : ℕ) (xs : List ℕ) → length (insert_sorted x xs) ≡ suc (length xs)
unfolding insert_sorted
length-insert_sorted x [] = refl
length-insert_sorted x (y ∷ ys) = ground (arith, length-insert_sorted x ys)

pub length-sort : (xs : List ℕ) → length (sort xs) ≡ length xs
unfolding sort
length-sort [] = refl
length-sort (x ∷ xs) = omega (arith, length-insert_sorted x (sort xs), length-sort xs)

reaching_all : (m : ℕ) (xs : List ℕ) → AtLeast m xs → reaching m xs ≡ length xs
reaching_all m [] h = refl
reaching_all m (x ∷ xs) h = ground (arith, reaching_all m xs)

-- In a sorted list the element at index `i`, and all after it, reach that element.
pub reaching-get_elem? :
    (xs : List ℕ) (i m : ℕ) → IsSorted xs → get_elem? xs i ≡ some m → length xs - i ≤ reaching m xs
reaching-get_elem? [] i m s h = omega arith
reaching-get_elem? (x ∷ xs) zero m s h = ground (arith, reaching_all x xs)
reaching-get_elem? (x ∷ xs) (suc i) m s h = omega (arith, reaching-get_elem? xs i m s.1 h)

reaching_none : (m : ℕ) (xs : List ℕ) → reaching m xs ≤ length xs
reaching_none m [] = omega arith
reaching_none m (x ∷ xs) = ground (arith, reaching_none m xs)

AtLeast-get_elem? : (a : ℕ) (xs : List ℕ) (i m : ℕ) → AtLeast a xs → get_elem? xs i ≡ some m → a ≤ m
AtLeast-get_elem? a [] i m k h = absurd (ground arith)
AtLeast-get_elem? a (x ∷ xs) zero m k h = ground arith
AtLeast-get_elem? a (x ∷ xs) (suc i) m k h = AtLeast-get_elem? a xs i m k.1 h

-- No larger number is reached by as many elements.
pub reaching_above :
    (xs : List ℕ) (i m k : ℕ)
    → IsSorted xs
    → get_elem? xs i ≡ some m
    → m < k
    → reaching k xs < length xs - i
reaching_above [] i m k s h lt = absurd (ground arith)
reaching_above (x ∷ xs) zero m k s h lt = ground (arith, reaching_none k xs)
reaching_above (x ∷ xs) (suc i) m k s h lt =
    ground (arith, reaching_above xs i m k s.1 h lt, AtLeast-get_elem? x xs i m s.0 h)

pub reaching_mono : (k m : ℕ) (xs : List ℕ) → k ≤ m → reaching m xs ≤ reaching k xs
reaching_mono k m [] h = omega arith
reaching_mono k m (x ∷ xs) h = ground (arith, reaching_mono k m xs h)
