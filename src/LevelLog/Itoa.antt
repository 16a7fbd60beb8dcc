-- ===== src/LevelLog/Itoa.antt =====
-- The numbers in a log line (level_log/level_log.go): what `itoa` prints reads back.
use mathlib.Core.List.{append_assoc, append-nil}
use go_phat.Prelude.{
  ℕ, zero, suc, ◌+◌, ◌-◌, ◌*◌, ◌/◌, ◌%◌, ◌^◌, ◌≤◌, ◌<◌, ◌≡◌, refl, sym, ap, ◌∙◌, ◌⊎◌, inl, inr,
  some, [], ◌∷◌, ◌++◌, ◌||◌, ◌&&◌, Bool-cases, ltb, leb, ◌==◌, length, length-append, u64_mod,
  arith,
}
use go_phat.LevelLog.{Bytes, assemble, itoa}

-- The number that decimal digits stand for, `acc` being that of the digits in front.
unfoldable pub value_from : ℕ → Bytes → ℕ
value_from acc [] = acc
value_from acc (d ∷ ds) = value_from (acc * 10 + (d - b'0')) ds

abbrev pub AreDigits : Bytes → Type 0
AreDigits [] = Unit {0}
AreDigits (d ∷ ds) = (b'0' ≤ d) × (d ≤ b'9') × AreDigits ds

value_from-append :
    (acc : ℕ) (ds : Bytes) (d : ℕ)
    → value_from acc (ds ++ d ∷ []) ≡ value_from acc ds * 10 + (d - b'0')
unfolding value_from
value_from-append acc [] d = refl
value_from-append acc (e ∷ ds) d = value_from-append (acc * 10 + (e - b'0')) ds d

AreDigits-append :
    (ds : Bytes) (d : ℕ) → AreDigits ds → b'0' ≤ d → d ≤ b'9' → AreDigits (ds ++ d ∷ [])
AreDigits-append [] d h lo hi = (lo, hi, tt)
AreDigits-append (e ∷ ds) d (p, q, h) lo hi = (p, q, AreDigits-append ds d h lo hi)

-- As many digits as the width, or as the number needs.
abbrev pub IsTight : (u wid n : ℕ) → Type 0
IsTight u wid n = (n ≡ wid) ⊎ ((k : ℕ) × (n ≡ suc k) × (10 ^ k ≤ u))

record Printed (bp u wid : ℕ) (b : Bytes) : Type 0 where
  ds : Bytes
  prints : assemble bp u wid b ≡ some (ds ++ b)
  value : value_from 0 ds ≡ u
  digits : AreDigits ds
  wide : wid ≤ length ds
  narrow : length ds ≤ bp
  tight : IsTight u wid (length ds)

pow_suc : (k : ℕ) → 10 ^ suc k ≡ 10 * 10 ^ k
pow_suc k = omega arith

IsTight-step : (u wid n : ℕ) → 0 < u + wid → IsTight (u / 10) (wid - 1) n → IsTight u wid (suc n)
IsTight-step u zero n more (inl e) = inr (0, omega arith, omega arith)
IsTight-step u (suc wid) n more (inl e) = inl (omega arith)
IsTight-step u wid n more (inr (k, e, le)) = inr (suc k, omega arith, omega (arith, pow_suc k))

assemble-Printed : (bp u wid : ℕ) (b : Bytes) → u < 10 ^ bp → wid ≤ bp → Printed bp u wid b
unfolding assemble value_from
assemble-Printed zero u wid b small fits = record {
  ds = [];
  prints = ground arith;
  value = omega arith;
  digits = tt;
  wide = omega arith;
  narrow = omega arith;
  tight = inl (omega arith);
}
assemble-Printed (suc bp) u wid b small fits = elim (Bool-cases (ltb 0 u || ltb 0 wid)) [
  | inr over ↦
      let nothing : u ≡ 0 = ground arith in
      let narrow_wid : wid ≡ 0 = ground arith in
      record {
        ds = [];
        prints = rw over refl;
        value = omega arith;
        digits = tt;
        wide = omega arith;
        narrow = omega arith;
        tight = inl (omega arith);
      }
  | inl more ↦
      let some_left : 0 < u + wid = ground arith in
      let d = u % 10 + b'0' in
      let p =
        assemble-Printed bp (u / 10) (wid - 1) (d ∷ b) (omega (arith, pow_suc bp)) (omega arith) in
      let longer : length (p.ds ++ d ∷ []) ≡ length p.ds + 1 = length-append p.ds (d ∷ []) in
      record {
        ds = p.ds ++ d ∷ [];
        prints = rw more (p.prints ∙ ap some (sym (append_assoc p.ds (d ∷ []) b)));
        value = value_from-append 0 p.ds d ∙ omega (arith, p.value);
        digits = AreDigits-append p.ds d p.digits (omega arith) (omega arith);
        wide = omega (arith, p.wide, longer);
        narrow = omega (arith, p.narrow, longer);
        tight =
            let same : suc (length p.ds) ≡ length (p.ds ++ d ∷ []) = omega (arith, longer) in
            rw same at (IsTight-step u wid (length p.ds) some_left p.tight);
      }
]

-- `itoa` on a 64-bit number and a width of at most 32 does not run out of its buffer: it prints
-- decimal digits that read back as the number, at least as many as the width, and no more than the
-- width or the number needs, or one for 0.
pub itoa-reads_back :
    (u wid : ℕ)
    → u < u64_mod
    → wid ≤ 32
    → (ds : Bytes) × (itoa u wid ≡ some ds)
      × (value_from 0 ds ≡ u)
      × AreDigits ds
      × (wid ≤ length ds)
      × (IsTight u wid (length ds) ⊎ ((u ≡ 0) × (length ds ≡ 1)))
unfolding itoa value_from
itoa-reads_back u wid small fits = elim (Bool-cases (u == 0 && leb wid 1)) [
  | inl nothing ↦
      let zero_u : 0 ≡ u = ground arith in
      let narrow : wid ≤ 1 = ground arith in
      (
        b'0' ∷ [],
        rw (nothing, itoa) refl,
        zero_u,
        (omega arith, omega arith, tt),
        narrow,
        inr (sym zero_u, refl),
      )
  | inr more ↦
      let p = assemble-Printed 32 u wid [] (omega arith) fits in
      (
        p.ds,
        rw (more, itoa) (p.prints ∙ ap some (append-nil p.ds)),
        p.value,
        p.digits,
        p.wide,
        inl p.tight,
      )
]
