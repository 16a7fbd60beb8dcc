-- ===== src/LevelLog/Line.antt =====
-- The lines that a logger writes (level_log/level_log.go).
use mathlib.Core.List.{append-nil}
use go_phat.Prelude.Assoc.{lookup}
use go_phat.Prelude.{
  none, ◌⊎◌, Option-cases, nat_eq, ℕ, ◌/◌, ◌<◌, ◌≡◌, refl, ap, ◌∙◌, Option, some, [], ◌∷◌, ◌++◌,
  Bool, true, false, ◌||◌, Bool-cases, inl, inr, ◌==◌, leb, if◌then◌else◌, has_bit, u64_mod, arith,
}
use go_phat.LevelLog.{
  Bytes, Logger, Time, Caller, ◌<>◌, when, itoa, date_part, time_part, caller_part, format_header,
  lshortfile, llongfile,
}
use go_phat.LevelLog.Output.{
  Runtime, no_caller, caller_of, last_byte, line_end, int_in_slice, write_line, writer_of, writes,
  output,
}
use go_phat.LevelLog.Itoa.{itoa-reads_back}

-- The numbers that a time has are 64-bit numbers.
pub record IsClock (t : Time) : Type 0 where
  pub year : t.year < u64_mod
  pub month : t.month < u64_mod
  pub day : t.day < u64_mod
  pub hour : t.hour < u64_mod
  pub minute : t.minute < u64_mod
  pub second : t.second < u64_mod
  pub nanosecond : t.nanosecond < u64_mod

-- No panic.
record IsThere (x : Option Bytes) : Type 0 where
  bytes : Bytes
  is : x ≡ some bytes

<>-IsThere : (x y : Option Bytes) → IsThere x → IsThere y → IsThere (x <> y)
<>-IsThere x y p q = record { bytes = p.bytes ++ q.bytes; is = rw (p.is, q.is) refl }

when-IsThere : (b : Bool) (x : Option Bytes) → IsThere x → IsThere (when b x)
when-IsThere true x p = p
when-IsThere false x p = record { bytes = []; is = refl }

some-IsThere : (b : Bytes) → IsThere (some b)
some-IsThere b = record { bytes = b; is = refl }

itoa-IsThere : (u wid : ℕ) → u < u64_mod → leb wid 32 ≡ true → IsThere (itoa u wid)
itoa-IsThere u wid small fits =
    let (ds, e, _, _, _, _) = itoa-reads_back u wid small (ground arith) in
    record { bytes = ds; is = e }

ruleset there = (<>-IsThere, when-IsThere, some-IsThere, itoa-IsThere)

date_part-IsThere : (t : Time) → IsClock t → IsThere (date_part t)
unfolding date_part
date_part-IsThere t k = search (there, k.year, k.month, k.day) depth 12

time_part-IsThere : (flag : ℕ) (t : Time) → IsClock t → IsThere (time_part flag t)
unfolding time_part
time_part-IsThere flag t k =
    let micros : t.nanosecond / 1000 < u64_mod = omega (arith, k.nanosecond) in
    search (there, k.hour, k.minute, k.second) depth 14

caller_part-IsThere : (flag : ℕ) (c : Caller) → c.line < u64_mod → IsThere (caller_part flag c)
unfolding caller_part
caller_part-IsThere flag c small = search there depth 12

format_header-IsThere :
    (l : Logger) (t : Time) (c : Caller)
    → IsClock t
    → c.line < u64_mod
    → IsThere (format_header l t c)
unfolding format_header
format_header-IsThere l t c k small =
    search (there, date_part-IsThere, time_part-IsThere, caller_part-IsThere) depth 10

last_byte-append : (xs : Bytes) (y : ℕ) (ys : Bytes) → last_byte (xs ++ y ∷ ys) ≡ last_byte (y ∷ ys)
unfolding last_byte
last_byte-append [] y ys = refl
last_byte-append (x ∷ []) y ys = refl
last_byte-append (x ∷ z ∷ xs) y ys = last_byte-append (z ∷ xs) y ys

last_byte-some : (c : ℕ) (s : Bytes) → (d : ℕ) × (last_byte (c ∷ s) ≡ some d)
unfolding last_byte
last_byte-some c [] = (c, refl)
last_byte-some c (d ∷ s) = last_byte-some d s

line_end-newline : (c : ℕ) (s : Bytes) → last_byte ((c ∷ s) ++ line_end (c ∷ s)) ≡ some b'\n'
unfolding line_end
line_end-newline c s =
    let (d, e) = last_byte-some c s in
    elim (Bool-cases (d == b'\n')) [
      | inl newline ↦
          let same : d ≡ b'\n' = ground arith in
          let nothing : line_end (c ∷ s) ≡ [] = rw (e, newline, line_end) refl in
          ap (λ t. last_byte ((c ∷ s) ++ t)) nothing
          ∙ ap last_byte (append-nil (c ∷ s))
          ∙ e
          ∙ ap some same
      | inr other ↦
          let added : line_end (c ∷ s) ≡ b'\n' ∷ [] = rw (e, other, line_end) refl in
          ap (λ t. last_byte ((c ∷ s) ++ t)) added ∙ last_byte-append (c ∷ s) b'\n' []
    ]

-- What is put behind a text: nothing if it ends in a newline, and a newline if it does not.
abbrev pub IsEnd : Bytes → Bytes → Type 0
IsEnd text tail =
    ((last_byte text ≡ some b'\n') × (tail ≡ []))
    ⊎ ((last_byte text ≡ some b'\n' → ⊥) × (tail ≡ b'\n' ∷ []))

line_end-IsEnd : (c : ℕ) (s : Bytes) → IsEnd (c ∷ s) (line_end (c ∷ s))
unfolding line_end
line_end-IsEnd c s =
    let (d, e) = last_byte-some c s in
    elim (Bool-cases (d == b'\n')) [
      | inl newline ↦
          let same : d ≡ b'\n' = ground arith in
          inl (e ∙ ap some same, rw (e, newline, line_end) refl)
      | inr other ↦ inr (λ ends. ground (arith, ends, e, other), rw (e, other, line_end) refl)
    ]

-- The writer for a level: the one that is set for it, or else the default one.
abbrev pub IsWriterOf : Logger → (level writer : ℕ) → Type 0
IsWriterOf l level writer =
    (lookup level l.write_locations ≡ some writer)
    ⊎ ((lookup level l.write_locations ≡ none) × (l.default_out ≡ writer))

writer_of-IsWriterOf : (l : Logger) (level : ℕ) → IsWriterOf l level (writer_of l level)
unfolding writer_of
writer_of-IsWriterOf l level = elim (Option-cases (lookup level l.write_locations)) [
  | inl missing ↦ inr (missing, rw (missing, writer_of) refl)
  | inr (w, found) ↦ inl (rw (found, writer_of) refl)
]

-- A call of the logger at a level that is selected, with a text that is not empty, makes one `Write`,
-- to the writer that is set for its level or else to the default one: the header of the time and of
-- the caller, the text, and a newline unless the text has one, so that what is written ends in a
-- newline; no time and no caller make it panic, if their numbers are 64-bit numbers.
pub output-ends_line :
    (l : Logger) (level : ℕ) (now : Time) (rt : Runtime) (c : ℕ) (s : Bytes)
    → int_in_slice level l.levels_to_log ≡ true
    → IsClock now
    → (caller_of rt).line < u64_mod
    → (header : Bytes) × (writer : ℕ) × (tail : Bytes) × (format_header l now (
          if has_bit l.flag lshortfile || has_bit l.flag llongfile then caller_of rt else no_caller)
        ≡ some header)
      × IsWriterOf l level writer
      × IsEnd (c ∷ s) tail
      × (output l level now rt (c ∷ s) ≡ writes writer (header ++ ((c ∷ s) ++ tail)))
      × (last_byte (header ++ ((c ∷ s) ++ tail)) ≡ some b'\n')
unfolding output write_line
output-ends_line l level now rt c s selected k small =
    let caller =
      if has_bit l.flag lshortfile || has_bit l.flag llongfile then caller_of rt else no_caller in
    let line : caller.line < u64_mod = ground arith in
    let there = format_header-IsThere l now caller k line in
    (
      there.bytes,
      writer_of l level,
      line_end (c ∷ s),
      there.is,
      writer_of-IsWriterOf l level,
      line_end-IsEnd c s,
      simp (selected, there.is, output) refl,
      last_byte-append there.bytes c (s ++ line_end (c ∷ s)) ∙ line_end-newline c s,
    )
