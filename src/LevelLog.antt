-- ===== src/LevelLog.antt =====
-- The leveled logger (level_log/level_log.go). Text is a list of bytes, an int the 64-bit number that
-- `uint` makes of it. Writers are numbered; what `Write` answers is the writer's matter. The time and
-- the caller are arguments, as are the texts that package fmt makes.
pub mod Itoa
pub mod Output
pub mod Line
pub mod Tests
use go_phat.Prelude.{
  ℕ, zero, suc, ◌+◌, ◌-◌, ◌/◌, ◌%◌, Option, none, some, List, [], ◌∷◌, ◌++◌, Bool, true, false, not,
  ◌&&◌, ◌||◌, ltb, leb, ◌==◌, if◌then◌else◌, has_bit, length, get_elem?, nat_eq,
}
use go_phat.Prelude.Assoc.{lookup, insert}
use go_phat.Queuedisk.{drop}

abbrev pub Bytes : Type 0
Bytes = List ℕ

-- The bits of the flags.
abbrev pub ldate : ℕ
ldate = 0

abbrev pub ltime : ℕ
ltime = 1

abbrev pub lmicroseconds : ℕ
lmicroseconds = 2

abbrev pub llongfile : ℕ
llongfile = 3

abbrev pub lshortfile : ℕ
lshortfile = 4

pub record Logger : Type 0 where
  pub prefix : Bytes
  pub flag : ℕ
  pub default_out : ℕ
  pub levels_to_log : List ℕ
  pub write_locations : List (ℕ × ℕ)

abbrev pub new : ℕ → Bytes → ℕ → Logger
new out prefix flag = record {
  prefix = prefix;
  flag = flag;
  default_out = out;
  levels_to_log = [];
  write_locations = [];
}

-- Ltime | Lmicroseconds | Lshortfile
abbrev pub new_ll : ℕ → Bytes → Logger
new_ll out prefix = new out prefix 22

-- The loop of `itoa`: `bp` bytes of the buffer are free, `b` are those behind them; a width below 0
-- counts as 0. `none` is an index out of range.
unfoldable pub assemble : (bp u wid : ℕ) → Bytes → Option Bytes
assemble zero u wid b = if ltb 0 u || ltb 0 wid then none else some b
assemble (suc bp) u wid b =
    let rest = assemble bp (u / 10) (wid - 1) ((u % 10 + b'0') ∷ b) in
    if ltb 0 u || ltb 0 wid then rest else some b

-- `itoa`: the bytes that it appends to the buffer.
unfoldable pub itoa : (u wid : ℕ) → Option Bytes
unfolding assemble
itoa u wid = if u == 0 && leb wid 1 then some (b'0' ∷ []) else assemble 32 u wid []

-- What `Date`, `Clock` and `Nanosecond` give.
pub record Time : Type 0 where
  pub year : ℕ
  pub month : ℕ
  pub day : ℕ
  pub hour : ℕ
  pub minute : ℕ
  pub second : ℕ
  pub nanosecond : ℕ

infixl 4 ◌<>◌
-- Bytes behind bytes, where neither panicked.
abbrev pub ◌<>◌ : Option Bytes → Option Bytes → Option Bytes
none <> y = none
some x <> none = none
some x <> some y = some (x ++ y)

abbrev pub when : Bool → Option Bytes → Option Bytes
when true x = x
when false x = some []

abbrev pub byte : ℕ → Option Bytes
byte b = some (b ∷ [])

unfoldable pub date_part : Time → Option Bytes
date_part t = itoa t.year 4 <> byte b'/' <> itoa t.month 2 <> byte b'/' <> itoa t.day 2 <> byte b' '

unfoldable pub time_part : ℕ → Time → Option Bytes
time_part flag t =
    itoa t.hour 2
    <> byte b':'
    <> itoa t.minute 2
    <> byte b':'
    <> itoa t.second 2
    <> when (has_bit flag lmicroseconds) (byte b'.' <> itoa (t.nanosecond / 1000) 6)
    <> byte b' '

-- The loop that looks for the last slash, from index `i` down to 1.
unfoldable pub after_slash : Bytes → ℕ → Bytes
after_slash file zero = file
after_slash file (suc i) =
    let rest = after_slash file i in
    elim (get_elem? file (suc i)) [
      | none ↦ rest
      | some c ↦ if c == b'/' then drop (suc (suc i)) file else rest
    ]

unfoldable pub short_file : Bytes → Bytes
unfolding after_slash
short_file file = after_slash file (length file - 1)

-- The name of a file, the number of a line and the name of a function.
pub record Caller : Type 0 where
  pub file : Bytes
  pub line : ℕ
  pub fn : Bytes

unfoldable pub caller_part : ℕ → Caller → Option Bytes
unfolding short_file
caller_part flag c =
    some (if has_bit flag lshortfile then short_file c.file else c.file)
    <> byte b':'
    <> itoa c.line 0
    <> byte b':'
    <> some c.fn
    <> some (b':' ∷ b' ' ∷ [])

-- `formatHeader`
unfoldable pub format_header : Logger → Time → Caller → Option Bytes
unfolding date_part time_part caller_part
format_header l t c =
    when (has_bit l.flag ldate) (date_part t)
    <> when (has_bit l.flag ltime || has_bit l.flag lmicroseconds) (time_part l.flag t)
    <> when (has_bit l.flag lshortfile || has_bit l.flag llongfile) (caller_part l.flag c)
    <> some l.prefix
