-- ===== src/LevelLog/Output.antt =====
-- `Output` and what calls it (level_log/level_log.go).
use go_phat.Prelude.{
  ℕ, Option, none, some, List, [], ◌∷◌, ◌++◌, Bool, true, false, not, ◌||◌, ◌==◌, if◌then◌else◌,
  has_bit, nat_eq,
}
use go_phat.Prelude.Assoc.{lookup, insert}
use go_phat.LevelLog.{Bytes, Logger, Time, Caller, lshortfile, llongfile, format_header}

unfoldable pub int_in_slice : ℕ → List ℕ → Bool
int_in_slice a [] = false
int_in_slice a (b ∷ list) = let rest = int_in_slice a list in if b == a then true else rest

-- What `runtime.Caller` and `FuncForPC` give: the position if there is one, the function's full name
-- if there is one.
pub record Runtime : Type 0 where
  pub position : Option (Bytes × ℕ)
  pub full_name : Option Bytes

-- `temp[len(temp)-1]` of the parts between the dots.
unfoldable pub last_part : Bytes → Bytes → Bytes
last_part part [] = part
last_part part (c ∷ name) = if c == b'.' then last_part [] name else last_part (part ++ c ∷ []) name

unfoldable pub caller_of : Runtime → Caller
unfolding last_part
caller_of r = record {
  file = elim r.position [ none ↦ b'?' ∷ b'?' ∷ b'?' ∷ [] | some (file, line) ↦ file ];
  line = elim r.position [ none ↦ 0 | some (file, line) ↦ line ];
  fn = elim r.full_name [
    | none ↦ b'u' ∷ b'n' ∷ b'n' ∷ b'a' ∷ b'm' ∷ b'e' ∷ b'd' ∷ []
    | some name ↦ last_part [] name
  ];
}

abbrev pub no_caller : Caller
no_caller = record { file = []; line = 0; fn = [] }

unfoldable pub last_byte : Bytes → Option ℕ
last_byte [] = none
last_byte (c ∷ []) = some c
last_byte (c ∷ d ∷ s) = last_byte (d ∷ s)

-- The newline behind the text, unless it has one or is empty.
unfoldable pub line_end : Bytes → Bytes
unfolding last_byte
line_end s = elim (last_byte s) [ none ↦ [] | some c ↦ if c == b'\n' then [] else b'\n' ∷ [] ]

-- What a call of the logger does: nothing, one `Write` of bytes to a writer, or a panic.
pub data Logged : Type 0 where
  skips : Logged
  writes : ℕ → Bytes → Logged
  panics : Logged

unfoldable pub writer_of : Logger → ℕ → ℕ
writer_of l level = elim (lookup level l.write_locations) [ none ↦ l.default_out | some w ↦ w ]

unfoldable pub write_line : ℕ → Option Bytes → Bytes → Logged
unfolding line_end
write_line writer none s = panics
write_line writer (some header) s = writes writer (header ++ (s ++ line_end s))

-- `Output`
unfoldable pub output : Logger → (level : ℕ) → Time → Runtime → Bytes → Logged
unfolding int_in_slice caller_of writer_of write_line
output l level now rt s =
    if not (int_in_slice level l.levels_to_log)
    then skips
    else write_line (writer_of l level)
        (format_header l now (
          if has_bit l.flag lshortfile || has_bit l.flag llongfile
          then caller_of rt
          else no_caller))
        s

-- How a call of the logger ends: it returns (`Print`), exits with 1 (`Fatal`), or panics (`Panic`)
-- with the text.
pub data Ending : Type 0 where
  returns : Ending
  exits : Ending
  panics_with : Bytes → Ending

module _ (l : Logger) (level : ℕ) (now : Time) (rt : Runtime) (s : Bytes) where
  -- `Print`, `Printf` and `Println`, on the text that package fmt makes.
  unfoldable pub print : Logged × Ending
  print = (output l level now rt s, returns)

  -- `Fatal`, `Fatalf` and `Fatalln`
  unfoldable pub fatal : Logged × Ending
  fatal = (output l level now rt s, exits)

  -- `Panic`, `Panicf` and `Panicln`
  unfoldable pub panic : Logged × Ending
  panic = (output l level now rt s, panics_with s)

abbrev pub set_flags : ℕ → Logger → Logger
set_flags flag l = record l { flag = flag }

abbrev pub set_prefix : Bytes → Logger → Logger
set_prefix prefix l = record l { prefix = prefix }

abbrev pub set_levels_to_log : List ℕ → Logger → Logger
set_levels_to_log levels l = record l { levels_to_log = levels }

abbrev pub set_write_locations : List (ℕ × ℕ) → Logger → Logger
set_write_locations locations l = record l { write_locations = locations }

unfoldable pub set_write_location : ℕ → ℕ → Logger → Logger
set_write_location level location l = record l {
  write_locations = insert level location l.write_locations;
}
