-- ===== src/LevelLog/Tests.antt =====
-- The logger (level_log/level_log.go) on concrete lines.
use go_phat.Prelude.{
  has_bit, ◌||◌, if◌then◌else◌, ℕ, ◌≤◌, ◌≡◌, ◌⊎◌, refl, none, some, [], ◌∷◌, ◌++◌, length, arith,
}
use go_phat.LevelLog.{
  Bytes, Logger, Time, lshortfile, llongfile, format_header, new_ll, itoa, assemble, short_file,
  date_part,
}
use go_phat.LevelLog.Output.{
  Runtime, no_caller, set_levels_to_log, set_write_locations, output, writes, skips, caller_of,
  last_byte, int_in_slice,
}
use go_phat.LevelLog.Itoa.{value_from, AreDigits, IsTight, itoa-reads_back}
use go_phat.LevelLog.Line.{IsClock, IsEnd, IsWriterOf, output-ends_line}

itoa-reads_back_example :
    (ds : Bytes) × (itoa 7 2 ≡ some ds)
    × (value_from 0 ds ≡ 7)
    × AreDigits ds
    × (2 ≤ length ds)
    × (IsTight 7 2 (length ds) ⊎ (◌≡◌ {A = ℕ} 7 0 × (length ds ≡ 1)))
itoa-reads_back_example = itoa-reads_back 7 2 (omega arith) (omega arith)

padded : itoa 7 4 ≡ some (b'0' ∷ b'0' ∷ b'0' ∷ b'7' ∷ [])
unfolding itoa assemble
padded = refl

-- A width beyond the buffer is an index out of range.
too_wide : itoa 7 33 ≡ none
unfolding itoa assemble
too_wide = refl

abbrev noon : Time
noon = record {
  year = 2014;
  month = 5;
  day = 9;
  hour = 12;
  minute = 0;
  second = 3;
  nanosecond = 4000;
}

noon-IsClock : IsClock noon
noon-IsClock = record {
  year = omega arith;
  month = omega arith;
  day = omega arith;
  hour = omega arith;
  minute = omega arith;
  second = omega arith;
  nanosecond = omega arith;
}

abbrev logger : Logger
logger = set_write_locations ((1, 9) ∷ []) (set_levels_to_log (0 ∷ 1 ∷ []) (new_ll 5 (b'>' ∷ [])))

abbrev somewhere : Runtime
somewhere = record {
  position = some (b'/' ∷ b's' ∷ b'/' ∷ b'm' ∷ [], 12);
  full_name = some (b'm' ∷ b'.' ∷ b'f' ∷ []);
}

small_line : (caller_of somewhere).line ≤ 12
unfolding caller_of
small_line = omega arith

output-ends_line_example :
    (header : Bytes) × (writer : ℕ) × (tail : Bytes) × (format_header logger noon (
        if has_bit logger.flag lshortfile || has_bit logger.flag llongfile
        then caller_of somewhere
        else no_caller)
      ≡ some header)
    × IsWriterOf logger 1 writer
    × IsEnd (b'x' ∷ []) tail
    × (output logger 1 noon somewhere (b'x' ∷ []) ≡ writes writer (header ++ ((b'x' ∷ []) ++ tail)))
    × (last_byte (header ++ ((b'x' ∷ []) ++ tail)) ≡ some b'\n')
unfolding int_in_slice
output-ends_line_example =
    output-ends_line logger 1 noon somewhere b'x' [] refl noon-IsClock (omega (arith, small_line))

unselected : output logger 2 noon somewhere (b'x' ∷ []) ≡ skips
unfolding output
unselected = refl

-- 2014/05/09 and a blank.
dated :
    date_part noon
    ≡ some (b'2' ∷ b'0' ∷ b'1' ∷ b'4' ∷ b'/' ∷ b'0' ∷ b'5' ∷ b'/' ∷ b'0' ∷ b'9' ∷ b' ' ∷ [])
unfolding date_part itoa assemble
dated = refl

-- A slash at the very front is not looked at.
shortened :
    (short_file (b's' ∷ b'/' ∷ b'm' ∷ []) ≡ b'm' ∷ [])
    × (short_file (b'/' ∷ b'm' ∷ []) ≡ b'/' ∷ b'm' ∷ [])
unfolding short_file
shortened = (refl, refl)
