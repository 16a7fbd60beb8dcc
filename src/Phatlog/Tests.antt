-- ===== src/Phatlog/Tests.antt =====
-- The log of phatlog/phatlog.go on concrete entries.
use go_phat.Prelude.{ℕ, ◌≡◌, none, some, ◌&&◌, ltb, if◌then◌else◌, arith}
use go_phat.Prelude.Assoc.{lookup}
use go_phat.Phatlog.{Log, add, get_command, empty_log, suffix}
use go_phat.Phatlog.Entries.{IsBounded, get_command-suffix}

abbrev three_entries : Log ℕ
three_entries = add 3 (some 30) (add 2 (some 20) (add 1 (some 10) empty_log))

-- The entry at the highest index, 3, is not in the suffix.
last_is_lost : get_command (suffix three_entries 1) 3 ≡ none
unfolding add
last_is_lost = get_command-suffix three_entries 1 3 (omega arith)

get_command-suffix_example :
    get_command (suffix three_entries 1) 2
    ≡ (if ltb 1 2 && ltb 2 three_entries.max_index then get_command three_entries 2 else none)
get_command-suffix_example = get_command-suffix three_entries 1 2 (omega arith)

empty-IsBounded : IsBounded {A = ℕ} empty_log
unfolding get_command lookup
empty-IsBounded = record { within = λ j c e. ground arith }
