-- ===== src/FuzzTesting/ClientTests.antt =====
-- A client of the test master on a single database (fuzz_testing/test_master.go). A number is printed
-- in unary, behind a letter for the uid.
use go_phat.Prelude.{ℕ, zero, suc, ◌+◌, ◌≡◌, refl, ap, String, eq_iff, some, List, [], ◌∷◌, arith}
use go_phat.Prelude.Assoc.{insert}
use go_phat.Phatdb.Path.{IsPlain, IsName, join_path, get_node_path-join_path, split_on_slash}
use go_phat.Phatdb.Tree.{FileNode, child}
use go_phat.Phatdb.Server.{empty_root}
use go_phat.Phatdb.Ops.View.{view}
use go_phat.FuzzTesting.Clients.{new_client_state, create_file, process_client_calls, verify}
use go_phat.FuzzTesting.Stored.{IsNaming, verify-passes}

abbrev name : ℕ → String
name zero = "c"
name (suc n) = String.◌∷◌ "c" (name n)

abbrev sprintf : ℕ → String
sprintf n = join_path (name n ∷ [])

name-IsPlain : (n : ℕ) → IsPlain (name n)
unfolding split_on_slash
name-IsPlain zero = (refl, tt)
name-IsPlain (suc n) = (refl, name-IsPlain n)

name-IsName : (n : ℕ) → IsName (name n)
unfolding split_on_slash
name-IsName zero = (refl, tt)
name-IsName (suc n) = (refl, name-IsPlain n)

abbrev size : String → ℕ
size String.[] = 0
size (String.◌∷◌ c s) = size s + 1

size-name : (n : ℕ) → size (name n) ≡ n + 1
size-name zero = refl
size-name (suc n) = omega (arith, size-name n)

naming : IsNaming sprintf name
naming = record {
  single = λ n. get_node_path-join_path (name n ∷ []) (name-IsName n, tt);
  distinct = λ i j same.
      let e = ap size ((eq_iff (name i) (name j)).0 same) in
      omega (arith, size-name i, size-name j, e);
}

abbrev hash : FileNode → String
hash root = ""

abbrev requests : List (String × String)
requests = ("CREATE", "12") ∷ ("CREATE", "7") ∷ ("", "3") ∷ ("CREATE", "4") ∷ []

verify-passes_example :
    let (cli, root') = process_client_calls sprintf hash requests (new_client_state, empty_root) in
    verify sprintf hash (cli ∷ []) root' ≡ some 0
unfolding view child
verify-passes_example = verify-passes sprintf name hash naming empty_root requests (λ n. refl)

-- Two files are there in the end: the third request ends the loop.
two_files :
    (process_client_calls sprintf hash requests (new_client_state, empty_root)).0
    ≡ record { num_create_messages = 2; created_data = ("/c", "12") ∷ ("/cc", "7") ∷ [] }
unfolding process_client_calls create_file insert
two_files = refl
