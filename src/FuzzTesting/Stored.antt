-- ===== src/FuzzTesting/Stored.antt =====
-- The check of the data that a client created (fuzz_testing/test_master.go) on a single database.
use go_phat.Prelude.{
  ℕ, ◌+◌, ◌<◌, ◌≤◌, ◌≡◌, refl, sym, ◌∙◌, String, str_eq, string_eq, Option, none, some, List, [],
  ◌∷◌, true, false, Bool-cases, inl, inr, arith,
}
use go_phat.Prelude.Assoc.{insert}
use go_phat.Phatdb.Path.{get_node_path}
use go_phat.Phatdb.Tree.{DataNode, FileNode, zero_data, set_data}
use go_phat.Phatdb.Ops.{value, create_node, get_node}
use go_phat.Phatdb.Ops.View.{view, list_eq, is_prefix, str_eq_refl}
use go_phat.Phatdb.Ops.Reads.{walked, create_node-view, get_node-view}
use go_phat.Phatdb.Ops.Twice.{is_prefix_refl}
use go_phat.Phatdb.Server.{handle, respond}
use go_phat.Phatclient.{returned, checked, string_to_error, as_data_node, create, get_data, result}
use go_phat.FuzzTesting.Clients.{
  ClientState, new_client_state, call, create_file, process_client_calls, verify_data, verify_all,
  verify,
}

-- What the format makes of a number is a path of one name, and another one for another number.
pub record IsNaming (sprintf name : ℕ → String) : Type 0 where
  pub single : (n : ℕ) → get_node_path (sprintf n) ≡ name n ∷ []
  pub distinct : (i j : ℕ) → str_eq (name i) (name j) ≡ true → i ≡ j

module _ (sprintf name : ℕ → String) (hash : FileNode → String)
    (naming : IsNaming sprintf name) where
  -- The data at the path of a number.
  abbrev file_at : FileNode → ℕ → Option (Option DataNode)
  file_at root n = view root (name n ∷ [])

  apart : (j n : ℕ) → (j ≡ n → ⊥) → str_eq (name n) (name j) ≡ false
  apart j n away = elim (Bool-cases (str_eq (name n) (name j))) [
    | inl same ↦ absurd (away (sym (naming.distinct n j same)))
    | inr differs ↦ differs
  ]

  create_node-writes :
      (root : FileNode) (n : ℕ) (text : String)
      → file_at root n ≡ none
      → (file_at (create_node root (sprintf n) text).0 n ≡ some (some (set_data zero_data text)))
        × ((j : ℕ) → (j ≡ n → ⊥) → file_at (create_node root (sprintf n) text).0 j ≡ file_at root j)
  unfolding list_eq is_prefix
  create_node-writes root n text missing =
      let s = naming.single n in
      let new : walked root (get_node_path (sprintf n)) (get_node_path (sprintf n))
          ≡ some (some zero_data) =
        rw (s, is_prefix_refl (name n ∷ []), missing) refl in
      let stored = (create_node-view root (sprintf n) text zero_data new refl).1 in
      (
        stored (name n ∷ []) ∙ rw (s, str_eq_refl (name n)) refl,
        λ j away. stored (name j ∷ []) ∙ rw (s, apart j n away) refl,
      )

  -- The file of one of the first `bound` numbers, with its data in the tree.
  record IsStored (bound : ℕ) (root : FileNode) (loc text : String) : Type 0 where
    number : ℕ
    early : number < bound
    named : loc ≡ sprintf number
    node : DataNode
    there : file_at root number ≡ some (some node)
    holds : node.value ≡ text

  abbrev AllStored : ℕ → FileNode → List (String × String) → Type 0
  AllStored bound root [] = Unit {0}
  AllStored bound root ((loc, text) ∷ created) =
      IsStored bound root loc text × AllStored bound root created

  AllStored-insert :
      (bound : ℕ) (root : FileNode) (loc text : String) (created : List (String × String))
      → IsStored bound root loc text
      → AllStored bound root created
      → AllStored bound root (insert loc text created)
  unfolding insert
  AllStored-insert bound root loc text [] p all = (p, tt)
  AllStored-insert bound root loc text ((loc', text') ∷ created) p all =
      elim (Bool-cases (str_eq loc' loc)) [
        | inl same ↦ rw same (p, all.1)
        | inr differs ↦ rw differs (all.0, AllStored-insert bound root loc text created p all.1)
      ]

  AllStored-kept :
      (n : ℕ) (root root' : FileNode) (created : List (String × String))
      → ((j : ℕ) → (j ≡ n → ⊥) → file_at root' j ≡ file_at root j)
      → AllStored n root created
      → AllStored (n + 1) root' created
  AllStored-kept n root root' [] kept all = tt
  AllStored-kept n root root' ((loc, text) ∷ created) kept (p, all) = (
    record {
      number = p.number;
      early = omega (arith, p.early);
      named = p.named;
      node = p.node;
      there = kept p.number (λ same. omega (arith, p.early, same)) ∙ p.there;
      holds = p.holds;
    },
    AllStored-kept n root root' created kept all,
  )

  -- The data of the client is in the tree, and the next files are not there yet.
  abbrev IsKept : ClientState × FileNode → Type 0
  IsKept (cli, root) =
      AllStored cli.num_create_messages root cli.created_data
      × ((n : ℕ) → cli.num_create_messages ≤ n → file_at root n ≡ none)

  create_file-IsKept :
      (text : String) (cli : ClientState) (root : FileNode)
      → IsKept (cli, root)
      → IsKept (create_file sprintf hash text (cli, root))
  unfolding create_file call create handle set_data
  create_file-IsKept text cli root (all, free) =
      let n = cli.num_create_messages in
      let root' = (create_node root (sprintf n) text).0 in
      let (written, kept) = create_node-writes root n text (free n (omega arith)) in
      let new : IsStored (n + 1) root' (sprintf n) text = record {
        number = n;
        early = omega arith;
        named = refl;
        node = set_data zero_data text;
        there = written;
        holds = refl;
      } in
      (
        AllStored-insert (n + 1) root' (sprintf n) text cli.created_data new
            (AllStored-kept n root root' cli.created_data kept all),
        λ j later. kept j (λ same. omega (arith, later, same)) ∙ free j (omega (arith, later)),
      )

  process_client_calls-IsKept :
      (requests : List (String × String)) (s : ClientState × FileNode)
      → IsKept s
      → IsKept (process_client_calls sprintf hash requests s)
  unfolding process_client_calls
  process_client_calls-IsKept [] s p = p
  process_client_calls-IsKept ((r, text) ∷ requests) (cli, root) p =
      elim (Bool-cases (str_eq r "CREATE")) [
        | inl creates ↦ rw creates (
            process_client_calls-IsKept requests (create_file sprintf hash text (cli, root))
              (create_file-IsKept text cli root p))
        | inr other ↦ rw other p
      ]

  get_data-reads :
      (bound : ℕ) (root : FileNode) (loc text : String) (p : IsStored bound root loc text)
      → (call sprintf hash (get_data loc) root).1 ≡ result p.node
  unfolding call get_data handle respond returned checked string_to_error as_data_node
  get_data-reads bound root loc text p =
      let found : get_node root loc ≡ value (some p.node) =
        (get_node-view root loc).0 ∙ rw (p.named, naming.single p.number, p.there) refl in
      rw found refl

  verify_data-AllStored :
      (bound : ℕ) (root : FileNode) (created : List (String × String))
      → AllStored bound root created
      → verify_data sprintf hash created root ≡ some 0
  unfolding verify_data
  verify_data-AllStored bound root [] all = refl
  verify_data-AllStored bound root ((loc, text) ∷ created) (p, all) =
      rw
        (
          get_data-reads bound root loc text p,
          verify_data-AllStored bound root created all,
          p.holds,
          str_eq_refl text,
        )
        refl

  -- Whatever requests the one client of a fresh test carries out on a single database that answers at
  -- once and has none of the client's files at the start, `Verify` does not panic and reports no
  -- failure, if the names of the files are paths of one name, different for each number.
  pub verify-passes :
      (root : FileNode) (requests : List (String × String))
      → ((n : ℕ) → view root (name n ∷ []) ≡ none)
      → let (cli, root') = process_client_calls sprintf hash requests (new_client_state, root) in
        verify sprintf hash (cli ∷ []) root' ≡ some 0
  unfolding verify verify_all
  verify-passes root requests free =
      let s = process_client_calls sprintf hash requests (new_client_state, root) in
      let p =
        process_client_calls-IsKept requests (new_client_state, root) (tt, λ n later. free n) in
      rw (verify_data-AllStored s.0.num_create_messages s.1 s.0.created_data p.0) refl
