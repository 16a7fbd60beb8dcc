-- ===== src/FuzzTesting/Clients.antt =====
-- What a client of the test master does with its requests, and the check of the data that it created
-- (`ProcessClientCalls` and `Verify` of fuzz_testing/test_master.go). The database answers at once.
-- `sprintf` stands for `fmt.Sprintf("/%s_%d", uid, n)`, for the client's uid, and `hash` for the
-- formatted printing of the tree; the random data is an argument.
use go_phat.Prelude.{
  ℕ, ◌+◌, String, str_eq, string_eq, Option, none, some, List, [], ◌∷◌, Bool, if◌then◌else◌,
}
use go_phat.Prelude.Assoc.{insert}
use go_phat.Phatdb.Tree.{DataNode, FileNode}
use go_phat.Phatdb.Server.{DbResponse, handle}
use go_phat.Client.{finished}
use go_phat.Phatclient.{
  Returned, result, error, asserts, waits, Operation, create, get_data, returned,
}

-- `ClientState`, with the map of the data that was created.
pub record ClientState : Type 0 where
  pub num_create_messages : ℕ
  pub created_data : List (String × String)

abbrev pub new_client_state : ClientState
new_client_state = record { num_create_messages = 0; created_data = [] }

-- One more failure, if the check goes on at all.
abbrev pub add_failure : Bool → Option ℕ → Option ℕ
add_failure same none = none
add_failure same (some failures) = some (if same then failures else failures + 1)

abbrev pub add_failures : Option ℕ → Option ℕ → Option ℕ
add_failures none failures = none
add_failures (some n) none = none
add_failures (some n) (some failures) = some (n + failures)

-- The body of the loop of `Verify` on what GetData returned; a result that is nil panics.
abbrev pub compare_data : String → Returned DataNode → Option ℕ → Option ℕ
compare_data text (result res) failures = add_failure (str_eq text res.value) failures
compare_data text (error e) failures = none
compare_data text asserts failures = none
compare_data text waits failures = none

module _ (sprintf : ℕ → String) (hash : FileNode → String) where
  abbrev pub answered : {A : Type 0} → Operation A → Option DbResponse → Returned A
  answered op none = waits
  answered op (some resp) = returned op.read resp (finished none)

  -- An operation of the database's client, whose call is done at once.
  unfoldable pub call : {A : Type 0} → Operation A → FileNode → FileNode × Returned A
  unfolding handle
  call op root = let (root', resp) = handle hash root op.command in (root', answered op resp)

  -- The case of a CREATE; an error of the call is only logged.
  unfoldable pub create_file : (text : String) → ClientState × FileNode → ClientState × FileNode
  unfolding call create
  create_file text (cli, root) =
      let loc = sprintf cli.num_create_messages in
      (
        record {
          num_create_messages = cli.num_create_messages + 1;
          created_data = insert loc text cli.created_data;
        },
        (call (create loc text) root).0,
      )

  -- The loop over the requests, each with the random data that it would draw: it returns at one that
  -- is not a CREATE.
  unfoldable pub process_client_calls :
      List (String × String) → ClientState × FileNode → ClientState × FileNode
  unfolding create_file
  process_client_calls [] s = s
  process_client_calls ((r, text) ∷ requests) s =
      let rest = process_client_calls requests (create_file text s) in
      if str_eq r "CREATE" then rest else s

  -- The loop of `Verify` over the data of a client: the number of failures, unless it panics.
  unfoldable pub verify_data : List (String × String) → FileNode → Option ℕ
  unfolding call get_data
  verify_data [] root = some 0
  verify_data ((loc, text) ∷ created) root =
      compare_data text (call (get_data loc) root).1 (verify_data created root)

  -- The loop over the clients.
  unfoldable pub verify_all : List ClientState → FileNode → Option ℕ
  unfolding verify_data
  verify_all [] root = some 0
  verify_all (cli ∷ clients) root =
      add_failures (verify_data cli.created_data root) (verify_all clients root)

  -- `Verify`: the number of failures that it reports. Its first line looks at the first client.
  unfoldable pub verify : List ClientState → FileNode → Option ℕ
  unfolding verify_all
  verify [] root = none
  verify (cli ∷ clients) root = verify_all (cli ∷ clients) root
