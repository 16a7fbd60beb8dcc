-- ===== src/Phatclient/Replies.antt =====
-- The replies of the server have the types that the client expects (phatclient/phatclient.go,
-- phatdb/phatdb_server.go).
use go_phat.Prelude.{String, ◌≡◌, refl, ◌⊎◌, Option, none, some, inl, inr}
use go_phat.Phatdb.Tree.{FileNode, DataNode}
use go_phat.Phatdb.Ops.{
  Outcome, value, not_exist, exist, panic, create_node, delete_node, exists_node, get_node,
  set_node,
}
use go_phat.Phatdb.Ops
use go_phat.Phatdb.Server.{DbResponse, Reply, data_node, error_with, handle, respond}
use go_phat.Client.{finished}
use go_phat.Phatclient.{
  Returned, result, error, asserts, waits, Operation, returned, checked, string_to_error,
  as_data_node, as_names, as_text, create, get_data, set_data, get_children, get_stats, delete,
  get_hash,
}

abbrev pub IsTyped : {A : Type 0} → Returned A → Type 0
IsTyped asserts = ⊥
IsTyped (result a) = Unit {0}
IsTyped (error e) = Unit {0}
IsTyped waits = Unit {0}

-- The client reads this answer of the server without a failed type assertion; where the server has
-- panicked there is no answer.
abbrev pub Reads : {A : Type 0} → Operation A → Option DbResponse → Type 0
Reads op none = Unit {0}
Reads op (some resp) = IsTyped (returned op.read resp (finished none))

-- The same, but for an answer that is a nil pointer.
abbrev pub ReadsOrNil : {A : Type 0} → Operation A → Option DbResponse → Type 0
ReadsOrNil op none = Unit {0}
ReadsOrNil op (some resp) =
    IsTyped (returned op.read resp (finished none)) ⊎ (resp.reply ≡ data_node none)

respond-Reads :
    {A B : Type 0} (op : Operation B) (as_reply : A → Reply) (o : Outcome A)
    → ((a : A) → IsTyped (op.read (as_reply a)))
    → Reads op (respond as_reply o)
unfolding respond returned checked string_to_error
respond-Reads op as_reply (value a) typed = typed a
respond-Reads op as_reply not_exist typed = tt
respond-Reads op as_reply exist typed = tt
respond-Reads op as_reply panic typed = tt

respond-ReadsOrNil :
    (path : String) (o : Outcome (Option DataNode))
    → ReadsOrNil (get_data path) (respond data_node o)
unfolding respond returned checked string_to_error get_data as_data_node
respond-ReadsOrNil path (value none) = inr refl
respond-ReadsOrNil path (value (some d)) = inl tt
respond-ReadsOrNil path not_exist = inl tt
respond-ReadsOrNil path exist = inl tt
respond-ReadsOrNil path panic = tt

abbrev pub answer : {A : Type 0} → (FileNode → String) → FileNode → Operation A → Option DbResponse
answer hash root op = (handle hash root op.command).1

-- On every tree and path, the client reads what the database server answers to its command without a
-- failed type assertion: for Create, SetData, GetChildren, Delete and GetHash always, for GetData
-- unless the node has no data, so that the answer is a nil pointer. GetStats always returns the error
-- "Unknown command", since the server does not know its command.
pub handle-IsTyped :
    (hash : FileNode → String) (root : FileNode) (path v : String)
    → Reads (create path v) (answer hash root (create path v))
      × ReadsOrNil (get_data path) (answer hash root (get_data path))
      × Reads (set_data path v) (answer hash root (set_data path v))
      × Reads (get_children path) (answer hash root (get_children path))
      × Reads (delete path) (answer hash root (delete path))
      × Reads get_hash (answer hash root get_hash)
      × ((resp : DbResponse) × (answer hash root (get_stats path) ≡ some resp)
          × (returned (get_stats path).read resp (finished none) ≡ error "Unknown command"))
unfolding handle returned checked string_to_error create get_data set_data get_children get_stats
    delete get_hash as_data_node as_names as_text
handle-IsTyped hash root path v = (
  respond-Reads (create path v) _ (create_node root path v).1 (λ d. tt),
  respond-ReadsOrNil path (get_node root path),
  respond-Reads (set_data path v) _ (set_node root path v).1 (λ d. tt),
  respond-Reads (get_children path) _ (Ops.get_children root path) (λ xs. tt),
  respond-Reads (delete path) _ (delete_node root path).1 (λ s. tt),
  tt,
  (error_with "Unknown command", refl, refl),
)
