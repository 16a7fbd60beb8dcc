-- ===== src/Phatdb/Server.antt =====
-- The server loop of phatdb (phatdb/phatdb_server.go). `hash` stands for `fmt.Sprintf("%#v", root)`
-- of `hashNode`.
use go_phat.Prelude.{
  String, ◌≡◌, Option, none, some, List, [], ◌∷◌, Bool, true, false, str_eq, if◌then◌else◌, arith,
}
use go_phat.Phatdb.Tree.{StatNode, DataNode, FileNode, file, no_children}
use go_phat.Phatdb.Ops.{
  Outcome, value, not_exist, exist, panic, create_node, delete_node, exists_node, get_children,
  get_node, set_node,
}

pub record DbCommand : Type 0 where
  pub command : String
  pub path : String
  pub value : String

-- The dynamic types of `Reply`; `no_reply` is a nil interface.
pub data Reply : Type 0 where
  no_reply : Reply
  names : List String → Reply
  data_node : Option DataNode → Reply
  stat_node : StatNode → Reply
  bool : Bool → Reply
  text : String → Reply

pub record DbResponse : Type 0 where
  pub reply : Reply
  pub error : String

abbrev pub reply_with : Reply → DbResponse
reply_with r = record { reply = r; error = "" }

abbrev pub error_with : String → DbResponse
error_with e = record { reply = no_reply; error = e }

-- The response to an operation; `none` where it panics and the server is gone.
unfoldable pub respond : {A : Type 0} → (A → Reply) → Outcome A → Option DbResponse
respond as_reply (value a) = some (reply_with (as_reply a))
respond as_reply not_exist = some (error_with "file does not exist")
respond as_reply exist = some (error_with "file already exists")
respond as_reply panic = none

-- The data of the node that CREATE made is never nil.
abbrev as_node : DataNode → Reply
as_node d = data_node (some d)

-- SET does not return any results on success.
abbrev as_nothing : DataNode → Reply
as_nothing d = no_reply

-- One turn of the loop of `DatabaseServer`.
unfoldable pub handle : (FileNode → String) → FileNode → DbCommand → FileNode × Option DbResponse
unfolding respond
handle hash root req =
    if str_eq req.command "CHILDREN"
    then (root, respond names (get_children root req.path))
    else if str_eq req.command "CREATE"
    then (let (root', r) = create_node root req.path req.value in (root', respond as_node r))
    else if str_eq req.command "DELETE"
    then (let (root', r) = delete_node root req.path in (root', respond stat_node r))
    else if str_eq req.command "EXISTS"
    then (root, some (reply_with (bool (exists_node root req.path))))
    else if str_eq req.command "GET"
    then (root, respond data_node (get_node root req.path))
    else if str_eq req.command "SET"
    then (let (root', r) = set_node root req.path req.value in (root', respond as_nothing r))
    else if str_eq req.command "SHA256"
    then (root, some (reply_with (text (hash root))))
    else (root, some (error_with "Unknown command"))

abbrev pub empty_root : FileNode
empty_root = file none no_children

-- The loop on the requests that arrive; it ends with the first panic.
unfoldable pub database_server :
    (FileNode → String) → FileNode → List DbCommand → FileNode × List DbResponse
unfolding handle
database_server hash root [] = (root, [])
database_server hash root (req ∷ reqs) =
    let (root', resp) = handle hash root req in
    elim resp [
      | none ↦ (root', [])
      | some resp ↦ let (final, resps) = database_server hash root' reqs in (final, resp ∷ resps)
    ]

abbrev pub writes : String → Bool
writes c = if str_eq c "CREATE" then true else if str_eq c "DELETE" then true else str_eq c "SET"

-- A command other than CREATE, DELETE and SET, known or not, leaves the tree as it is.
pub handle-reads :
    (hash : FileNode → String) (root : FileNode) (req : DbCommand)
    → writes req.command ≡ false
    → (handle hash root req).0 ≡ root
unfolding handle
handle-reads hash root req reads = ground arith
