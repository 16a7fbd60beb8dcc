-- ===== src/Phatdb/Ops/View.antt =====
-- What is at each path of a tree, and how `traverseToNode` and a write through the node it returns
-- (phatdb/phatdb.go) change it.
use go_phat.Prelude.{
  String, ◌≡◌, refl, sym, ◌∙◌, Option, none, some, List, [], ◌∷◌, Bool, true, false, str_eq, eq_iff,
  if◌then◌else◌, Bool-cases, Option-cases, inl, inr, arith,
}
use go_phat.Phatdb.Tree.{
  DataNode, FileNode, file, Children, no_children, child_entry, node_data, children, child,
  with_child, without_child, set_child, new_node, zero_data, traverse_to_node,
}

-- The data at each path: `none` where no node is.
unfoldable pub view : FileNode → List String → Option (Option DataNode)
view node [] = some (node_data node)
view node (q ∷ qs) = elim (child q (children node)) [ none ↦ none | some c ↦ view c qs ]

unfoldable pub subtree : FileNode → List String → Option FileNode
subtree node [] = some node
subtree node (q ∷ qs) = elim (child q (children node)) [ none ↦ none | some c ↦ subtree c qs ]

unfoldable pub list_eq : List String → List String → Bool
list_eq [] [] = true
list_eq [] (p ∷ ps) = false
list_eq (q ∷ qs) [] = false
list_eq (q ∷ qs) (p ∷ ps) = if str_eq p q then list_eq qs ps else false

-- The first path is the beginning of the second, or all of it.
unfoldable pub is_prefix : List String → List String → Bool
is_prefix [] ps = true
is_prefix (q ∷ qs) [] = false
is_prefix (q ∷ qs) (p ∷ ps) = if str_eq p q then is_prefix qs ps else false

child-with_child :
    (part q : String) (new : FileNode) (kids : Children)
    → child q (with_child part new kids) ≡ (if str_eq part q then some new else child q kids)
unfolding child with_child
child-with_child part q new no_children = refl
child-with_child part q new (child_entry name node rest) =
    let ih = child-with_child part q new rest in
    ground (arith, eq_iff name part, eq_iff name q, eq_iff part q, ih)

pub child-without_child :
    (part q : String) (kids : Children)
    → child q (without_child part kids) ≡ (if str_eq part q then none else child q kids)
unfolding child without_child
child-without_child part q no_children = ground arith
child-without_child part q (child_entry name node rest) =
    let ih = child-without_child part q rest in
    ground (arith, eq_iff name part, eq_iff name q, eq_iff part q, ih)

pub str_eq_refl : (s : String) → str_eq s s ≡ true
str_eq_refl s = (eq_iff s s).1 refl

pub view-set_child :
    (p q : String) (node new : FileNode) (qs : List String)
    → view (set_child node p new) (q ∷ qs)
      ≡ (if str_eq p q then view new qs else view node (q ∷ qs))
unfolding view
view-set_child p q (file d kids) new qs =
    let e = child-with_child p q new kids in
    elim (Bool-cases (str_eq p q)) [
      | inl same ↦ rw (e, same, view) refl
      | inr other ↦ rw (e, other, view) refl
    ]

with_child-same :
    (part : String) (c : FileNode) (kids : Children)
    → child part kids ≡ some c
    → with_child part c kids ≡ kids
unfolding child with_child
with_child-same part c no_children e = ground arith
with_child-same part c (child_entry name node rest) e =
    let ih = with_child-same part c rest in ground (arith, eq_iff name part, ih)

-- A walk that creates nothing leaves the tree and finds the node at the path.
pub traverse_to_node-finds :
    (node : FileNode) (ps : List String) → traverse_to_node node ps false ≡ (node, subtree node ps)
unfolding traverse_to_node subtree
traverse_to_node-finds node [] = refl
traverse_to_node-finds (file d kids) (p ∷ ps) = elim (Option-cases (child p kids)) [
  | inl e ↦ rw (e, traverse_to_node, subtree) refl
  | inr (c, e) ↦
      rw (e, traverse_to_node-finds c ps, with_child-same p c kids e, traverse_to_node, subtree)
        refl
]

pub view-subtree :
    (node : FileNode) (qs : List String)
    → view node qs ≡ elim (subtree node qs) [ none ↦ none | some n ↦ some (node_data n) ]
unfolding view subtree
view-subtree node [] = refl
view-subtree (file d kids) (q ∷ qs) = elim (Option-cases (child q kids)) [
  | inl e ↦ rw (e, view, subtree) refl
  | inr (c, e) ↦ rw (e, view-subtree c qs, view, subtree) refl
]

or_new : Option FileNode → FileNode
or_new none = new_node
or_new (some c) = c

-- A walk that creates missing nodes goes to the child that is there or to a new one.
traverse_to_node-step :
    (d : Option DataNode) (kids : Children) (p : String) (ps : List String)
    → traverse_to_node (file d kids) (p ∷ ps) true ≡ (
      set_child (file d kids) p (traverse_to_node (or_new (child p kids)) ps true).0,
      (traverse_to_node (or_new (child p kids)) ps true).1,
    )
unfolding traverse_to_node or_new
traverse_to_node-step d kids p ps = elim (Option-cases (child p kids)) [
  | inl e ↦ rw (e, traverse_to_node) refl
  | inr (c, e) ↦ rw (e, traverse_to_node) refl
]

-- It returns the node at the path of the tree that it leaves.
pub traverse_to_node-creates :
    (node : FileNode) (ps : List String)
    → (traverse_to_node node ps true).1 ≡ subtree (traverse_to_node node ps true).0 ps
unfolding traverse_to_node subtree
traverse_to_node-creates node [] = refl
traverse_to_node-creates (file d kids) (p ∷ ps) =
    rw
      (
        traverse_to_node-step d kids p ps,
        child-with_child p p (traverse_to_node (or_new (child p kids)) ps true).0 kids,
        str_eq_refl p,
        subtree,
      )
      (traverse_to_node-creates (or_new (child p kids)) ps)

abbrev pub or_zero : Option (Option DataNode) → Option (Option DataNode)
or_zero none = some (some zero_data)
or_zero (some d) = some d

view-new_node :
    (qs ps : List String)
    → (if is_prefix qs ps then or_zero (view new_node qs) else view new_node qs)
      ≡ (if is_prefix qs ps then or_zero none else none)
unfolding view child is_prefix
view-new_node [] ps = refl
view-new_node (q ∷ qs) ps = refl

view-or_new :
    (q : String) (d : Option DataNode) (kids : Children) (qs ps : List String)
    → (if is_prefix qs ps
        then or_zero (view (or_new (child q kids)) qs)
        else view (or_new (child q kids)) qs)
      ≡ (if is_prefix qs ps
          then or_zero (view (file d kids) (q ∷ qs))
          else view (file d kids) (q ∷ qs))
unfolding view or_new
view-or_new q d kids qs ps = elim (Option-cases (child q kids)) [
  | inl e ↦ rw (e, view) (view-new_node qs ps)
  | inr (c, e) ↦ rw (e, view) refl
]

-- It adds empty nodes on the way, and changes nothing else.
pub view-traverse_to_node :
    (node : FileNode) (ps qs : List String)
    → view (traverse_to_node node ps true).0 qs
      ≡ (if is_prefix qs ps then or_zero (view node qs) else view node qs)
unfolding traverse_to_node view is_prefix
view-traverse_to_node node [] [] = refl
view-traverse_to_node (file d kids) (p ∷ ps) [] = rw (traverse_to_node-step d kids p ps) refl
view-traverse_to_node node [] (q ∷ qs) = refl
view-traverse_to_node (file d kids) (p ∷ ps) (q ∷ qs) =
    let start = or_new (child p kids) in
    let new = (traverse_to_node start ps true).0 in
    let set : view (traverse_to_node (file d kids) (p ∷ ps) true).0 (q ∷ qs)
        ≡ (if str_eq p q then view new qs else view (file d kids) (q ∷ qs)) =
      rw (traverse_to_node-step d kids p ps) (view-set_child p q (file d kids) new qs) in
    set ∙ elim (Bool-cases (str_eq p q)) [
      | inr e ↦ rw e refl
      | inl e ↦
          let same : p ≡ q = (eq_iff p q).0 e in
          let walk = view-traverse_to_node start ps qs in
          let rest = view-or_new p d kids qs ps in
          let end : view (file d kids) (p ∷ qs) ≡ view (file d kids) (q ∷ qs) = rw same refl in
          rw (e, sym end) (walk ∙ rest)
    ]
