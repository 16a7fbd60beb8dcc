-- ===== src/Phatdb/Ops/Writes.antt =====
-- How a write through the node that `traverseToNode` returns changes what is at each path
-- (phatdb/phatdb.go).
use go_phat.Prelude.{
  String, ◌≡◌, refl, sym, ◌∙◌, Option, none, some, List, [], ◌∷◌, ◌++◌, true, str_eq, eq_iff,
  if◌then◌else◌, Bool-cases, Option-cases, inl, inr, arith,
}
use go_phat.Phatdb.Tree.{
  DataNode, FileNode, file, node_data, children, child, without_child, set_child, write_node,
}
use go_phat.Phatdb.Ops.View.{view, subtree, list_eq, is_prefix, child-without_child, view-set_child}

pub subtree-some :
    (node n : FileNode) (p : String) (ps : List String)
    → subtree node (p ∷ ps) ≡ some n
    → (c : FileNode) × (child p (children node) ≡ some c) × (subtree c ps ≡ some n)
unfolding subtree
subtree-some (file d kids) n p ps e = elim (Option-cases (child p kids)) [
  | inl none_there ↦
      let no : subtree (file d kids) (p ∷ ps) ≡ none = rw (none_there, subtree) refl in
      absurd (ground arith)
  | inr (c, there) ↦
      let yes : subtree (file d kids) (p ∷ ps) ≡ subtree c ps = rw (there, subtree) refl in
      (c, there, sym yes ∙ e)
]

write_node-step :
    (node new c : FileNode) (p : String) (ps : List String)
    → child p (children node) ≡ some c
    → write_node node (p ∷ ps) new ≡ set_child node p (write_node c ps new)
unfolding write_node
write_node-step (file d kids) new c p ps there = rw (there, write_node) refl

view-there :
    (node c : FileNode) (p q : String) (qs : List String)
    → child p (children node) ≡ some c
    → str_eq p q ≡ true
    → view node (q ∷ qs) ≡ view c qs
unfolding view
view-there (file d kids) c p q qs there e =
    let same : p ≡ q = (eq_iff p q).0 e in
    let there' : child q kids ≡ some c = rw (sym same) there in rw (there', view) refl

-- A write to the data of a node that is there changes what is at its path and nothing else.
pub view-write_data :
    (node : FileNode) (ps qs : List String) (n : FileNode) (d : Option DataNode)
    → subtree node ps ≡ some n
    → view (write_node node ps (file d (children n))) qs
      ≡ (if list_eq qs ps then some d else view node qs)
unfolding write_node subtree list_eq view
view-write_data node [] [] n d e = refl
view-write_data node [] (q ∷ qs) n d e = let same : node ≡ n = ground arith in rw same refl
view-write_data (file d₀ kids) (p ∷ ps) [] n d e =
    let (c, there, found) = subtree-some (file d₀ kids) n p ps e in
    rw (write_node-step (file d₀ kids) (file d (children n)) c p ps there) refl
view-write_data node (p ∷ ps) (q ∷ qs) n d e =
    let (c, there, found) = subtree-some node n p ps e in
    rw
      (
        write_node-step node (file d (children n)) c p ps there,
        view-set_child p q node (write_node c ps (file d (children n))) qs,
      )
      (elim (Bool-cases (str_eq p q)) [
        | inr other ↦ rw other refl
        | inl same ↦
            rw (same, view-there node c p q qs there same) (view-write_data c ps qs n d found)
      ])

str_eq_comm : (p q : String) → str_eq p q ≡ str_eq q p
str_eq_comm p q = ground (arith, eq_iff p q, eq_iff q p)

view-without_child :
    (n : FileNode) (last q : String) (qs : List String)
    → view (file (node_data n) (without_child last (children n))) (q ∷ qs)
      ≡ (if str_eq last q then none else view n (q ∷ qs))
unfolding view
view-without_child (file d kids) last q qs =
    let e = child-without_child last q kids in
    elim (Bool-cases (str_eq last q)) [
      | inl same ↦ rw (e, same, view) refl
      | inr other ↦ rw (e, other, view) refl
    ]

is_prefix-one :
    (last q : String) (qs : List String) → is_prefix (last ∷ []) (q ∷ qs) ≡ str_eq last q
unfolding is_prefix
is_prefix-one last q qs =
    rw (str_eq_comm q last)
      (elim (Bool-cases (str_eq last q)) [ inl e ↦ rw e refl | inr e ↦ rw e refl ])

-- Taking a child away removes its path and the paths below it, and nothing else.
pub view-write_without :
    (node : FileNode) (ps qs : List String) (last : String) (n : FileNode)
    → subtree node ps ≡ some n
    → view (write_node node ps (file (node_data n) (without_child last (children n)))) qs
      ≡ (if is_prefix (ps ++ last ∷ []) qs then none else view node qs)
unfolding write_node subtree is_prefix view
view-write_without node [] [] last n e = let same : node ≡ n = ground arith in rw same refl
view-write_without node [] (q ∷ qs) last n e =
    let same : node ≡ n = ground arith in
    rw (same, is_prefix-one last q qs) (view-without_child n last q qs)
view-write_without (file d₀ kids) (p ∷ ps) [] last n e =
    let (c, there, found) = subtree-some (file d₀ kids) n p ps e in
    rw
      (write_node-step (file d₀ kids) (file (node_data n) (without_child last (children n))) c p ps
        there)
      refl
view-write_without node (p ∷ ps) (q ∷ qs) last n e =
    let (c, there, found) = subtree-some node n p ps e in
    let new = file (node_data n) (without_child last (children n)) in
    rw
      (
        write_node-step node new c p ps there,
        view-set_child p q node (write_node c ps new) qs,
        str_eq_comm q p,
      )
      (elim (Bool-cases (str_eq p q)) [
        | inr other ↦ rw other refl
        | inl same ↦
            rw (same, view-there node c p q qs there same) (view-write_without c ps qs last n found)
      ])
