-- ===== src/Phatdb/Ops/Removal.antt =====
-- DELETE (`deleteNode` of phatdb/phatdb.go) as a change of what is at each path.
use go_phat.Prelude.{
  String, ◌≡◌, refl, sym, ◌∙◌, ap, none, some, List, [], ◌∷◌, ◌++◌, if◌then◌else◌,
}
use go_phat.Phatdb.Path.{get_node_path}
use go_phat.Phatdb.Tree.{
  DataNode, FileNode, file, Children, node_data, children, write_node, without_child,
}
use go_phat.Phatdb.Ops.{value, stats_of, split_last, delete_from, delete_node}
use go_phat.Phatdb.Ops.View.{view, subtree, is_prefix, traverse_to_node-finds}
use go_phat.Phatdb.Ops.Writes.{subtree-some, view-write_without}

split_last-cases :
    (p : String) (ps : List String)
    → (front : List String) × (last : String) × (split_last (p ∷ ps) ≡ some (front, last))
      × (front ++ last ∷ [] ≡ p ∷ ps)
unfolding split_last
split_last-cases p [] = ([], p, refl, refl)
split_last-cases p (p₂ ∷ ps) =
    let (front, last, split, joined) = split_last-cases p₂ ps in
    (p ∷ front, last, rw (split, split_last) refl, ap (λ rest. p ∷ rest) joined)

subtree-front :
    (node n : FileNode) (front : List String) (last : String)
    → subtree node (front ++ last ∷ []) ≡ some n
    → (m : FileNode) × (subtree node front ≡ some m)
unfolding subtree
subtree-front node n [] last e = (node, refl)
subtree-front (file d kids) n (p ∷ front) last e =
    let (c, there, below) = subtree-some (file d kids) n p (front ++ last ∷ []) e in
    let (m, found) = subtree-front c n front last below in (m, rw (there, subtree) found)

delete_node-there :
    (root : FileNode) (path : String) (n : FileNode)
    → subtree root (get_node_path path) ≡ some n
    → delete_node root path ≡ delete_from root n (split_last (get_node_path path))
unfolding delete_node
delete_node-there root path n e =
    let walk = traverse_to_node-finds root (get_node_path path) in
    rw (ap (λ r. r.1) walk ∙ e, ap (λ r. r.0) walk, delete_node) refl

delete_from-there :
    (root n m : FileNode) (front : List String) (last : String)
    → subtree root front ≡ some m
    → delete_from root n (some (front, last)) ≡ (
      write_node root front (file (node_data m) (without_child last (children m))),
      stats_of (node_data n),
    )
unfolding delete_from
delete_from-there root n m front last e =
    let walk = traverse_to_node-finds root front in
    rw (ap (λ r. r.1) walk ∙ e, ap (λ r. r.0) walk, delete_from) refl

-- DELETE on a path with a name, where a node with data is, answers the node's statistics, removes
-- what is at the path and everything below it, children or not, and changes no other path.
pub delete_node-view :
    (root : FileNode) (path p : String) (ps : List String) (d : DataNode) (kids : Children)
    → get_node_path path ≡ p ∷ ps
    → subtree root (get_node_path path) ≡ some (file (some d) kids)
    → ((delete_node root path).1 ≡ value d.stats)
      × ((qs : List String)
          → view (delete_node root path).0 qs
            ≡ (if is_prefix (get_node_path path) qs then none else view root qs))
unfolding stats_of
delete_node-view root path p ps d kids names there =
    let n = file (some d) kids in
    let (front, last, split, joined) = split_last-cases p ps in
    let all : front ++ last ∷ [] ≡ get_node_path path = joined ∙ sym names in
    let (m, above) = subtree-front root n front last (rw all there) in
    let run : delete_node root path ≡ (
      write_node root front (file (node_data m) (without_child last (children m))),
      value d.stats,
    ) =
      delete_node-there root path n there
      ∙ ap (delete_from root n) (ap split_last names ∙ split)
      ∙ delete_from-there root n m front last above in
    rw (run, sym all) (refl, λ qs. view-write_without root front qs last m above)
