-- ===== src/Phatdb/Ops/Twice.antt =====
-- A CREATE that comes twice, as from a client that calls again (phatdb/phatdb.go).
use go_phat.Prelude.{
  ◌+◌, String, ◌≡◌, ◌∙◌, refl, ap, Option, none, some, List, [], ◌∷◌, true, false, ◌==◌,
  if◌then◌else◌, Bool-cases, inl, inr, u64, arith,
}
use go_phat.Phatdb.Path.{get_node_path}
use go_phat.Phatdb.Tree.{DataNode, FileNode, traverse_to_node, set_data}
use go_phat.Phatdb.Ops.{exist, create_found, create_node}
use go_phat.Phatdb.Ops.View.{view, list_eq, is_prefix, or_zero, str_eq_refl, view-traverse_to_node}
use go_phat.Phatdb.Ops.Reads.{walked, create_node-walked, create_node-view}

pub list_eq_refl : (ps : List String) → list_eq ps ps ≡ true
unfolding list_eq
list_eq_refl [] = refl
list_eq_refl (p ∷ ps) = rw (str_eq_refl p) (list_eq_refl ps)

pub is_prefix_refl : (ps : List String) → is_prefix ps ps ≡ true
unfolding is_prefix
is_prefix_refl [] = refl
is_prefix_refl (p ∷ ps) = rw (str_eq_refl p) (is_prefix_refl ps)

or_zero-twice : (o : Option (Option DataNode)) → or_zero (or_zero o) ≡ or_zero o
or_zero-twice none = refl
or_zero-twice (some d) = refl

-- Where a write has gone, there is no missing node on the way.
walked-kept :
    (root root' : FileNode) (ps qs : List String) (d : DataNode)
    → view root' qs ≡ (if list_eq qs ps then some (some d) else walked root ps qs)
    → walked root' ps qs ≡ view root' qs
walked-kept root root' ps qs d stored = elim (Bool-cases (is_prefix qs ps)) [
  | inr beside ↦ rw beside refl
  | inl above ↦ elim (Bool-cases (list_eq qs ps)) [
    | inl here ↦ let now : view root' qs ≡ some (some d) = rw here at stored in rw (above, now) refl
    | inr before ↦
        let now : view root' qs ≡ or_zero (view root qs) = rw (before, above) at stored in
        rw (above, now) (or_zero-twice (view root qs))
  ]
]

-- A second CREATE of a path whose node has version 0, or is missing, fails and changes no path.
pub create_node-twice :
    (root : FileNode) (path val again : String) (d : DataNode)
    → walked root (get_node_path path) (get_node_path path) ≡ some (some d)
    → d.stats.version ≡ 0
    → let root' = (create_node root path val).0 in
      ((create_node root' path again).1 ≡ exist)
      × ((qs : List String) → view (create_node root' path again).0 qs ≡ view root' qs)
unfolding create_found set_data
create_node-twice root path val again d e zero_version =
    let ps = get_node_path path in
    let root' = (create_node root path val).0 in
    let stored = (create_node-view root path val d e zero_version).1 in
    let here : view root' ps ≡ some (some (set_data d val)) =
      stored ps ∙ rw (list_eq_refl ps) refl in
    let found : walked root' ps ps ≡ some (some (set_data d val)) =
      rw (is_prefix_refl ps, here) refl in
    let counted : (u64 (d.stats.version + 1) == 0) ≡ false = ground arith in
    let (kids, there, run) = create_node-walked root' path again (some (set_data d val)) found in
    let second : create_node root' path again ≡ ((traverse_to_node root' ps true).0, exist) =
      run ∙ rw counted refl in
    (
      ap (λ r. r.1) second,
      λ qs.
          ap (λ r. view r.0 qs) second
          ∙ view-traverse_to_node root' ps qs
          ∙ walked-kept root root' ps qs (set_data d val) (stored qs),
    )
