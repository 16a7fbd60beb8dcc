-- ===== src/Phatdb/Path.antt =====
-- Paths (`GetNodePath` of phatdb/phatdb.go): `strings.FieldsFunc` with '/' as the separator.
use Prim.Native.Char.{Char, code}
use go_phat.Prelude.{
  String, ◌≡◌, refl, Option, none, some, List, [], ◌∷◌, Bool, false, ◌==◌, if◌then◌else◌,
  Bool-cases, inl, inr,
}

unfoldable pub split_on_slash : Char → Bool
split_on_slash r = code r == b'/'

-- A field that is not empty so far goes in front of those behind it.
abbrev pub close_field : Option String → List String → List String
close_field none fields = fields
close_field (some field) fields = field ∷ fields

abbrev pub or_empty_text : Option String → String
or_empty_text none = String.[]
or_empty_text (some field) = field

-- From the right: the field that begins here, if one does, and the fields behind it.
unfoldable pub fields_from : String → Option String × List String
unfolding split_on_slash
fields_from String.[] = (none, [])
fields_from (String.◌∷◌ r s) =
    let (field, fields) = fields_from s in
    if split_on_slash r
    then (none, close_field field fields)
    else (some (String.◌∷◌ r (or_empty_text field)), fields)

unfoldable pub get_node_path : String → List String
unfolding fields_from
get_node_path path = let (field, fields) = fields_from path in close_field field fields

dev_null : get_node_path "/dev/null" ≡ "dev" ∷ "null" ∷ []
unfolding get_node_path
dev_null = refl

trailing_slash : get_node_path "/inception/must/go/" ≡ "inception" ∷ "must" ∷ "go" ∷ []
unfolding get_node_path
trailing_slash = refl

-- A name without slashes.
abbrev pub IsPlain : String → Type 0
IsPlain String.[] = Unit {0}
IsPlain (String.◌∷◌ r s) = (split_on_slash r ≡ false) × IsPlain s

-- A name of a path: at least one character, and no slash.
abbrev pub IsName : String → Type 0
IsName String.[] = ⊥
IsName (String.◌∷◌ r s) = (split_on_slash r ≡ false) × IsPlain s

abbrev pub AreNames : List String → Type 0
AreNames [] = Unit {0}
AreNames (name ∷ names) = IsName name × AreNames names

-- `name` in front of a path
abbrev pub prepend : String → String → String
prepend String.[] path = path
prepend (String.◌∷◌ r s) path = String.◌∷◌ r (prepend s path)

-- A path with a slash in front of each name.
abbrev pub join_path : List String → String
join_path [] = String.[]
join_path (name ∷ names) = prepend "/" (prepend name (join_path names))

abbrev field_of : String → Option String
field_of String.[] = none
field_of (String.◌∷◌ r s) = some (String.◌∷◌ r s)

or_empty_text-field_of : (s : String) → or_empty_text (field_of s) ≡ s
or_empty_text-field_of String.[] = refl
or_empty_text-field_of (String.◌∷◌ r s) = refl

fields_from-prepend :
    (s path : String) (fields : List String)
    → IsPlain s
    → fields_from path ≡ (none, fields)
    → fields_from (prepend s path) ≡ (field_of s, fields)
unfolding fields_from
fields_from-prepend String.[] path fields plain e = e
fields_from-prepend (String.◌∷◌ r s) path fields plain e =
    rw (fields_from-prepend s path fields plain.1 e, plain.0, or_empty_text-field_of) refl

IsName-IsPlain : (s : String) → IsName s → IsPlain s
IsName-IsPlain String.[] h = absurd h
IsName-IsPlain (String.◌∷◌ r s) h = h

field_of-IsName : (s : String) → IsName s → field_of s ≡ some s
field_of-IsName String.[] h = absurd h
field_of-IsName (String.◌∷◌ r s) h = refl

fields_from-join_path :
    (names : List String) → AreNames names → fields_from (join_path names) ≡ (none, names)
unfolding fields_from
fields_from-join_path [] h = refl
fields_from-join_path (name ∷ names) h =
    let rest : fields_from (join_path names) ≡ (none, names) = fields_from-join_path names h.1 in
    rw
      (
        fields_from-prepend name (join_path names) names (IsName-IsPlain name h.0) rest,
        field_of-IsName name h.0,
      )
      refl

-- `GetNodePath` gives back the names of a path that is put together from names, which are not empty
-- and hold no slash.
pub get_node_path-join_path :
    (names : List String) → AreNames names → get_node_path (join_path names) ≡ names
unfolding get_node_path
get_node_path-join_path names h = rw (fields_from-join_path names h) refl

IsOpen : Option String → Type 0
IsOpen none = Unit {0}
IsOpen (some field) = IsName field

or_empty_text-IsPlain : (field : Option String) → IsOpen field → IsPlain (or_empty_text field)
unfolding IsOpen
or_empty_text-IsPlain none h = tt
or_empty_text-IsPlain (some field) h = IsName-IsPlain field h

close_field-AreNames :
    (field : Option String) (fields : List String)
    → IsOpen field
    → AreNames fields
    → AreNames (close_field field fields)
unfolding IsOpen
close_field-AreNames none fields h k = k
close_field-AreNames (some field) fields h k = (h, k)

fields_from-AreNames : (s : String) → IsOpen (fields_from s).0 × AreNames (fields_from s).1
unfolding fields_from IsOpen
fields_from-AreNames String.[] = (tt, tt)
fields_from-AreNames (String.◌∷◌ r s) =
    let (h, k) = fields_from-AreNames s in
    elim (Bool-cases (split_on_slash r)) [
      | inl slash ↦ rw slash (tt, close_field-AreNames (fields_from s).0 (fields_from s).1 h k)
      | inr plain ↦ rw plain ((plain, or_empty_text-IsPlain (fields_from s).0 h), k)
    ]

-- Whatever the path, the parts that `GetNodePath` returns are not empty and hold no slash.
pub get_node_path-AreNames : (path : String) → AreNames (get_node_path path)
unfolding get_node_path
get_node_path-AreNames path =
    let (h, k) = fields_from-AreNames path in
    close_field-AreNames (fields_from path).0 (fields_from path).1 h k
