-- ===== src/StaticContent/FilePath.antt =====
-- std::filesystem::path on POSIX, as src/plugins/static_content uses it: a path is its names, and
-- whether a slash stands before them. An empty last name is a slash at the end.
use dracon.Prelude.{
  Bool, true, false, not, ◌&&◌, ◌||◌, List, [], ◌∷◌, ◌++◌, Bytes, codes, ◌==◌, if◌then◌else◌,
  is_empty, bytes_eq,
}

pub record PathName : Type 0 where
  pub absolute : Bool
  pub names : List Bytes

-- The names of a text: `name` is what was read of the next one, `some_name` whether there is one
-- before it.
unfoldable pub names_of : Bytes → Bool → Bytes → List Bytes
names_of name some_name [] =
    if is_empty name then (if some_name then [] ∷ [] else []) else name ∷ []
names_of name some_name (c ∷ text) =
    let longer = names_of (name ++ (c ∷ [])) some_name text in
    let skipped = names_of [] some_name text in
    let next = names_of [] true text in
    if c == b'/' then (if is_empty name then skipped else name ∷ next) else longer

abbrev starts_at_root : Bytes → Bool
starts_at_root [] = false
starts_at_root (c ∷ text) = c == b'/'

-- The constructor.
unfoldable pub path_of : Bytes → PathName
unfolding names_of
path_of text = record { absolute = starts_at_root text; names = names_of [] false text }

-- What an iterator over a path visits.
abbrev pub elements : PathName → List Bytes
elements p = if p.absolute then (b'/' ∷ []) ∷ p.names else p.names

unfoldable pub drop_trailing : List Bytes → List Bytes
drop_trailing [] = []
drop_trailing (x ∷ []) = if is_empty x then [] else x ∷ []
drop_trailing (x ∷ y ∷ ys) = x ∷ drop_trailing (y ∷ ys)

unfoldable pub has_filename : List Bytes → Bool
has_filename [] = false
has_filename (x ∷ []) = not (is_empty x)
has_filename (x ∷ y ∷ ys) = has_filename (y ∷ ys)

abbrev pub joined : List Bytes → List Bytes → List Bytes
joined xs [] = if has_filename xs then xs ++ ([] ∷ []) else xs
joined xs (y ∷ ys) = drop_trailing xs ++ (y ∷ ys)

-- `p / q`.
unfoldable pub append : PathName → PathName → PathName
unfolding drop_trailing has_filename
append p q =
    if q.absolute then q else record { absolute = p.absolute; names = joined p.names q.names }

abbrev pub is_up : Bytes → Bool
is_up name = bytes_eq name (codes "..")

-- The names that are left, last one first, and whether a slash stands behind them.
abbrev Stack : Type 0
Stack = List Bytes × Bool

abbrev pub go_up : Bool → List Bytes → Stack
go_up absolute [] = if absolute then ([], false) else (codes ".." ∷ [], false)
go_up absolute (x ∷ xs) = if is_up x then (codes ".." ∷ x ∷ xs, false) else (xs, true)

unfoldable pub push : Bool → Stack → Bytes → Stack
push absolute s name =
    if is_empty name || bytes_eq name (codes ".")
    then (s.0, true)
    else if is_up name
    then go_up absolute s.0
    else (name ∷ s.0, false)

unfoldable pub push_all : Bool → Stack → List Bytes → Stack
unfolding push
push_all absolute s [] = s
push_all absolute s (name ∷ names) = push_all absolute (push absolute s name) names

-- The first list, last name first, before the second one.
unfoldable pub onto : List Bytes → List Bytes → List Bytes
onto [] ys = ys
onto (x ∷ xs) ys = onto xs (x ∷ ys)

abbrev pub unstacked : Stack → List Bytes
unstacked ([], slash) = []
unstacked (x ∷ xs, slash) = onto (x ∷ xs) (if slash && not (is_up x) then [] ∷ [] else [])

abbrev pub or_dot : Bool → List Bytes → List Bytes
or_dot true [] = []
or_dot false [] = codes "." ∷ []
or_dot absolute (x ∷ xs) = x ∷ xs

abbrev pub normal_names : Bool → List Bytes → List Bytes
normal_names absolute [] = []
normal_names absolute (x ∷ xs) =
    or_dot absolute (unstacked (push_all absolute ([], false) (x ∷ xs)))

unfoldable pub lexically_normal : PathName → PathName
unfolding push_all onto
lexically_normal p = record p { names = normal_names p.absolute p.names }

-- boost::starts_with on two paths.
unfoldable pub is_prefix : List Bytes → List Bytes → Bool
is_prefix [] ys = true
is_prefix (x ∷ xs) [] = false
is_prefix (x ∷ xs) (y ∷ ys) = bytes_eq x y && is_prefix xs ys

unfoldable pub starts_with : PathName → PathName → Bool
unfolding is_prefix
starts_with p root = is_prefix (elements root) (elements p)

-- The text of a path.
unfoldable pub with_slashes : List Bytes → Bytes
with_slashes [] = []
with_slashes (x ∷ []) = x
with_slashes (x ∷ y ∷ ys) = x ++ (b'/' ∷ with_slashes (y ∷ ys))

unfoldable pub string_of : PathName → Bytes
unfolding with_slashes
string_of p = if p.absolute then b'/' ∷ with_slashes p.names else with_slashes p.names
