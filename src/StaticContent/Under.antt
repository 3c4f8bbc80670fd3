-- ===== src/StaticContent/Under.antt =====
-- The file that is chosen, against the root.
use dracon.Prelude.{
  ◌≡◌, ◌∙◌, refl, sym, ap, Bool, true, false, List, [], ◌∷◌, ◌++◌, Bytes, Option, none, some,
  is_empty, bytes_eq, bytes_eq→eq, if◌then◌else◌, Bool-cases, Option-cases, inl, inr, append_assoc,
  not_both, subst, append-nil,
}
use dracon.StaticContent.FilePath.{
  PathName, path_of, elements, drop_trailing, has_filename, joined, append, lexically_normal,
  is_prefix, starts_with,
}
use dracon.StaticContent.{
  Settings, FileSystem, target, default_file, file_of, is_directory, is_regular,
}
use dracon.StaticContent.Normal.{
  StaysDown, StaysDown-append, StaysDown-rest, StaysDown-drop_trailing, lexically_normal-StaysDown,
}

-- The path of a file is the one of the directory and names that do not go up.
pub record IsUnder (root p : PathName) : Type 0 where
  pub below : List Bytes
  pub is_below : elements p ≡ elements root ++ below
  pub stays_down : StaysDown below

is_prefix-rest :
    (xs ys : List Bytes) → is_prefix xs ys ≡ true → (rest : List Bytes) × (ys ≡ xs ++ rest)
unfolding is_prefix
is_prefix-rest [] ys e = (ys, refl)
is_prefix-rest (x ∷ xs) [] e = cc
is_prefix-rest (x ∷ xs) (y ∷ ys) e = elim (Bool-cases (bytes_eq x y)) [
  | inl same ↦
      let (rest, f) = is_prefix-rest xs ys (rw same at e) in
      (rest, rw (bytes_eq→eq x y same, f) refl)
  | inr other ↦ absurd (not_both (sym (rw other at e)))
]

elements-StaysDown : (p : PathName) → StaysDown p.names → StaysDown (elements p)
elements-StaysDown p h = elim (Bool-cases p.absolute) [ inl e ↦ rw e (refl, h) | inr e ↦ rw e h ]

starts_with-IsUnder :
    (p root : PathName) → starts_with p root ≡ true → StaysDown p.names → IsUnder root p
unfolding starts_with
starts_with-IsUnder p root e h =
    let (rest, f) = is_prefix-rest (elements root) (elements p) e in
    record {
      below = rest;
      is_below = f;
      stays_down = StaysDown-rest (elements root) rest (rw f at (elements-StaysDown p h));
    }

-- No name is empty: there is no slash at the end.
abbrev pub AreNamed : List Bytes → Type 0
AreNamed [] = Unit
AreNamed (x ∷ xs) = (is_empty x ≡ false) × AreNamed xs

drop_trailing-append :
    (xs ys : List Bytes) → AreNamed xs → drop_trailing (xs ++ ys) ≡ xs ++ drop_trailing ys
unfolding drop_trailing
drop_trailing-append [] ys h = refl
drop_trailing-append (x ∷ []) [] (d, h) = rw d refl
drop_trailing-append (x ∷ []) (y ∷ ys) (d, h) = refl
drop_trailing-append (x ∷ x' ∷ xs) ys (d, h) = ap (◌∷◌ x) (drop_trailing-append (x' ∷ xs) ys h)

elements-AreNamed : (p : PathName) → AreNamed p.names → AreNamed (elements p)
elements-AreNamed p h = elim (Bool-cases p.absolute) [ inl e ↦ rw e (refl, h) | inr e ↦ rw e h ]

-- `p / q` for a relative `q`.
abbrev beside : Bool → List Bytes → List Bytes → PathName
beside absolute xs ys = record { absolute = absolute; names = joined xs ys }

beside-elements :
    (absolute : Bool) (xs : List Bytes) (y : Bytes) (ys : List Bytes)
    → elements (beside absolute xs (y ∷ ys))
      ≡ drop_trailing (elements (record { absolute = absolute; names = xs })) ++ (y ∷ ys)
unfolding drop_trailing
beside-elements true [] y ys = refl
beside-elements true (x ∷ xs) y ys = refl
beside-elements false xs y ys = refl

slash_behind :
    (absolute : Bool) (xs : List Bytes)
    → elements (record { absolute = absolute; names = xs ++ ([] ∷ []) })
      ≡ elements (record { absolute = absolute; names = xs }) ++ ([] ∷ [])
slash_behind true xs = refl
slash_behind false xs = refl

slash-elements :
    (absolute : Bool) (xs : List Bytes)
    → (more : List Bytes) × (elements (beside absolute xs [])
        ≡ elements (record { absolute = absolute; names = xs }) ++ more)
      × StaysDown more
slash-elements absolute xs = elim (Bool-cases (has_filename xs)) [
  | inl e ↦ rw e ([] ∷ [], slash_behind absolute xs, (refl, tt))
  | inr e ↦ rw e ([], sym (append-nil _), tt)
]

beside-IsUnder :
    (root : PathName) (absolute : Bool) (xs ys : List Bytes)
    → AreNamed root.names
    → IsUnder root (record { absolute = absolute; names = xs })
    → StaysDown ys
    → IsUnder root (beside absolute xs ys)
beside-IsUnder root absolute xs [] named u h =
    let (more, e, down) = slash-elements absolute xs in
    record {
      below = u.below ++ more;
      is_below = e ∙ (rw u.is_below (append_assoc (elements root) u.below more));
      stays_down = StaysDown-append u.below more u.stays_down down;
    }
beside-IsUnder root absolute xs (y ∷ ys) named u h = record {
  below = drop_trailing u.below ++ (y ∷ ys);
  is_below =
      beside-elements absolute xs y ys
      ∙ (rw
          (u.is_below, drop_trailing-append (elements root) u.below (elements-AreNamed root named))
          (append_assoc (elements root) (drop_trailing u.below) (y ∷ ys)));
  stays_down =
      StaysDown-append (drop_trailing u.below) (y ∷ ys)
        (StaysDown-drop_trailing u.below u.stays_down) h;
}

append-IsUnder :
    (root p q : PathName)
    → AreNamed root.names
    → q.absolute ≡ false
    → IsUnder root p
    → StaysDown q.names
    → IsUnder root (append p q)
unfolding append
append-IsUnder root p q named relative u h =
    rw relative (beside-IsUnder root p.absolute p.names q.names named u h)

-- What a configuration and a file system have to keep: the default file is a relative path that
-- does not go up, and `canonical` leaves no dot-dot, as the standard says.
pub record IsSound (settings : Settings) (fs : FileSystem) : Type 0 where
  pub relative : (path_of settings.s_default_file).absolute ≡ false
  pub default_down : StaysDown (path_of settings.s_default_file).names
  pub canonical_down : (p q : PathName) → fs.canonical p ≡ some q → StaysDown q.names

abbrev pub OrStaysDown : Option PathName → Type 0
OrStaysDown none = Unit
OrStaysDown (some p) = StaysDown p.names

abbrev OrUnder : PathName → Option PathName → Type 0
OrUnder root none = Unit
OrUnder root (some p) = IsUnder root p

none_some : {p : PathName} → none ≡ some p → ⊥
none_some e = cc

if_absolute :
    (b : Bool) (p q : PathName)
    → (b ≡ true → p.absolute ≡ true)
    → q.absolute ≡ true
    → (if b then p else q).absolute ≡ true
if_absolute true p q f e = f refl
if_absolute false p q f e = e

append-absolute : (root path : PathName) → root.absolute ≡ true → (append root path).absolute ≡ true
unfolding append
append-absolute root path e = if_absolute path.absolute path _ (λ f. f) e

module _ (settings : Settings) (fs : FileSystem) (sound : IsSound settings fs) (root : PathName)
    (rooted : root.absolute ≡ true) (named : AreNamed root.names) where
  target-StaysDown : (path p : PathName) → target settings fs root path ≡ some p → StaysDown p.names
  unfolding target
  target-StaysDown path p e = elim (Bool-cases settings.s_allow_symlinks) [
    | inl allowed ↦
        let same : some (lexically_normal (append root path)) ≡ some p = rw allowed at e in
        subst (λ o. OrStaysDown o) same
          (lexically_normal-StaysDown (append root path) (append-absolute root path rooted))
    | inr refused ↦ sound.canonical_down (lexically_normal (append root path)) p (rw refused at e)
  ]

  default_file-IsUnder : (p : PathName) → IsUnder root p → IsUnder root (default_file settings fs p)
  unfolding default_file
  default_file-IsUnder p u = elim (Bool-cases (is_directory (fs.status p))) [
    | inl e ↦ rw e (
        append-IsUnder root p (path_of settings.s_default_file) named sound.relative u
          sound.default_down)
    | inr e ↦ rw e u
  ]

  -- Whatever path is asked for, a file that is served is under the root, which is absolute and
  -- written without a slash at the end: its path is the one of the root and names of which none
  -- goes up, where the configured default file is a relative path that does not go up either.
  pub file_of-IsUnder :
      (path file : PathName) → file_of settings fs root path ≡ some file → IsUnder root file
  unfolding file_of
  file_of-IsUnder path file e = elim (Option-cases (target settings fs root path)) [
    | inl refused ↦ absurd (none_some (rw (file_of, refused) at e))
    | inr (p, found) ↦ elim (Bool-cases (starts_with p root)) [
      | inl inside ↦ elim (Bool-cases (is_regular (fs.status (default_file settings fs p)))) [
        | inl here ↦
            subst (λ o. OrUnder root o) (rw (file_of, found, inside, here) at e)
              (default_file-IsUnder p
                (starts_with-IsUnder p root inside (target-StaysDown path p found)))
        | inr missing ↦ absurd (none_some (rw (file_of, found, inside, missing) at e))
      ]
      | inr outside ↦ absurd (none_some (rw (file_of, found, outside) at e))
    ]
  ]
