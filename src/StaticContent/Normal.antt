-- ===== src/StaticContent/Normal.antt =====
-- Normal paths, and the names that go up.
use dracon.Prelude.{
  ◌≡◌, refl, Bool, true, false, not, ◌&&◌, ◌||◌, List, [], ◌∷◌, ◌++◌, Bytes, codes, is_empty,
  bytes_eq, if◌then◌else◌, Bool-cases, inl, inr,
}
use dracon.StaticContent.FilePath.{
  PathName, drop_trailing, is_up, go_up, push, push_all, onto, unstacked, or_dot, normal_names,
  lexically_normal,
}

-- No name goes up.
abbrev pub StaysDown : List Bytes → Type 0
StaysDown [] = Unit
StaysDown (x ∷ xs) = (is_up x ≡ false) × StaysDown xs

pub StaysDown-append : (xs ys : List Bytes) → StaysDown xs → StaysDown ys → StaysDown (xs ++ ys)
StaysDown-append [] ys h g = g
StaysDown-append (x ∷ xs) ys (d, h) g = (d, StaysDown-append xs ys h g)

pub StaysDown-rest : (xs ys : List Bytes) → StaysDown (xs ++ ys) → StaysDown ys
StaysDown-rest [] ys h = h
StaysDown-rest (x ∷ xs) ys (d, h) = StaysDown-rest xs ys h

pub StaysDown-onto : (xs ys : List Bytes) → StaysDown xs → StaysDown ys → StaysDown (onto xs ys)
unfolding onto
StaysDown-onto [] ys h g = g
StaysDown-onto (x ∷ xs) ys (d, h) g = StaysDown-onto xs (x ∷ ys) h (d, g)

pub StaysDown-drop_trailing : (xs : List Bytes) → StaysDown xs → StaysDown (drop_trailing xs)
unfolding drop_trailing
StaysDown-drop_trailing [] h = tt
StaysDown-drop_trailing (x ∷ []) (d, h) = elim (Bool-cases (is_empty x)) [
  | inl e ↦ rw e tt
  | inr e ↦ rw e (d, tt)
]
StaysDown-drop_trailing (x ∷ y ∷ ys) (d, h) = (d, StaysDown-drop_trailing (y ∷ ys) h)

-- From the root directory nothing goes up.
go_up-StaysDown : (xs : List Bytes) → StaysDown xs → StaysDown (go_up true xs).0
go_up-StaysDown [] h = tt
go_up-StaysDown (x ∷ xs) (d, h) = rw d h

push-StaysDown :
    (s : List Bytes × Bool) (name : Bytes) → StaysDown s.0 → StaysDown (push true s name).0
unfolding push
push-StaysDown s name h = elim (Bool-cases (is_empty name || bytes_eq name (codes "."))) [
  | inl e ↦ rw e h
  | inr e ↦ elim (Bool-cases (is_up name)) [
    | inl up ↦ rw (e, up) (go_up-StaysDown s.0 h)
    | inr down ↦ rw (e, down) (down, h)
  ]
]

push_all-StaysDown :
    (s : List Bytes × Bool) (names : List Bytes)
    → StaysDown s.0
    → StaysDown (push_all true s names).0
unfolding push_all
push_all-StaysDown s [] h = h
push_all-StaysDown s (name ∷ names) h =
    push_all-StaysDown (push true s name) names (push-StaysDown s name h)

slash-StaysDown : (b : Bool) → StaysDown (if b then [] ∷ [] else [])
slash-StaysDown true = (refl, tt)
slash-StaysDown false = tt

unstacked-StaysDown : (s : List Bytes × Bool) → StaysDown s.0 → StaysDown (unstacked s)
unstacked-StaysDown ([], slash) h = tt
unstacked-StaysDown (x ∷ xs, slash) h =
    StaysDown-onto (x ∷ xs) _ h (slash-StaysDown (slash && not (is_up x)))

or_dot-StaysDown : (xs : List Bytes) → StaysDown xs → StaysDown (or_dot true xs)
or_dot-StaysDown [] h = h
or_dot-StaysDown (x ∷ xs) h = h

normal_names-StaysDown : (xs : List Bytes) → StaysDown (normal_names true xs)
normal_names-StaysDown [] = tt
normal_names-StaysDown (x ∷ xs) =
    or_dot-StaysDown (unstacked (push_all true ([], false) (x ∷ xs))) (
      unstacked-StaysDown (push_all true ([], false) (x ∷ xs))
        (push_all-StaysDown ([], false) (x ∷ xs) tt))

pub lexically_normal-StaysDown :
    (p : PathName) → p.absolute ≡ true → StaysDown (lexically_normal p).names
unfolding lexically_normal
lexically_normal-StaysDown p e = rw e (normal_names-StaysDown p.names)
