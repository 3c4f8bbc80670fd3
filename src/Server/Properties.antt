-- ===== src/Server/Properties.antt =====
-- src/server/server.cpp: merged_properties, on boost's property tree.
use dracon.Prelude.{
  ◌≡◌, ◌∙◌, refl, sym, ap, false, List, [], ◌∷◌, ◌++◌, Bytes, is_empty, if◌then◌else◌, append_assoc,
}

-- A node has data, and children with their keys.
mutual
  pub data Ptree : Type 0 where
    node : Bytes → Children → Ptree

  pub data Children : Type 0 where
    no_children : Children
    child : Bytes → Ptree → Children → Children

-- The key of a child behind the ones above it.
abbrev pub next_nodes : Bytes → Bytes → Bytes
next_nodes prev_nodes name = (if is_empty prev_nodes then [] else prev_nodes ++ (b'.' ∷ [])) ++ name

unfoldable mutual
  pub merged_properties : Ptree → Bytes → List (Bytes × Bytes)
  merged_properties (node value no_children) prev_nodes = (prev_nodes, value) ∷ []
  merged_properties (node value (child name n rest)) prev_nodes =
      merged_properties n (next_nodes prev_nodes name) ++ merged_children rest prev_nodes

  -- The loop over the children.
  pub merged_children : Children → Bytes → List (Bytes × Bytes)
  merged_children no_children prev_nodes = []
  merged_children (child name n rest) prev_nodes =
      merged_properties n (next_nodes prev_nodes name) ++ merged_children rest prev_nodes

-- The nodes without children, from left to right: the keys on the way to each, behind those of
-- `path`, and its data.
unfoldable mutual
  pub leaves : Ptree → List Bytes → List (List Bytes × Bytes)
  leaves (node value no_children) path = (path, value) ∷ []
  leaves (node value (child name n rest)) path =
      leaves n (path ++ (name ∷ [])) ++ leaves_below rest path

  pub leaves_below : Children → List Bytes → List (List Bytes × Bytes)
  leaves_below no_children path = []
  leaves_below (child name n rest) path = leaves n (path ++ (name ∷ [])) ++ leaves_below rest path

-- Keys with a dot between each two.
unfoldable pub dotted : List Bytes → Bytes
dotted [] = []
dotted (x ∷ []) = x
dotted (x ∷ y ∷ ys) = x ++ (b'.' ∷ dotted (y ∷ ys))

unfoldable pub properties_of : List (List Bytes × Bytes) → List (Bytes × Bytes)
unfolding dotted
properties_of [] = []
properties_of ((path, value) ∷ rest) = (dotted path, value) ∷ properties_of rest

-- No key is empty.
unfoldable mutual
  pub IsKeyed : Ptree → Type 0
  IsKeyed (node value children) = AreKeyed children

  pub AreKeyed : Children → Type 0
  AreKeyed no_children = Unit
  AreKeyed (child name n rest) = (is_empty name ≡ false) × IsKeyed n × AreKeyed rest

abbrev AreFull : List Bytes → Type 0
AreFull [] = Unit
AreFull (x ∷ xs) = (is_empty x ≡ false) × AreFull xs

AreFull-last :
    (path : List Bytes) (name : Bytes)
    → AreFull path
    → is_empty name ≡ false
    → AreFull (path ++ (name ∷ []))
AreFull-last [] name h e = (e, tt)
AreFull-last (x ∷ xs) name (d, h) e = (d, AreFull-last xs name h e)

properties_of-append :
    (xs ys : List (List Bytes × Bytes))
    → properties_of (xs ++ ys) ≡ properties_of xs ++ properties_of ys
unfolding properties_of
properties_of-append [] ys = refl
properties_of-append ((path, value) ∷ xs) ys =
    ap (◌∷◌ (dotted path, value)) (properties_of-append xs ys)

is_empty-append : (xs ys : Bytes) → is_empty xs ≡ false → is_empty (xs ++ ys) ≡ false
is_empty-append [] ys e = cc
is_empty-append (x ∷ xs) ys e = refl

dotted-full :
    (x : Bytes) (xs : List Bytes) → is_empty x ≡ false → is_empty (dotted (x ∷ xs)) ≡ false
unfolding dotted
dotted-full x [] e = e
dotted-full x (y ∷ ys) e = is_empty-append x (b'.' ∷ dotted (y ∷ ys)) e

dotted-last :
    (x : Bytes) (xs : List Bytes) (name : Bytes)
    → dotted (x ∷ (xs ++ (name ∷ []))) ≡ dotted (x ∷ xs) ++ (b'.' ∷ name)
unfolding dotted
dotted-last x [] name = refl
dotted-last x (y ∷ ys) name =
    ap (λ t. x ++ (b'.' ∷ t)) (dotted-last y ys name)
    ∙ sym (append_assoc x (b'.' ∷ dotted (y ∷ ys)) (b'.' ∷ name))

next_nodes-dotted :
    (path : List Bytes) (name : Bytes)
    → AreFull path
    → next_nodes (dotted path) name ≡ dotted (path ++ (name ∷ []))
unfolding dotted
next_nodes-dotted [] name h = refl
next_nodes-dotted (x ∷ xs) name (d, h) =
    rw (dotted-full x xs d, dotted-last x xs name) (append_assoc (dotted (x ∷ xs)) (b'.' ∷ []) name)

mutual
  unfolding merged_properties merged_children leaves leaves_below properties_of IsKeyed AreKeyed

  merged-leaves :
      (n : Ptree) (path : List Bytes)
      → IsKeyed n
      → AreFull path
      → merged_properties n (dotted path) ≡ properties_of (leaves n path)
  merged-leaves (node value no_children) path k h = refl
  merged-leaves (node value (child name n rest)) path k h =
      children-leaves (child name n rest) path k h

  children-leaves :
      (children : Children) (path : List Bytes)
      → AreKeyed children
      → AreFull path
      → merged_children children (dotted path) ≡ properties_of (leaves_below children path)
  children-leaves no_children path ks h = refl
  children-leaves (child name n rest) path (d, k, ks) h =
      rw
        (
          properties_of-append (leaves n (path ++ (name ∷ []))) (leaves_below rest path),
          next_nodes-dotted path name h,
          merged-leaves n (path ++ (name ∷ [])) k (AreFull-last path name h d),
          children-leaves rest path ks h,
        )
        refl

-- Where no key is empty, merged_properties of a tree is, from left to right, the data of each node
-- without children under the keys on the way to it, joined by dots.
pub merged_properties-leaves :
    (n : Ptree) → IsKeyed n → merged_properties n [] ≡ properties_of (leaves n [])
unfolding dotted
merged_properties-leaves n k = merged-leaves n [] k tt
