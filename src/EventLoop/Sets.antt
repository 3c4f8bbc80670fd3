-- ===== src/EventLoop/Sets.antt =====
-- Sets of sessions, as lists.
use dracon.Prelude.{ℕ, ◌≡◌, ◌≢◌, ◌⊎◌, refl, arith, true, false, List, [], ◌∷◌}
use dracon.EventLoop.{contains, insert, remove}

pub contains-insert :
    (x y : ℕ) (xs : List ℕ) → contains y (insert x xs) ≡ true → (contains y xs ≡ true) ⊎ (x ≡ y)
unfolding insert contains
contains-insert x y xs e = ground arith

pub contains-inserted : (x : ℕ) (xs : List ℕ) → contains x (insert x xs) ≡ true
unfolding insert contains
contains-inserted x xs = ground arith

pub contains-insert_keeps :
    (x y : ℕ) (xs : List ℕ) → contains y xs ≡ true → contains y (insert x xs) ≡ true
unfolding insert contains
contains-insert_keeps x y xs e = ground arith

pub contains-remove :
    (x y : ℕ) (xs : List ℕ) → contains y (remove x xs) ≡ true → contains y xs ≡ true
unfolding remove contains
contains-remove x y [] e = e
contains-remove x y (z ∷ zs) e = ground (arith, contains-remove x y zs)

pub contains-erased : (x : ℕ) (xs : List ℕ) → contains x (remove x xs) ≡ false
unfolding remove contains
contains-erased x [] = refl
contains-erased x (z ∷ zs) = ground (arith, contains-erased x zs)

pub contains-erase_other :
    (x y : ℕ) (xs : List ℕ) → x ≢ y → contains y (remove x xs) ≡ contains y xs
unfolding remove contains
contains-erase_other x y [] ne = refl
contains-erase_other x y (z ∷ zs) ne = ground (arith, contains-erase_other x y zs ne)
