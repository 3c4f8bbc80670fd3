-- ===== src/Server/Connections.antt =====
-- The connections of an address and the sessions that are of it, one by one.
use dracon.Prelude.{
  ℕ, max, ◌+◌, ◌-◌, ◌≤◌, ◌≡◌, ◌∙◌, refl, sym, ap, arith, Bool, true, false, List, [], ◌∷◌, Bytes,
  bytes_eq, bytes_eq_refl, bytes_eq→eq, ltb, ◌==◌, length, if◌then◌else◌, Bool-cases, inl, inr,
  ==_refl, not_both,
}
use dracon.Server.{
  connections, set_connections, erase_address, is_active, erase_session, with_address, disconnect,
}

if_twice : (b : Bool) (x y z : ℕ) → (if b then x else z) ≡ (if b then x else if b then y else z)
if_twice true x y z = refl
if_twice false x y z = refl

if_same : (b : Bool) (x : ℕ) → x ≡ (if b then x else x)
if_same true x = refl
if_same false x = refl

differs : (a b x : Bytes) → bytes_eq x a ≡ false → bytes_eq x b ≡ true → bytes_eq a b ≡ false
differs a b x other at_b = elim (Bool-cases (bytes_eq a b)) [
  | inl same ↦
      absurd (
        not_both
          (sym (rw (bytes_eq→eq a b same, bytes_eq→eq x b at_b, bytes_eq_refl) refl) ∙ other))
  | inr e ↦ e
]

pub connections-set :
    (a b : Bytes) (k : ℕ) (m : List (Bytes × ℕ))
    → connections b (set_connections a k m) ≡ (if bytes_eq a b then k else connections b m)
unfolding connections set_connections
connections-set a b k [] = refl
connections-set a b k ((x, n) ∷ m) = elim (Bool-cases (bytes_eq x a)) [
  | inl same ↦
      let e = bytes_eq→eq x a same in rw same (rw e (if_twice (bytes_eq a b) k n (connections b m)))
  | inr other ↦ rw other (elim (Bool-cases (bytes_eq x b)) [
    | inl at_b ↦
        let not_a : bytes_eq a b ≡ false = differs a b x other at_b in rw (at_b, not_a) refl
    | inr not_b ↦ rw not_b (connections-set a b k m)
  ])
]

connections-erase :
    (a b : Bytes) (m : List (Bytes × ℕ))
    → connections b (erase_address a m) ≡ (if bytes_eq a b then 0 else connections b m)
unfolding connections erase_address
connections-erase a b [] = if_same (bytes_eq a b) 0
connections-erase a b ((x, n) ∷ m) = elim (Bool-cases (bytes_eq x a)) [
  | inl same ↦
      let e = bytes_eq→eq x a same in
      rw same (connections-erase a b m ∙ rw e (if_twice (bytes_eq a b) 0 n (connections b m)))
  | inr other ↦ rw other (elim (Bool-cases (bytes_eq x b)) [
    | inl at_b ↦
        let not_a : bytes_eq a b ≡ false = differs a b x other at_b in rw (at_b, not_a) refl
    | inr not_b ↦ rw not_b (connections-erase a b m)
  ])
]

-- How many of the sessions are of an address.
unfoldable pub live : Bytes → (ℕ → Bytes) → List ℕ → ℕ
live addr peer [] = 0
live addr peer (x ∷ xs) = (if bytes_eq (peer x) addr then 1 else 0) + live addr peer xs

pub live_with :
    (addr b : Bytes) (peer : ℕ → Bytes) (session : ℕ) (xs : List ℕ)
    → is_active session xs ≡ false
    → live b (with_address peer session addr) xs ≡ live b peer xs
unfolding live is_active
live_with addr b peer session [] e = refl
live_with addr b peer session (x ∷ xs) e = elim (Bool-cases (x == session)) [
  | inl same ↦ absurd (ground (arith, same, e))
  | inr other ↦ rw other (
      ap (λ k. (if bytes_eq (peer x) b then 1 else 0) + k)
        (live_with addr b peer session xs (rw other at e)))
]

pub live-erase_session :
    (b : Bytes) (peer : ℕ → Bytes) (session : ℕ) (xs : List ℕ)
    → is_active session xs ≡ true
    → live b peer xs
      ≡ (if bytes_eq (peer session) b then 1 else 0) + live b peer (erase_session session xs)
unfolding live is_active erase_session
live-erase_session b peer session [] e = absurd (not_both (sym e))
live-erase_session b peer session (x ∷ xs) e = elim (Bool-cases (x == session)) [
  | inl same ↦ let at : x ≡ session = ground (arith, same) in rw (same, at) refl
  | inr other ↦
      let rest = live-erase_session b peer session xs (rw other at e) in
      rw other (omega (arith, rest))
]

pub connections-disconnect :
    (a b : Bytes) (m : List (Bytes × ℕ))
    → connections b (disconnect a m)
      ≡ (if bytes_eq a b then connections a m - 1 else connections b m)
unfolding disconnect
connections-disconnect a b m = elim (Bool-cases (connections a m - 1 == 0)) [
  | inl last ↦
      let z : connections a m - 1 ≡ 0 = ground (arith, last) in
      rw (last, disconnect)
        (connections-erase a b m ∙ ap (λ k. if bytes_eq a b then k else connections b m) (sym z))
  | inr more ↦ rw (more, disconnect) (connections-set a b (connections a m - 1) m)
]

-- The address of a session that ends has one connection fewer.
pub one_fewer :
    (a b : Bytes) (m : List (Bytes × ℕ)) (k : ℕ)
    → connections b m ≡ (if bytes_eq a b then 1 else 0) + k
    → (if bytes_eq a b then connections a m - 1 else connections b m) ≡ k
one_fewer a b m k e = elim (Bool-cases (bytes_eq a b)) [
  | inl same ↦
      let e' = ap (λ t. connections t m) (bytes_eq→eq a b same) in
      let one : connections b m ≡ 1 + k = rw same at e in rw same (omega (arith, e', one))
  | inr other ↦ let none : connections b m ≡ 0 + k = rw other at e in rw other (omega (arith, none))
]

pub one_more :
    (a b : Bytes) (m : List (Bytes × ℕ)) (k : ℕ)
    → connections b m ≡ k
    → (if bytes_eq a b then connections a m + 1 else connections b m)
      ≡ (if bytes_eq a b then 1 else 0) + k
one_more a b m k e = elim (Bool-cases (bytes_eq a b)) [
  | inl same ↦
      let e' = ap (λ t. connections t m) (bytes_eq→eq a b same) in rw same (omega (arith, e', e))
  | inr other ↦ rw other (omega (arith, e))
]

pub own_address :
    (peer : ℕ → Bytes) (session : ℕ) (addr : Bytes) → with_address peer session addr session ≡ addr
own_address peer session addr = rw (==_refl session)

pub peak_above : (peak n : ℕ) → n ≤ (if ltb peak n then n else peak)
peak_above peak n = ground arith

pub peak_max : (peak n : ℕ) → (if ltb peak n then n else peak) ≡ max peak n
peak_max peak n = ground arith

pub same_if :
    (a b : Bytes) (m : List (Bytes × ℕ))
    → (if bytes_eq a b then connections a m else connections b m) ≡ connections b m
same_if a b m = elim (Bool-cases (bytes_eq a b)) [
  | inl same ↦ rw same (ap (λ t. connections t m) (bytes_eq→eq a b same))
  | inr other ↦ rw other refl
]

pub still_limited :
    (b : Bool) (x y limit : ℕ) → x ≤ limit → y ≤ limit → (if b then x - 1 else y) ≤ limit
still_limited true x y limit h g = omega arith
still_limited false x y limit h g = g

pub still_small : (b : Bool) (x y limit : ℕ) → x ≤ limit → y ≤ limit → (if b then x else y) ≤ limit
still_small true x y limit h g = h
still_small false x y limit h g = g

pub length-erase_session :
    (session : ℕ) (xs : List ℕ) → length (erase_session session xs) ≤ length xs
unfolding erase_session
length-erase_session session [] = omega arith
length-erase_session session (x ∷ xs) =
    let rest = length-erase_session session xs in ground (arith, rest)
