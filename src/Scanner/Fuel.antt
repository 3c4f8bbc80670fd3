-- ===== src/Scanner/Fuel.antt =====
-- Fuel above the number of unread bytes is enough, and how much more does not matter.
use dracon.Prelude.{
  ℕ, zero, suc, ◌+◌, ◌-◌, ◌≤◌, ◌<◌, ◌≡◌, ◌≢◌, refl, subst, arith, Bytes, length, drop, length-drop,
  Result, ok, fail, thrown, out_of_fuel, ◌>>=◌,
}
use dracon.Scanner.Defs.{Turn, again, stop, next_turn, scan}

-- A turn that goes round again consumes a byte at least, and no turn consumes what is not there.
-- `Post` speaks of the state at the end, and of how many bytes are left unread.
pub record IsScanner {S : Type 0} (step : S → Bytes → Result (Turn S)) (Inv : S → Type 0)
    (Post : S → ℕ → Type 0) : Type 0 where
  pub progress :
      (s : S) (rest : Bytes) (s' : S) (n : ℕ)
      → Inv s
      → step s rest ≡ ok (again s' n)
      → (0 < n) × (n ≤ length rest) × Inv s'
  pub ends :
      (s : S) (rest : Bytes) (s' : S) (n : ℕ)
      → Inv s
      → step s rest ≡ ok (stop s' n)
      → (n ≤ length rest) × Post s' (length rest - n)
  pub defined : (s : S) (rest : Bytes) → step s rest ≢ out_of_fuel

module _ {S : Type 0} where
  pub bind_turn :
      (m : Result (Turn S)) (k k' : S → ℕ → Bytes → Result (S × ℕ)) (pos : ℕ) (rest : Bytes)
      → ((s : S) (n : ℕ)
          → m ≡ ok (again s n)
          → k s (pos + n) (drop n rest) ≡ k' s (pos + n) (drop n rest))
      → (m >>= next_turn k pos rest) ≡ (m >>= next_turn k' pos rest)
  bind_turn (ok (again s n)) k k' pos rest h = h s n refl
  bind_turn (ok (stop s n)) k k' pos rest h = refl
  bind_turn (fail s r) k k' pos rest h = refl
  bind_turn (thrown w) k k' pos rest h = refl
  bind_turn out_of_fuel k k' pos rest h = refl

module _ {S : Type 0} (step : S → Bytes → Result (Turn S)) (Inv : S → Type 0)
    (Post : S → ℕ → Type 0) (sc : IsScanner step Inv Post) where
  pub scan_fuel :
      (f g : ℕ) (s : S) (pos : ℕ) (rest : Bytes)
      → Inv s
      → length rest < f
      → length rest < g
      → scan step f s pos rest ≡ scan step g s pos rest
  unfolding scan
  scan_fuel zero g s pos rest inv h k = absurd (omega arith)
  scan_fuel (suc f) zero s pos rest inv h k = absurd (omega arith)
  scan_fuel (suc f) (suc g) s pos rest inv h k =
      bind_turn (step s rest) (scan step f) (scan step g) pos rest λ s' n e.
        let p = sc.progress s rest s' n inv e in
        scan_fuel f g s' (pos + n) (drop n rest) p.2 (omega (arith, p.0, p.1, length-drop n rest))
          (omega (arith, p.0, p.1, length-drop n rest))

  -- A round that goes round again, taken off the front with the fuel unchanged.
  pub scan_again :
      (g : ℕ) (s : S) (pos : ℕ) (rest : Bytes) (s' : S) (n : ℕ)
      → Inv s
      → length rest < g
      → step s rest ≡ ok (again s' n)
      → scan step g s pos rest ≡ scan step g s' (pos + n) (drop n rest)
  unfolding scan
  scan_again zero s pos rest s' n inv h e = absurd (omega arith)
  scan_again (suc g) s pos rest s' n inv h e =
      let p = sc.progress s rest s' n inv e in
      let less : length (drop n rest) < g = omega (arith, p.0, p.1, length-drop n rest) in
      rw e (scan_fuel g (suc g) s' (pos + n) (drop n rest) p.2 less (omega (arith, less)))

  -- A round that stops.
  pub scan_stop :
      (g : ℕ) (s : S) (pos : ℕ) (rest : Bytes) (s' : S) (n : ℕ)
      → 0 < g
      → step s rest ≡ ok (stop s' n)
      → scan step g s pos rest ≡ ok (s', pos + n)
  unfolding scan
  scan_stop zero s pos rest s' n h e = absurd (omega arith)
  scan_stop (suc g) s pos rest s' n h e = rw e

  -- The loop ends by itself, between `lo` and `hi`, the end of the bytes that it was given.
  abbrev pub EndsWithin : ℕ → ℕ → Result (S × ℕ) → Type 0
  EndsWithin lo hi (ok (s, pos)) = (lo ≤ pos) × (pos ≤ hi) × Post s (hi - pos)
  EndsWithin lo hi (fail _ _) = Unit
  EndsWithin lo hi (thrown _) = Unit
  EndsWithin lo hi out_of_fuel = ⊥

  EndsWithin-mono :
      (lo lo' hi hi' : ℕ) (m : Result (S × ℕ))
      → lo ≤ lo'
      → hi' ≡ hi
      → EndsWithin lo' hi' m
      → EndsWithin lo hi m
  EndsWithin-mono lo lo' hi hi' (ok (s, pos)) a b h = rw (← b) (omega arith, h.1, h.2)
  EndsWithin-mono lo lo' hi hi' (fail _ _) a b h = tt
  EndsWithin-mono lo lo' hi hi' (thrown _) a b h = tt
  EndsWithin-mono lo lo' hi hi' out_of_fuel a b h = h

  EndsWithin-bind :
      (m : Result (Turn S)) (k : S → ℕ → Bytes → Result (S × ℕ)) (pos : ℕ) (rest : Bytes)
      → m ≢ out_of_fuel
      → ((s : S) (n : ℕ)
          → m ≡ ok (again s n)
          → EndsWithin pos (pos + length rest) (k s (pos + n) (drop n rest)))
      → ((s : S) (n : ℕ) → m ≡ ok (stop s n) → (n ≤ length rest) × Post s (length rest - n))
      → EndsWithin pos (pos + length rest) (m >>= next_turn k pos rest)
  EndsWithin-bind (ok (again s n)) k pos rest d a b = a s n refl
  EndsWithin-bind (ok (stop s n)) k pos rest d a b =
      let (le, post) = b s n refl in
      let same : length rest - n ≡ pos + length rest - (pos + n) = omega arith in
      (omega arith, omega (arith, le), subst (Post s) same post)
  EndsWithin-bind (fail s r) k pos rest d a b = tt
  EndsWithin-bind (thrown w) k pos rest d a b = tt
  EndsWithin-bind out_of_fuel k pos rest d a b = d refl

  pub scan-EndsWithin :
      (f : ℕ) (s : S) (pos : ℕ) (rest : Bytes)
      → Inv s
      → length rest < f
      → EndsWithin pos (pos + length rest) (scan step f s pos rest)
  unfolding scan
  scan-EndsWithin zero s pos rest inv h = absurd (omega arith)
  scan-EndsWithin (suc f) s pos rest inv h =
      EndsWithin-bind (step s rest) (scan step f) pos rest (sc.defined s rest)
        (λ s' n e.
          let p = sc.progress s rest s' n inv e in
          EndsWithin-mono pos (pos + n) (pos + length rest) (pos + n + length (drop n rest)) _
            (omega arith) (omega (arith, p.1, length-drop n rest))
            (scan-EndsWithin f s' (pos + n) (drop n rest) p.2
              (omega (arith, p.0, p.1, length-drop n rest))))
        (λ s' n e. sc.ends s rest s' n inv e)
