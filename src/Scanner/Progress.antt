-- ===== src/Scanner/Progress.antt =====
-- A loop whose last turn takes a byte.
use dracon.Prelude.{
  ℕ, zero, suc, ◌+◌, ◌<◌, ◌≡◌, arith, Bytes, Bool, true, drop, Result, ok, Result-cases, inl, inr,
  >>=-not-ok,
}
use dracon.Scanner.Defs.{Turn, again, stop, scan}
use dracon.Scanner.Fuel.{IsScanner}

module _ {S : Type 0} (step : S → Bytes → Result (Turn S)) (Inv : S → Type 0)
    (Post : S → ℕ → Type 0) (finished : S → Bool) (sc : IsScanner step Inv Post)
    (last : (s : S) (rest : Bytes) (s' : S) (n : ℕ)
      → Inv s
      → step s rest ≡ ok (stop s' n)
      → finished s' ≡ true
      → 0 < n) where
  pub scan_consumes :
      (f : ℕ) (s : S) (pos : ℕ) (rest : Bytes) (s1 : S) (n1 : ℕ)
      → Inv s
      → scan step f s pos rest ≡ ok (s1, n1)
      → finished s1 ≡ true
      → pos < n1
  unfolding scan
  scan_consumes zero s pos rest s1 n1 inv e fin = cc
  scan_consumes (suc f) s pos rest s1 n1 inv e fin = elim (Result-cases (step s rest)) [
    | inl (again s' n, e') ↦
        let p = sc.progress s rest s' n inv e' in
        let later : pos + n < n1 =
          scan_consumes f s' (pos + n) (drop n rest) s1 n1 p.2 (rw e' at e) fin in
        omega (arith, later)
    | inl (stop s' n, e') ↦
        let e'' : ok (s', pos + n) ≡ ok (s1, n1) = rw e' at e in
        let f' : finished s' ≡ true = ground (arith, e'', fin) in
        let some = last s rest s' n inv e' f' in ground (arith, e'', some)
    | inr none ↦ absurd (>>=-not-ok (step s rest) _ none e)
  ]
