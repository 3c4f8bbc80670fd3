-- ===== src/Scanner/Append.antt =====
-- Bytes that arrive in two pieces are scanned as if they had arrived in one.
use dracon.Prelude.{
  ℕ, zero, suc, ◌+◌, ◌-◌, ◌≤◌, ◌<◌, ◌≡◌, ◌⊎◌, inl, inr, refl, ap, ◌∙◌, arith, Bytes, Bool, true,
  false, [], ◌∷◌, ◌++◌, length, drop, length-drop, length-append, drop-append, drop-drop, drop_past,
  Result, ok, fail, thrown, out_of_fuel, ◌>>=◌,
}
use dracon.Scanner.Defs.{Turn, again, stop, next_turn, scan}
use dracon.Scanner.Fuel.{IsScanner, scan_fuel}

module _ {S : Type 0} where
  -- The turn `t`, taken by one that had consumed `n` bytes before.
  abbrev pub after : ℕ → Turn S → Turn S
  after n (again s k) = again s (n + k)
  after n (stop s k) = stop s (n + k)

  abbrev pub after_result : ℕ → Result (Turn S) → Result (Turn S)
  after_result n m = m >>= λ t. ok (after n t)

  abbrev pub moved : ℕ → Result (S × ℕ) → Result (S × ℕ)
  moved k m = m >>= λ (s, n). ok (s, k + n)

-- A turn that goes round on a prefix does so on the whole, or else it took the whole prefix and
-- the turn on the whole is the turn on the rest from there. One that stops before the end of the
-- message consumes nothing and changes nothing.
pub record IsResumable {S : Type 0} (step : S → Bytes → Result (Turn S)) (Inv : S → Type 0)
    (finished : S → Bool) : Type 0 where
  pub more_again :
      (s : S) (r1 r2 : Bytes) (s' : S) (n : ℕ)
      → Inv s
      → step s r1 ≡ ok (again s' n)
      → (step s (r1 ++ r2) ≡ ok (again s' n))
        ⊎ ((n ≡ length r1) × (step s (r1 ++ r2) ≡ after_result n (step s' r2)))
  pub more_stop :
      (s : S) (r1 : Bytes) (s' : S) (n : ℕ)
      → Inv s
      → step s r1 ≡ ok (stop s' n)
      → finished s' ≡ false
      → (n ≡ 0) × (s' ≡ s)
  pub final :
      (s : S) (r1 r2 : Bytes) (s' : S) (n : ℕ)
      → Inv s
      → step s r1 ≡ ok (stop s' n)
      → finished s' ≡ true
      → step s (r1 ++ r2) ≡ ok (stop s' n)

minus_self : (n : ℕ) → n - n ≡ 0
minus_self n = omega arith

minus_zero : (n : ℕ) → n - 0 ≡ n
minus_zero n = omega arith

pub drop_all : (n : ℕ) (xs : Bytes) → n ≡ length xs → drop n xs ≡ []
drop_all zero [] e = refl
drop_all zero (x ∷ xs) e = absurd (omega arith)
drop_all (suc n) [] e = refl
drop_all (suc n) (x ∷ xs) e = drop_all n xs (omega arith)

module _ {S : Type 0} (step : S → Bytes → Result (Turn S)) where
  moved_turn :
      (m : Result (Turn S)) (k k' : S → ℕ → Bytes → Result (S × ℕ)) (a b : ℕ) (rest rest' : Bytes)
      → ((s : S) (n : ℕ)
          → m ≡ ok (again s n)
          → k s (a + b + n) (drop n rest) ≡ moved a (k' s (b + n) (drop n rest)))
      → (m >>= next_turn k (a + b) rest) ≡ moved a (m >>= next_turn k' b rest)
  moved_turn (ok (again s n)) k k' a b rest rest' h = h s n refl
  moved_turn (ok (stop s n)) k k' a b rest rest' h = ap (λ t. ok (s, t)) (omega arith)
  moved_turn (fail s r) k k' a b rest rest' h = refl
  moved_turn (thrown w) k k' a b rest rest' h = refl
  moved_turn out_of_fuel k k' a b rest rest' h = refl

  -- The position is a counter only.
  pub scan-moved :
      (f : ℕ) (s : S) (a b : ℕ) (rest : Bytes)
      → scan step f s (a + b) rest ≡ moved a (scan step f s b rest)
  unfolding scan
  scan-moved zero s a b rest = refl
  scan-moved (suc f) s a b rest =
      moved_turn (step s rest) (scan step f) (scan step f) a b rest rest λ s' n e.
        ap (λ t. scan step f s' t (drop n rest)) (omega arith)
        ∙ scan-moved f s' a (b + n) (drop n rest)

  -- A turn that comes after `n` bytes of a prefix, seen from the whole.
  after_turn :
      (m : Result (Turn S)) (k : S → ℕ → Bytes → Result (S × ℕ)) (pos : ℕ) (r1 r2 : Bytes)
      → (after_result (length r1) m >>= next_turn k pos (r1 ++ r2))
        ≡ (m >>= next_turn k (pos + length r1) r2)
  after_turn (ok (again s n)) k pos r1 r2 =
      rw (drop_past r1 r2 n) (ap (λ t. k s t (drop n r2)) (omega arith))
  after_turn (ok (stop s n)) k pos r1 r2 = ap (λ t. ok (s, t)) (omega arith)
  after_turn (fail s r) k pos r1 r2 = refl
  after_turn (thrown w) k pos r1 r2 = refl
  after_turn out_of_fuel k pos r1 r2 = refl

  module _ (Inv : S → Type 0) (Post : S → ℕ → Type 0) (finished : S → Bool)
      (sc : IsScanner step Inv Post) (re : IsResumable step Inv finished) where
    -- What the first call returned, and that a call on both pieces goes on from there.
    abbrev Resumes : ℕ → S → ℕ → Bytes → Bytes → Result (S × ℕ) → Type 0
    Resumes g s pos r1 r2 (ok (s1, pos1)) =
        finished s1 ≡ false
        → (pos ≤ pos1)
          × (scan step g s pos (r1 ++ r2) ≡ scan step g s1 pos1 (drop (pos1 - pos) r1 ++ r2))
    Resumes g s pos r1 r2 _ = Unit

    one_turn :
        (g : ℕ) (s : S) (pos : ℕ) (r1 r2 : Bytes) (s' : S) (n : ℕ)
        → Inv s
        → length (r1 ++ r2) < g
        → step s r1 ≡ ok (again s' n)
        → scan step g s pos (r1 ++ r2) ≡ scan step g s' (pos + n) (drop n r1 ++ r2)
    unfolding scan
    one_turn zero s pos r1 r2 s' n inv h e = absurd (omega arith)
    one_turn (suc g) s pos r1 r2 s' n inv h e =
        let p = sc.progress s r1 s' n inv e in
        let room : length (drop n r1 ++ r2) < g =
          omega (
            arith,
            p.0,
            p.1,
            length-append (drop n r1) r2,
            length-append r1 r2,
            length-drop n r1,
          ) in
        let more : scan step g s' (pos + n) (drop n r1 ++ r2)
            ≡ scan step (suc g) s' (pos + n) (drop n r1 ++ r2) =
          scan_fuel step Inv Post sc g (suc g) s' (pos + n) (drop n r1 ++ r2) p.2 room
            (omega arith) in
        elim (re.more_again s r1 r2 s' n inv e) [
          | inl e' ↦ rw e' (rw (drop-append n r1 r2 p.1) more)
          | inr (all, e') ↦
              rw (e', drop_all n r1 all, all) (after_turn (step s' r2) (scan step g) pos r1 r2)
        ]

    -- What the first call returned is what a call on both pieces returns, if it was the last.
    abbrev Ends : ℕ → S → ℕ → Bytes → Bytes → Result (S × ℕ) → Type 0
    Ends g s pos r1 r2 (ok (s1, pos1)) =
        finished s1 ≡ true → scan step g s pos (r1 ++ r2) ≡ ok (s1, pos1)
    Ends g s pos r1 r2 _ = Unit

    Ends-later :
        (g : ℕ) (s : S) (pos : ℕ) (r1 r2 : Bytes) (s' : S) (n : ℕ) (m : Result (S × ℕ))
        → scan step g s pos (r1 ++ r2) ≡ scan step g s' (pos + n) (drop n r1 ++ r2)
        → Ends g s' (pos + n) (drop n r1) r2 m
        → Ends g s pos r1 r2 m
    Ends-later g s pos r1 r2 s' n (ok (s1, pos1)) e h = λ f. e ∙ h f
    Ends-later g s pos r1 r2 s' n _ e h = tt

    Ends-turn :
        (g : ℕ) (s : S) (pos : ℕ) (r1 r2 : Bytes) (m : Result (Turn S))
        (k : S → ℕ → Bytes → Result (S × ℕ))
        → step s r1 ≡ m
        → Inv s
        → length (r1 ++ r2) < g
        → ((s' : S) (n : ℕ)
            → m ≡ ok (again s' n)
            → Ends g s' (pos + n) (drop n r1) r2 (k s' (pos + n) (drop n r1)))
        → Ends g s pos r1 r2 (m >>= next_turn k pos r1)
    unfolding scan
    Ends-turn g s pos r1 r2 (ok (again s' n)) k e inv h ih =
        Ends-later g s pos r1 r2 s' n (k s' (pos + n) (drop n r1))
          (one_turn g s pos r1 r2 s' n inv h e) (ih s' n refl)
    Ends-turn zero s pos r1 r2 (ok (stop s' n)) k e inv h ih = absurd (omega arith)
    Ends-turn (suc g) s pos r1 r2 (ok (stop s' n)) k e inv h ih =
        λ f. rw (re.final s r1 r2 s' n inv e f)
    Ends-turn g s pos r1 r2 (fail _ _) k e inv h ih = tt
    Ends-turn g s pos r1 r2 (thrown _) k e inv h ih = tt
    Ends-turn g s pos r1 r2 out_of_fuel k e inv h ih = tt

    scan-Ends :
        (f g : ℕ) (s : S) (pos : ℕ) (r1 r2 : Bytes)
        → Inv s
        → length (r1 ++ r2) < g
        → Ends g s pos r1 r2 (scan step f s pos r1)
    unfolding scan
    scan-Ends zero g s pos r1 r2 inv h = tt
    scan-Ends (suc f) g s pos r1 r2 inv h =
        Ends-turn g s pos r1 r2 (step s r1) (scan step f) refl inv h λ s' n e.
          let p = sc.progress s r1 s' n inv e in
          scan-Ends f g s' (pos + n) (drop n r1) r2 p.2
            (omega (arith, length-append (drop n r1) r2, length-append r1 r2, length-drop n r1))

    -- Bytes behind the end of the message change nothing.
    pub scan-final :
        (f g : ℕ) (s s1 : S) (n1 : ℕ) (r1 r2 : Bytes)
        → Inv s
        → length (r1 ++ r2) < g
        → scan step f s 0 r1 ≡ ok (s1, n1)
        → finished s1 ≡ true
        → scan step g s 0 (r1 ++ r2) ≡ ok (s1, n1)
    scan-final f g s s1 n1 r1 r2 inv h e fin =
        let whole : Ends g s 0 r1 r2 (ok (s1, n1)) = rw e at (scan-Ends f g s 0 r1 r2 inv h) in
        whole fin

    Resumes-later :
        (g : ℕ) (s : S) (pos : ℕ) (r1 r2 : Bytes) (s' : S) (n : ℕ) (m : Result (S × ℕ))
        → scan step g s pos (r1 ++ r2) ≡ scan step g s' (pos + n) (drop n r1 ++ r2)
        → Resumes g s' (pos + n) (drop n r1) r2 m
        → Resumes g s pos r1 r2 m
    Resumes-later g s pos r1 r2 s' n (ok (s1, pos1)) e h = λ nf.
        let (le, eq) = h nf in
        let k : n + (pos1 - (pos + n)) ≡ pos1 - pos = omega (arith, le) in
        (
          omega (arith, le),
          e
              ∙ eq
              ∙ ap (λ d. scan step g s1 pos1 (d ++ r2))
                  (drop-drop (pos1 - (pos + n)) n r1 ∙ ap (λ t. drop t r1) k),
        )
    Resumes-later g s pos r1 r2 s' n _ e h = tt

    Resumes-turn :
        (g : ℕ) (s : S) (pos : ℕ) (r1 r2 : Bytes) (m : Result (Turn S))
        (k : S → ℕ → Bytes → Result (S × ℕ))
        → step s r1 ≡ m
        → Inv s
        → length (r1 ++ r2) < g
        → ((s' : S) (n : ℕ)
            → m ≡ ok (again s' n)
            → Resumes g s' (pos + n) (drop n r1) r2 (k s' (pos + n) (drop n r1)))
        → Resumes g s pos r1 r2 (m >>= next_turn k pos r1)
    Resumes-turn g s pos r1 r2 (ok (again s' n)) k e inv h ih =
        Resumes-later g s pos r1 r2 s' n (k s' (pos + n) (drop n r1))
          (one_turn g s pos r1 r2 s' n inv h e) (ih s' n refl)
    Resumes-turn g s pos r1 r2 (ok (stop s' n)) k e inv h ih = λ nf.
        let (n0, same) = re.more_stop s r1 s' n inv e nf in
        let a : pos + n ≡ pos = omega (arith, n0) in (omega arith, rw (a, same, minus_self pos))
    Resumes-turn g s pos r1 r2 (fail _ _) k e inv h ih = tt
    Resumes-turn g s pos r1 r2 (thrown _) k e inv h ih = tt
    Resumes-turn g s pos r1 r2 out_of_fuel k e inv h ih = tt

    scan-Resumes :
        (f g : ℕ) (s : S) (pos : ℕ) (r1 r2 : Bytes)
        → Inv s
        → length (r1 ++ r2) < g
        → Resumes g s pos r1 r2 (scan step f s pos r1)
    unfolding scan
    scan-Resumes zero g s pos r1 r2 inv h = tt
    scan-Resumes (suc f) g s pos r1 r2 inv h =
        Resumes-turn g s pos r1 r2 (step s r1) (scan step f) refl inv h λ s' n e.
          let p = sc.progress s r1 s' n inv e in
          scan-Resumes f g s' (pos + n) (drop n r1) r2 p.2
            (omega (arith, length-append (drop n r1) r2, length-append r1 r2, length-drop n r1))

    -- Scanning both pieces at once gives what scanning the first and then, behind what it left
    -- unread, the second gives; the bytes consumed add up.
    pub scan-append :
        (f g k : ℕ) (s s1 : S) (n1 : ℕ) (r1 r2 : Bytes)
        → Inv s
        → Inv s1
        → length (r1 ++ r2) < g
        → length (drop n1 r1 ++ r2) < k
        → scan step f s 0 r1 ≡ ok (s1, n1)
        → finished s1 ≡ false
        → scan step g s 0 (r1 ++ r2) ≡ moved n1 (scan step k s1 0 (drop n1 r1 ++ r2))
    scan-append f g k s s1 n1 r1 r2 inv inv1 h hk e nf =
        let whole : Resumes g s 0 r1 r2 (ok (s1, n1)) =
          rw e at (scan-Resumes f g s 0 r1 r2 inv h) in
        let less : length (drop n1 r1 ++ r2) < g =
          omega (arith, length-append (drop n1 r1) r2, length-append r1 r2, length-drop n1 r1) in
        let at_zero : n1 ≡ n1 + 0 = omega arith in
        (whole nf).1
        ∙ ap (λ t. scan step g s1 n1 (drop t r1 ++ r2)) (minus_zero n1)
        ∙ scan_fuel step Inv Post sc g k s1 n1 (drop n1 r1 ++ r2) inv1 less hk
        ∙ ap (λ t. scan step k s1 t (drop n1 r1 ++ r2)) at_zero
        ∙ scan-moved k s1 n1 0 (drop n1 r1 ++ r2)
