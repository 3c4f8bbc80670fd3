-- ===== src/HttpParser/Sized/Append.antt =====
-- A body of a known length that arrives in pieces.
use Prim.Native.String.{String}
use dracon.Prelude.{
  ℕ, ◌+◌, ◌-◌, ◌≤◌, ◌<◌, ◌≡◌, ◌≢◌, ◌∙◌, refl, sym, ap, arith, min, take_all, Bytes, true, false, [],
  ◌∷◌, ◌++◌, length, take, drop, ltb, leb, ◌==◌, append_assoc, length-append, length-take, Result,
  ok, fail, thrown, out_of_fuel, ok_inj, Bool-cases, inl, inr, zero, suc, take-append, subst,
  not_both,
}
use dracon.Http.Request.{is_completed, append_body}
use dracon.HttpParser.State.{State}
use dracon.HttpParser.Body.{deliver, too_large, parse_sized, parse_body}
use dracon.HttpParser.Sized.{
  begun, parse_body-sized, too_large_lem, Sizing, taken, parse_body-taken, parse_body-too_large,
}
use dracon.Scanner.Append.{moved, drop_all}

take-append_more :
    (n : ℕ) (xs ys : Bytes) → length xs ≤ n → take n (xs ++ ys) ≡ xs ++ take (n - length xs) ys
take-append_more n [] ys h = ap (λ k. take k ys) (omega arith)
take-append_more zero (x ∷ xs) ys h = absurd (omega arith)
take-append_more (suc n) (x ∷ xs) ys h =
    ap (λ l. x ∷ l)
      (take-append_more n xs ys (omega arith) ∙ ap (λ k. xs ++ take k ys) (omega arith))

-- Less than all of the body was taken.
module _ (s : State) (part : Bytes) (z : Sizing s) (short : length part < s.0.m_remaining)
    (allowed : s.1.m_max_body_size ≢ 0 → s.0.m_content_length ≤ s.1.m_max_body_size) where
  left_over : (s.0.m_remaining - length part == 0) ≡ false
  left_over = ground arith

  taken-Sizing : Sizing (taken part s)
  taken-Sizing = record {
    framed = z.framed;
    adds_up = omega (arith, z.adds_up, short);
    fits = z.fits;
    limit_fits = z.limit_fits;
    kept = λ nz. omega (arith, allowed nz, z.adds_up, short);
    expects = omega (arith, short);
    open_yet = rw left_over refl;
  }

  taken-taken : (more : Bytes) → taken more (taken part s) ≡ taken (part ++ more) s
  taken-taken more =
      let len = length-append part more in
      let left : s.0.m_remaining - length part - length more
          ≡ s.0.m_remaining - length (part ++ more) =
        omega (arith, len) in
      let got : s.0.m_received + length part + length more
          ≡ s.0.m_received + length (part ++ more) =
        omega (arith, len) in
      rw (left, got, append_assoc s.1.body part more) refl

  -- The two pieces, for a session with a callback.
  two_pieces :
      (more : Bytes)
      → s.1.has_callback ≡ true
      → parse_body (part ++ more) s ≡ moved (length part) (parse_body more (taken part s))
  two_pieces more callback =
      let rem = s.0.m_remaining in
      let rest = rem - length part in
      let cut : take rem (part ++ more) ≡ part ++ take rest more =
        take-append_more rem part more (omega (arith, short)) in
      let n : min rem (length (part ++ more)) ≡ length part + min rest (length more) =
        omega (arith, length-append part more, short) in
      parse_body-taken (part ++ more) s z callback allowed
      ∙ (rw (cut, n)
          (ap (λ t. ok (t, length part + min rest (length more)))
            (sym (taken-taken (take rest more)))))
      ∙ ap (moved (length part))
          (sym (parse_body-taken more (taken part s) taken-Sizing callback allowed))

begun-Sizing : (s : State) → Sizing s → Sizing (begun s)
unfolding begun
begun-Sizing s z = record {
  framed = z.framed;
  adds_up = z.adds_up;
  fits = z.fits;
  limit_fits = z.limit_fits;
  kept = z.kept;
  expects = z.expects;
  open_yet = refl;
}

parse_body-begun :
    (input : Bytes) (s : State) → Sizing s → parse_body input (begun s) ≡ parse_body input s
unfolding begun
parse_body-begun input s z =
    parse_body-sized input (begun s) (begun-Sizing s z) ∙ sym (parse_body-sized input s z)

not_fail : {A : Type 0} {a : A} {status : ℕ} {reason : String} → ok a ≡ fail status reason → ⊥
not_fail e = cc

-- A call that returns had a body within the limit, and a callback or nothing to hand over.
allowed_of :
    (input : Bytes) (s s1 : State) (n : ℕ)
    → Sizing s
    → parse_body input s ≡ ok (s1, n)
    → s.1.m_max_body_size ≢ 0
    → s.0.m_content_length ≤ s.1.m_max_body_size
allowed_of input s s1 n z e nz = elim (Bool-cases (ltb s.1.m_max_body_size s.0.m_content_length)) [
  | inl over ↦ absurd (not_fail (sym e ∙ parse_body-too_large input s z nz (ground (arith, over))))
  | inr fine ↦ ground (arith, fine)
]

no_callback :
    (x : ℕ) (input : Bytes) (s s1 : State) (n : ℕ)
    → Sizing s
    → s.1.has_callback ≡ false
    → parse_body (x ∷ input) s ≡ ok (s1, n)
    → ⊥
unfolding parse_sized deliver append_body begun
no_callback x input s s1 n z none e =
    let e' : parse_sized (x ∷ input) (begun s) ≡ ok (s1, n) =
      sym (parse_body-sized (x ∷ input) s z) ∙ e in
    let some : (min s.0.m_remaining (length (x ∷ input)) == 0) ≡ false =
      ground (arith, z.expects) in
    ground (arith, e', some, none)

nothing_yet :
    (s : State)
    → Sizing s
    → (s.1.m_max_body_size ≢ 0 → s.0.m_content_length ≤ s.1.m_max_body_size)
    → parse_body [] s ≡ ok (begun s, 0)
unfolding parse_sized begun
nothing_yet s z allowed =
    let fine : too_large (begun s) ≡ false = too_large_lem s z ∙ ground (arith, allowed) in
    let zero_bytes : min s.0.m_remaining 0 ≡ 0 = omega arith in
    let left : s.0.m_remaining - 0 ≡ s.0.m_remaining = omega arith in
    let more : (s.0.m_remaining == 0) ≡ false = ground (arith, z.expects) in
    parse_body-sized [] s z ∙ rw (fine, zero_bytes, left, more) refl

-- A piece of the body, taken in part: what the next call starts from.
pub record Piece (input : Bytes) (s s1 : State) (n : ℕ) : Type 0 where
  pub within : n ≤ length input
  pub resumes : is_completed s1.1.m_state ≡ false → Sizing s1
  pub cut :
      (more : Bytes)
      → is_completed s1.1.m_state ≡ false
      → parse_body (input ++ more) s ≡ moved n (parse_body (drop n input ++ more) s1)
  pub final :
      (more : Bytes) → is_completed s1.1.m_state ≡ true → parse_body (input ++ more) s ≡ ok (s1, n)

moved_zero : {S : Type 0} (m : Result (S × ℕ)) → moved 0 m ≡ m
moved_zero (ok (s, n)) = ap (λ t. ok (s, t)) (omega arith)
moved_zero (fail _ _) = refl
moved_zero (thrown _) = refl
moved_zero out_of_fuel = refl

nothing-Piece :
    (s : State)
    → Sizing s
    → (s.1.m_max_body_size ≢ 0 → s.0.m_content_length ≤ s.1.m_max_body_size)
    → Piece [] s (begun s) 0
unfolding begun
nothing-Piece s z allowed = record {
  within = omega arith;
  resumes = λ _. begun-Sizing s z;
  cut = λ more _. sym (moved_zero (parse_body more (begun s)) ∙ parse_body-begun more s z);
  final = λ more e. cc;
}

module _ (input : Bytes) (s : State) (z : Sizing s) (callback : s.1.has_callback ≡ true)
    (allowed : s.1.m_max_body_size ≢ 0 → s.0.m_content_length ≤ s.1.m_max_body_size) where
  -- The piece leaves something due.
  short-Piece : length input < s.0.m_remaining → Piece input s (taken input s) (length input)
  short-Piece short = record {
    within = omega arith;
    resumes = λ _. taken-Sizing s input z short allowed;
    cut = λ more _.
        rw (drop_all (length input) input (omega arith))
          (two_pieces s input z short allowed more callback);
    final = λ more e. absurd (not_both (sym e ∙ (taken-Sizing s input z short allowed).open_yet));
  }

  last-Piece :
      s.0.m_remaining ≤ length input
      → Piece input s (taken (take s.0.m_remaining input) s) s.0.m_remaining
  last-Piece long =
      let rem = s.0.m_remaining in
      let len : length (take rem input) ≡ rem = length-take rem input ∙ omega (arith, long) in
      let over : (rem - length (take rem input) == 0) ≡ true = ground (arith, len) in
      record {
        within = long;
        resumes = λ e. absurd (not_both (rw over at e));
        cut = λ more e. absurd (not_both (rw over at e));
        final = λ more e.
            let n : min rem (length (input ++ more)) ≡ rem =
              omega (arith, length-append input more, long) in
            parse_body-taken (input ++ more) s z callback allowed
            ∙ rw (n, take-append rem input more long) refl;
      }

called-Piece :
    (input : Bytes) (s s1 : State) (n : ℕ) (z : Sizing s) (callback : s.1.has_callback ≡ true)
    (allowed : s.1.m_max_body_size ≢ 0 → s.0.m_content_length ≤ s.1.m_max_body_size)
    → parse_body input s ≡ ok (s1, n)
    → Piece input s s1 n
called-Piece input s s1 n z callback allowed e =
    let rem = s.0.m_remaining in
    let same : (taken (take rem input) s, min rem (length input)) ≡ (s1, n) =
      ok_inj (sym (parse_body-taken input s z callback allowed) ∙ e) in
    subst (λ r. Piece input s r.0 r.1) same
      (elim (Bool-cases (leb rem (length input))) [
        | inl long ↦
            let k : min rem (length input) ≡ rem = ground (arith, long) in
            rw k (last-Piece input s z callback allowed (ground (arith, long)))
        | inr short ↦
            let lt : length input < rem = ground (arith, short) in
            let k : min rem (length input) ≡ length input = omega (arith, lt) in
            rw (k, take_all rem input (omega (arith, lt)))
              (short-Piece input s z callback allowed lt)
      ])

-- A call that returns, whatever it was handed.
pub parse_body-Piece :
    (input : Bytes) (s s1 : State) (n : ℕ)
    → Sizing s
    → parse_body input s ≡ ok (s1, n)
    → Piece input s s1 n
parse_body-Piece [] s s1 n z e =
    let same : (begun s, 0) ≡ (s1, n) =
      ok_inj (sym (nothing_yet s z (allowed_of [] s s1 n z e)) ∙ e) in
    subst (λ r. Piece [] s r.0 r.1) same (nothing-Piece s z (allowed_of [] s s1 n z e))
parse_body-Piece (x ∷ input) s s1 n z e =
    let allowed = allowed_of (x ∷ input) s s1 n z e in
    elim (Bool-cases s.1.has_callback) [
      | inl callback ↦ called-Piece (x ∷ input) s s1 n z callback allowed e
      | inr none ↦ absurd (no_callback x input s s1 n z none e)
    ]
