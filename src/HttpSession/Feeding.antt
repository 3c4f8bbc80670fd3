-- ===== src/HttpSession/Feeding.antt =====
-- The loop of `read_headers` and `read` against one call of the parser, for any parser that may be
-- handed its input in pieces.
pub mod Rounds
use dracon.Prelude.{
  ℕ, ◌+◌, ◌-◌, ◌≤◌, ◌≡◌, ◌≢◌, ◌∙◌, ◌⊎◌, inl, inr, refl, sym, ap, arith, Bool, true, false, List, [],
  ◌∷◌, ◌++◌, Bytes, is_empty, length, drop, if◌then◌else◌, append-nil, append_assoc, length-append,
  Result, ok, fail, thrown, out_of_fuel, Bool-cases, zero_plus, length-drop, drop-append, drop-drop,
  subst,
}
use dracon.Http.Request.{ParseState, Request}
use dracon.HttpParser.State.{State}
use dracon.HttpParser.Incremental.{Returns}
use dracon.HttpSession.{
  Event, received, read_failed, resumed, resumed_with, Failure, response_error, exception,
  error_code, unfinished, HttpSession, Ended, complete, blocked, threw, Round, go_on, end_with,
  after_round, parsed_round, pending_round, received_round, event_round, read_loop, thrown_response,
  status_error, unknown_error,
}
use dracon.Scanner.Append.{moved}

-- A parser that may be handed its input in pieces: it returns, and a cut does not matter.
pub record IsIncremental (parse : Bytes → State → Result (State × ℕ)) (over : ParseState → Bool)
    (Good : State → Type 0) : Type 0 where
  pub returns :
      (input : Bytes) (s : State)
      → Good s
      → Returns
          (λ r. (r.1 ≤ length input) × (over r.0.1.m_state ≡ false → Good r.0))
          (parse input s)
  pub goes_on :
      (input more : Bytes) (s s1 : State) (n : ℕ)
      → Good s
      → parse input s ≡ ok (s1, n)
      → over s1.1.m_state ≡ false
      → parse (input ++ more) s ≡ moved n (parse (drop n input ++ more) s1)
  pub ended :
      (input more : Bytes) (s s1 : State) (n : ℕ)
      → Good s
      → parse input s ≡ ok (s1, n)
      → over s1.1.m_state ≡ true
      → parse (input ++ more) s ≡ ok (s1, n)

moved-moved : (j k : ℕ) (m : Result (State × ℕ)) → moved j (moved k m) ≡ moved (j + k) m
moved-moved j k (ok (s, n)) = ap (λ t. ok (s, t)) (omega arith)
moved-moved j k (fail _ _) = refl
moved-moved j k (thrown _) = refl
moved-moved j k out_of_fuel = refl

-- The bytes that arrive.
unfoldable pub arrived : List Event → Bytes
arrived [] = []
arrived (received b bs ∷ es) = b ∷ (bs ++ arrived es)
arrived (_ ∷ es) = arrived es

-- No event is an error.
abbrev pub AreCalm : List Event → Type 0
AreCalm [] = Unit
AreCalm (received b bs ∷ es) = AreCalm es
AreCalm (resumed ∷ es) = AreCalm es
AreCalm (_ ∷ es) = ⊥

module _ (parse : Bytes → State → Result (State × ℕ)) (over : ParseState → Bool) where
  -- How a loop that starts in `s` ends, against one call of the parser on `all` the bytes.
  abbrev pub AsOneCall : Bytes → State → Ended → Type 0
  AsOneCall all s (complete se req rest) =
      (n : ℕ) × (parse all s ≡ ok ((se.m_parser, req), n))
      × (over req.m_state ≡ true)
      × (se.m_pending ++ arrived rest ≡ drop n all)
  AsOneCall all s (blocked se req) =
      (all ≡ [] × ((se.m_parser, req) ≡ s) × (se.m_pending ≡ []))
      ⊎ ((n : ℕ) × (parse all s ≡ ok ((se.m_parser, req), n))
          × (over req.m_state ≡ false)
          × (se.m_pending ≡ drop n all))
  AsOneCall all s (threw (response_error status reason) se) =
      (before : Bytes) × (after : Bytes) × (all ≡ before ++ after)
      × (parse before s ≡ fail status reason)
  AsOneCall all s (threw (exception what) se) =
      (before : Bytes) × (after : Bytes) × (all ≡ before ++ after) × (parse before s ≡ thrown what)
  AsOneCall all s (threw (thrown_response res) se) = ⊥
  AsOneCall all s (threw (status_error status) se) = ⊥
  AsOneCall all s (threw unknown_error se) = ⊥
  AsOneCall all s (threw (error_code ec) se) = ⊥
  AsOneCall all s (threw unfinished se) = ⊥

  module _ (Good : State → Type 0) (inc : IsIncremental parse over Good) where
    -- In a loop that began in `s0`, `before` has arrived: the parser has taken a part of it that
    -- brought it to `s`, and the rest of it is pending.
    pub record Fed (s0 : State) (before : Bytes) (s : State) (pending : Bytes) : Type 0 where
      pub taken : ℕ
      pub within : taken ≤ length before
      pub left : drop taken before ≡ pending
      pub same :
          (more : Bytes) → parse (before ++ more) s0 ≡ moved taken (parse (pending ++ more) s)
      pub good : Good s

    pub Fed-append :
        (s0 s : State) (before pending bytes : Bytes)
        → Fed s0 before s pending
        → Fed s0 (before ++ bytes) s (pending ++ bytes)
    Fed-append s0 s before pending bytes f = record {
      taken = f.taken;
      within = omega (arith, f.within, length-append before bytes);
      left = drop-append f.taken before bytes f.within ∙ ap (λ l. l ++ bytes) f.left;
      same = λ more.
          rw (append_assoc before bytes more, append_assoc pending bytes more)
            (f.same (bytes ++ more));
      good = f.good;
    }

    -- A call on what is pending that does not end the loop.
    pub Fed-parse :
        (s0 s s1 : State) (before pending : Bytes) (k : ℕ)
        → Fed s0 before s pending
        → parse pending s ≡ ok (s1, k)
        → over s1.1.m_state ≡ false
        → Fed s0 before s1 (drop k pending)
    Fed-parse s0 s s1 before pending k f e nf =
        let (le, good) = rw e at (inc.returns pending s f.good) in
        let len : length pending ≡ length before - f.taken =
          ap length (sym f.left) ∙ length-drop f.taken before in
        record {
          taken = f.taken + k;
          within = omega (arith, f.within, le, len);
          left = sym (drop-drop k f.taken before) ∙ ap (drop k) f.left;
          same = λ more.
              f.same more
              ∙ ap (moved f.taken) (inc.goes_on pending more s s1 k f.good e nf)
              ∙ moved-moved f.taken k (parse (drop k pending ++ more) s1);
          good = good nf;
        }

    pub Fed-now :
        (s0 s : State) (before pending : Bytes)
        → Fed s0 before s pending
        → (n : ℕ) × (n ≤ length before)
          × (drop n before ≡ pending)
          × (parse before s0 ≡ moved n (parse pending s))
    Fed-now s0 s before pending f =
        (f.taken, f.within, f.left, rw (append-nil before, append-nil pending) at (f.same []))

    pub Fed-complete :
        (s0 : State) (before bytes : Bytes) (es : List Event) (se : HttpSession) (p : State) (k : ℕ)
        → (s : State) → Fed s0 before s bytes
        → parse bytes s ≡ ok (p, k)
        → over p.1.m_state ≡ true
        → AsOneCall
            (before ++ arrived es)
            s0
            (complete (record se { m_parser = p.0; m_pending = drop k bytes }) p.1 es)
    Fed-complete s0 before bytes es se p k s f e fin =
        let (le, _) = rw e at (inc.returns bytes s f.good) in
        let len : length bytes ≡ length before - f.taken =
          ap length (sym f.left) ∙ length-drop f.taken before in
        let within : f.taken + k ≤ length before = omega (arith, f.within, le, len) in
        (
          f.taken + k,
          f.same (arrived es)
              ∙ ap (moved f.taken) (inc.ended bytes (arrived es) s p k f.good e fin),
          fin,
          ap (λ l. l ++ arrived es) (ap (drop k) (sym f.left) ∙ drop-drop k f.taken before)
              ∙ sym (drop-append (f.taken + k) before (arrived es) within),
        )
