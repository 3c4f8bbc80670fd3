-- ===== src/HttpSession/Reading.antt =====
-- `read_headers`, where the bytes of a head arrive in pieces.
use dracon.HttpParser.Head.Loop.{finished, head_turn-IsScanner, head_turn-stop}
use dracon.HttpParser.Head.Bounds.{HeadInv, HeadPost}
use dracon.Scanner.Progress.{scan_consumes}
use dracon.Prelude.{
  ℕ, ◌≡◌, ◌∙◌, sym, Bytes, ◌++◌, length, List, Result, ok, fail, thrown, out_of_fuel, ◌⊎◌, inl, inr,
  refl, true, arith, not_both, ◌<◌, suc, ◌≤◌,
}
use dracon.Http.Request.{fresh_request, head_parsed, is_uninitialized, Request}
use dracon.HttpParser.State.{State, initial, begin_request, HttpRequestParser}
use dracon.HttpParser.Head.{parse_head, is_done, restart, head_turn}
use dracon.HttpParser.Incremental.{
  Ready, Parsed, Returns, parse_head-Parsed, parse_head-append, parse_head-final, restart-HeadInv,
  head_from_going,
}
use dracon.HttpSession.{Event, HttpSession, read_headers}
use dracon.HttpSession.Feeding.{IsIncremental, arrived, AreCalm, AsOneCall}
use dracon.HttpSession.Feeding.Rounds.{read_loop-AsOneCall}

pub agreed :
    (size n : ℕ) (s : State) → Parsed size s n → head_parsed s.1.m_state ≡ is_done s.0.m_head
agreed size n s p = p.ready.agrees p.begun

pub Returns-map :
    {P Q : State × ℕ → Type 0} (m : Result (State × ℕ))
    → ((r : State × ℕ) → P r → Q r)
    → Returns P m
    → Returns Q m
Returns-map (ok r) f h = f r h
Returns-map (fail _ _) f h = tt
Returns-map (thrown _) f h = tt
Returns-map out_of_fuel f h = h

pub after :
    (input : Bytes) (s s1 : State) (n : ℕ)
    → Ready s
    → parse_head input s ≡ ok (s1, n)
    → Parsed (length input) s1 n
after input s s1 n r e = unfold parse_head in rw e at (parse_head-Parsed input s r)

parse_head-IsIncremental : IsIncremental parse_head head_parsed Ready
parse_head-IsIncremental = record {
  returns = λ input s r.
      Returns-map (parse_head input s) (λ q p. (p.within, λ _. p.ready))
        (parse_head-Parsed input s r);
  goes_on = λ input more s s1 n r e nf.
      parse_head-append input more s s1 n r e
        (sym (agreed (length input) n s1 (after input s s1 n r e)) ∙ nf);
  ended = λ input more s s1 n r e fin.
      parse_head-final input more s s1 n r e
        (sym (agreed (length input) n s1 (after input s s1 n r e)) ∙ fin);
}

-- A call that begins a request, or one that goes on.
abbrev pub Begins : State → Type 0
Begins s = Ready s ⊎ (is_uninitialized s.1.m_state ≡ true)

pub initial-Ready : (req : Request) → is_uninitialized req.m_state ≡ true → Ready (initial, req)
initial-Ready req e = record {
  few = omega arith;
  short = omega arith;
  small = omega arith;
  agrees = λ x. absurd (not_both (sym e ∙ x));
}

-- A request that begins restarts the parser, whatever was left in it.
pub parse_head_fresh :
    (input : Bytes) (s : State)
    → is_uninitialized s.1.m_state ≡ true
    → parse_head input s ≡ parse_head input (initial, s.1)
unfolding parse_head restart begin_request
parse_head_fresh input s e = rw e refl

pub readied :
    (s : State)
    → Begins s
    → (t : State) × Ready t × ((input : Bytes) → parse_head input s ≡ parse_head input t)
readied s (inl r) = (s, r, λ input. refl)
readied s (inr e) = ((initial, s.1), initial-Ready s.1 e, λ input. parse_head_fresh input s e)

Begins-IsIncremental : IsIncremental parse_head head_parsed Begins
Begins-IsIncremental = record {
  returns = λ input s b.
      let (t, r, same) = readied s b in
      rw (same input) (
        Returns-map (parse_head input t) (λ q p. (p.0, λ e. inl (p.1 e)))
          (parse_head-IsIncremental.returns input t r));
  goes_on = λ input more s s1 n b e nf.
      let (t, r, same) = readied s b in
      same (input ++ more)
      ∙ parse_head-IsIncremental.goes_on input more t s1 n r (sym (same input) ∙ e) nf;
  ended = λ input more s s1 n b e fin.
      let (t, r, same) = readied s b in
      same (input ++ more)
      ∙ parse_head-IsIncremental.ended input more t s1 n r (sym (same input) ∙ e) fin;
}

-- A call that completes a new head takes a byte at least, and no more than it is handed.
pub parse_head_consumes :
    (input : Bytes) (p : HttpRequestParser) (s1 : State) (n : ℕ)
    → parse_head input (p, fresh_request) ≡ ok (s1, n)
    → head_parsed s1.1.m_state ≡ true
    → (0 < n) × (n ≤ length input)
unfolding parse_head restart begin_request
parse_head_consumes input p s1 n e fin =
    let ready = initial-Ready fresh_request refl in
    let e' = sym (parse_head_fresh input (p, fresh_request) refl) ∙ e in
    let parsed = after input (initial, fresh_request) s1 n ready e' in
    (
      scan_consumes head_turn HeadInv HeadPost finished head_turn-IsScanner head_turn-stop
          (suc (length input)) (begin_request (initial, fresh_request)) 0 input s1 n
          (restart-HeadInv (initial, fresh_request) ready refl)
          (sym (head_from_going input (begin_request (initial, fresh_request)) refl) ∙ e')
          (sym (agreed (length input) n s1 parsed) ∙ fin),
      parsed.within,
    )

-- read_headers, as long as no call of the system fails: however the bytes of the connection are
-- cut into pieces and whatever waits are in between, it does what one call of parse_head does on
-- what was pending and all that arrives. Where it completes, it returns the request of that call,
-- with the bytes behind the head pending, followed by the ones that have not arrived yet; where it
-- waits, that call leaves the head incomplete; where it throws, a call on what arrived so far
-- throws the same.
pub read_headers-AsOneCall :
    (es : List Event) (se : HttpSession)
    → AreCalm es
    → AsOneCall parse_head head_parsed
        (se.m_pending ++ arrived es)
        (se.m_parser, fresh_request)
        (read_headers es se)
unfolding read_headers
read_headers-AsOneCall es se calm =
    read_loop-AsOneCall parse_head head_parsed Begins Begins-IsIncremental es se fresh_request
      (inr refl) calm
