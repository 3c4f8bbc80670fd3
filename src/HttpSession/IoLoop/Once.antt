-- ===== src/HttpSession/IoLoop/Once.antt =====
-- A read where bytes are still to come against a read where they are all pending.
use dracon.Prelude.{
  ℕ, ◌^◌, ◌<◌, ◌≡◌, ◌∙◌, ◌⊎◌, inl, inr, refl, sym, arith, Bool, true, false, List, [], ◌++◌, Bytes,
  is_empty, length, drop, Result, ok, Bool-cases, not_both, ◌==◌,
}
use dracon.Http.Request.{
  ParseState, Request, fresh_request, head_parsed, is_completed, append_body_callback,
}
use dracon.HttpParser.State.{
  State, HttpRequestParser, initial, chunked, content_length, begin_request,
}
use dracon.HttpParser.Head.{parse_head, restart}
use dracon.HttpParser.Body.{parse_body, parse_body_of, parse_sized, parse_chunked, chunked_turn}
use dracon.Scanner.Defs.{scan}
use dracon.HttpParser.Framing.{parse_head-Framed, parse_head-Chunking, parse_head-Sizing}
use dracon.HttpSession.{
  Event, HttpSession, Ended, complete, blocked, threw, after_round, parsed_round, read_loop,
  read_headers, read, keep_alive_guard, pending_round,
}
use dracon.HttpSession.Feeding.{arrived, AreCalm, AsOneCall}
use dracon.HttpSession.Feeding.Rounds.{is_empty→nil, read_loop-AsOneCall}
use dracon.HttpSession.Reading.{
  read_headers-AsOneCall, parse_head_consumes, parse_head_fresh, initial-Ready, agreed, after,
}
use dracon.HttpSession.Body.{BodyDue, open_due, parse_body-IsIncremental}
use dracon.HttpSession.IoLoop.Ahead.{ahead, EndAhead, read_loop-EndAhead}

-- All that is to come, pending.
abbrev pub at_once : Bool → HttpSession → List Event → HttpSession
at_once flag se es = record se { m_pending = se.m_pending ++ arrived es; m_can_write_error = flag }

-- The second read has done at once what the first one did.
abbrev pub EndAlike : Ended → Ended → Type 0
EndAlike (complete se req rest) e =
    AreCalm rest × ((flag : Bool) × (e ≡ complete (at_once flag se rest) req []))
EndAlike (blocked se req) e = (se' : HttpSession) × (req' : Request) × (e ≡ blocked se' req')
EndAlike (threw failure se) e = Unit

-- A call on nothing completes nothing.
abbrev NothingCompletes :
    (Bytes → State → Result (State × ℕ)) → (ParseState → Bool) → State → Type 0
NothingCompletes parse over s =
    (s1 : State) (n : ℕ) → parse [] s ≡ ok (s1, n) → over s1.1.m_state ≡ false

module _ (parse : Bytes → State → Result (State × ℕ)) (over : ParseState → Bool) where
  -- A read of what is pending, with nothing to come.
  read_pending :
      (se : HttpSession) (req : Request) (s : State) (n : ℕ)
      → is_empty se.m_pending ≡ false
      → parse se.m_pending (se.m_parser, req) ≡ ok (s, n)
      → read_loop parse over [] se req
        ≡ after_round (parsed_round over [] se se.m_pending (ok (s, n))) blocked
  unfolding read_loop pending_round
  read_pending se req s n some e = rw (some, e) refl

  read_nothing :
      (se : HttpSession) (req : Request)
      → is_empty se.m_pending ≡ true
      → read_loop parse over [] se req ≡ blocked se req
  unfolding read_loop pending_round
  read_nothing se req none = rw none refl

  read_loop-EndAlike :
      (flag : Bool) (es : List Event) (se : HttpSession) (req : Request) (e : Ended)
      → NothingCompletes parse over (se.m_parser, req)
      → EndAhead (ahead se es) se.m_keep_alive e
      → AsOneCall parse over (se.m_pending ++ arrived es) (se.m_parser, req) e
      → EndAlike e (read_loop parse over [] (at_once flag se es) req)
  read_loop-EndAlike flag es se req (complete se1 req1 rest) nothing ((calm, _), keep)
        (n, one, fin, left) =
      let all = se.m_pending ++ arrived es in
      elim (Bool-cases (is_empty all)) [
        | inl none ↦ absurd (
            not_both (sym fin ∙ nothing (se1.m_parser, req1) n (rw (is_empty→nil all none) at one)))
        | inr some ↦ (
          calm,
          (
            flag,
            read_pending (at_once flag se es) req (se1.m_parser, req1) n some one
                ∙ (rw (fin, left, keep) refl),
          ),
        )
      ]
  read_loop-EndAlike flag es se req (blocked se1 req1) nothing h one =
      let se' = at_once flag se es in
      elim (Bool-cases (is_empty se'.m_pending)) [
        | inl none ↦ (se', req, read_nothing se' req none)
        | inr some ↦ elim one [
          | inl (nil, _, _) ↦ absurd (not_both (rw nil at some))
          | inr (n, e, going, left) ↦ (
            record se' { m_parser = se1.m_parser; m_pending = drop n se'.m_pending },
            req1,
            read_pending se' req (se1.m_parser, req1) n some e ∙ (rw going refl),
          )
        ]
      ]
  read_loop-EndAlike flag es se req (threw failure se1) nothing h one = tt

head_NothingCompletes :
    (p : HttpRequestParser) → NothingCompletes parse_head head_parsed (p, fresh_request)
head_NothingCompletes p s1 n e = elim (Bool-cases (head_parsed s1.1.m_state)) [
  | inl over ↦
      let (some, within) = parse_head_consumes [] p s1 n e over in
      absurd (omega (arith, some, within))
  | inr going ↦ going
]

-- `read_headers` of the connection in pieces, and of what is pending.
pub read_headers-EndAlike :
    (flag : Bool) (es : List Event) (se : HttpSession)
    → AreCalm es
    → EndAlike (read_headers es se) (read_headers [] (at_once flag se es))
unfolding read_headers
read_headers-EndAlike flag es se calm =
    read_loop-EndAlike parse_head head_parsed flag es se fresh_request _
      (head_NothingCompletes se.m_parser)
      (read_loop-EndAhead parse_head head_parsed (ahead se es) se.m_keep_alive es se fresh_request
        ((calm, omega arith), refl))
      (unfold read_headers in read_headers-AsOneCall es se calm)

chunked_NothingCompletes :
    (p : HttpRequestParser) (req : Request)
    → p.m_body ≡ chunked
    → is_completed req.m_state ≡ false
    → NothingCompletes parse_body is_completed (p, req)
unfolding parse_body parse_body_of parse_chunked scan chunked_turn
chunked_NothingCompletes p req b o s1 n e = ground arith

sized_NothingCompletes :
    (p : HttpRequestParser) (req : Request)
    → p.m_body ≡ content_length
    → 0 < p.m_remaining
    → is_completed req.m_state ≡ false
    → NothingCompletes parse_body is_completed (p, req)
unfolding parse_body parse_body_of parse_sized
sized_NothingCompletes p req b some o s1 n e = ground arith

body_NothingCompletes : (s : State) → BodyDue s → NothingCompletes parse_body is_completed s
body_NothingCompletes s (inl c) = chunked_NothingCompletes s.0 s.1 c.framed c.open_yet
body_NothingCompletes s (inr z) = sized_NothingCompletes s.0 s.1 z.framed z.expects z.open_yet

guard-EndAlike :
    (e e' : Ended) → EndAlike e e' → EndAlike (keep_alive_guard e) (keep_alive_guard e')
unfolding keep_alive_guard
guard-EndAlike (complete se req es) e' (calm, (flag, same)) = (calm, (flag, rw same refl))
guard-EndAlike (blocked se req) e' (se', req', same) = (se', req', rw same refl)
guard-EndAlike (threw failure se) e' h = tt

-- A request that `read` is called on: complete, or with a body that is due.
abbrev pub Readable : State → Type 0
Readable s = (is_completed s.1.m_state ≡ true) ⊎ BodyDue s

pub read-EndAlike :
    (flag : Bool) (es : List Event) (se : HttpSession) (req : Request)
    → AreCalm es
    → Readable (se.m_parser, req)
    → EndAlike (read es se req) (read [] (at_once flag se es) req)
unfolding read
read-EndAlike flag es se req calm (inl over) = rw over (calm, (flag, refl))
read-EndAlike flag es se req calm (inr due) = rw (open_due (se.m_parser, req) due) (
    let se' = record se { m_can_write_error = true } in
    guard-EndAlike _ _ (
      read_loop-EndAlike parse_body is_completed true es se' req _
        (body_NothingCompletes (se.m_parser, req) due)
        (read_loop-EndAhead parse_body is_completed (ahead se es) se.m_keep_alive es se' req
          ((calm, omega arith), refl))
        (read_loop-AsOneCall parse_body is_completed BodyDue parse_body-IsIncremental es se' req due
          calm)))

-- The body of a new request can be read right behind its head.
pub head_Readable :
    (max_size : ℕ) (input : Bytes) (p : HttpRequestParser) (s1 : State) (n : ℕ)
    → max_size < 2 ^ 64
    → parse_head input (p, fresh_request) ≡ ok (s1, n)
    → head_parsed s1.1.m_state ≡ true
    → Readable (s1.0, append_body_callback max_size s1.1)
unfolding append_body_callback restart begin_request
head_Readable max_size input p s1 n fits e fin =
    let s : State = (initial, fresh_request) in
    let ready = initial-Ready fresh_request refl in
    let e' = sym (parse_head_fresh input (p, fresh_request) refl) ∙ e in
    let over = sym (agreed (length input) n s1 (after input s s1 n ready e')) ∙ fin in
    elim (Bool-cases s1.0.m_chunked) [
      | inl c ↦ inr (inl (parse_head-Chunking input s s1 n ready e' refl over max_size c))
      | inr c ↦ elim (Bool-cases (s1.0.m_content_length == 0)) [
        | inl none ↦
            let (_, st) =
              (parse_head-Framed input s s1 n ready e' refl over).no_body c
                (ground (arith, none)) in
            inl (rw st refl)
        | inr some ↦ inr (
            inr (
              parse_head-Sizing input s s1 n ready e' refl over max_size fits c
                (ground (arith, some))))
      ]
    ]
