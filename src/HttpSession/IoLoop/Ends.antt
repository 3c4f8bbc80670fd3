-- ===== src/HttpSession/IoLoop/Ends.antt =====
-- How often the loop of `io_loop` turns, by the bytes that are ahead.
use dracon.Prelude.{
  ℕ, zero, suc, ◌≤◌, ◌<◌, ◌≡◌, ◌∙◌, inl, inr, refl, ap, arith, Bool, true, false, List, ◌++◌, Bytes,
  length, drop, if◌then◌else◌, Bool-cases, length-drop, ◌||◌,
}
use dracon.Http.Request.{Request, fresh_request, head_parsed, is_completed}
use dracon.HttpParser.Head.{parse_head}
use dracon.HttpSession.{Event, HttpSession, Ended, complete, blocked, threw, read_headers, read}
use dracon.HttpSession.Connection.{Connection, Ran, done, waits, throws, after_read}
use dracon.HttpSession.Feeding.{arrived, AreCalm, AsOneCall}
use dracon.HttpSession.Reading.{read_headers-AsOneCall, parse_head_consumes}
use dracon.HttpSession.IoLoop.{
  Handler, Created, session_of, no_session, create_threw, Served, closed, waiting, failed, no_fuel,
  is_zero, when_ran, accept_keep_alive, after_session, serve, catch_failure, io_loop, go_round,
  respond, run_session,
}
use dracon.HttpSession.IoLoop.Ahead.{
  ahead, IsAhead, EndAhead, RanAhead, IsFrugal, read_loop-EndAhead,
}

-- The head of a request is taken off what is ahead.
abbrev EndTook : ℕ → Ended → Type 0
EndTook k (complete se req es) = AreCalm es × (ahead se es < k)
EndTook k (blocked se req) = Unit
EndTook k (threw failure se) = Unit

dropped_shorter :
    (n : ℕ) (xs ys : Bytes) → xs ≡ drop n ys → 0 < n → n ≤ length ys → length xs < length ys
dropped_shorter n xs ys e some within = omega (arith, ap length e ∙ length-drop n ys)

taken :
    (es : List Event) (se : HttpSession) (e : Ended)
    → AsOneCall parse_head head_parsed (se.m_pending ++ arrived es) (se.m_parser, fresh_request) e
    → EndAhead (ahead se es) se.m_keep_alive e
    → EndTook (ahead se es) e
taken es se (complete se1 req1 rest) (n, one, fin, left) ((calm, _), _) =
    let all = se.m_pending ++ arrived es in
    let (some, within) = parse_head_consumes all se.m_parser (se1.m_parser, req1) n one fin in
    (calm, dropped_shorter n (se1.m_pending ++ arrived rest) all left some within)
taken es se (blocked se1 req1) one h = tt
taken es se (threw failure se1) one h = tt

read_headers-EndTook :
    (es : List Event) (se : HttpSession) → AreCalm es → EndTook (ahead se es) (read_headers es se)
read_headers-EndTook es se calm =
    taken es se (read_headers es se) (read_headers-AsOneCall es se calm) (
      unfold read_headers in
      read_loop-EndAhead parse_head head_parsed (ahead se es) se.m_keep_alive es se fresh_request
        ((calm, omega arith), refl))

-- There was fuel left.
abbrev pub HasEnded : Served → Type 0
HasEnded (no_fuel c) = ⊥
HasEnded _ = Unit

if_HasEnded : (b : Bool) (s t : Served) → HasEnded s → HasEnded t → HasEnded (if b then s else t)
if_HasEnded true s t h g = h
if_HasEnded false s t h g = g

when_ran-HasEnded :
    {A : Type 0} (k : ℕ) (r : Ran A) (next : A → Connection → Served)
    → RanAhead k r
    → ((a : A) (c : Connection) → IsAhead k c.session c.events → HasEnded (next a c))
    → HasEnded (when_ran r next)
when_ran-HasEnded k (done a c) next h f = f a c h
when_ran-HasEnded k (waits c) next h f = tt
when_ran-HasEnded k (throws failure c) next h f = tt

when_read-HasEnded :
    (fuel k : ℕ) (c : Connection) (e : Ended) (next : Request → Connection → Served)
    → EndTook k e
    → k < suc fuel
    → ((req : Request) (c1 : Connection) (j : ℕ)
        → IsAhead j c1.session c1.events
        → j < fuel
        → HasEnded (next req c1))
    → HasEnded (when_ran (after_read c e) next)
when_read-HasEnded fuel k c (complete se req es) next (calm, less) few f =
    f req (record c { session = se; events = es }) (ahead se es) (calm, omega arith) (omega arith)
when_read-HasEnded fuel k c (blocked se req) next h few f = tt
when_read-HasEnded fuel k c (threw failure se) next h few f = tt

after_session-IsAhead :
    (k : ℕ) (req : Request) (c : Connection)
    → IsAhead k c.session c.events
    → let c' = after_session req c in IsAhead k c'.session c'.events
unfolding after_session
after_session-IsAhead k req c h = elim (Bool-cases (is_completed req.m_state)) [
  | inl read ↦ rw read h
  | inr unread ↦ rw unread h
]

-- A turn of the loop with `k` bytes ahead at most.
abbrev TurnsWithin : ℕ → (Connection → Served) → Type 0
TurnsWithin k again = (c : Connection) → IsAhead k c.session c.events → HasEnded (again c)

go_round-HasEnded :
    (k : ℕ) (again : Connection → Served) (req : Request) (c : Connection)
    → TurnsWithin k again
    → IsAhead k c.session c.events
    → HasEnded (go_round again req c)
unfolding go_round
go_round-HasEnded k again req c turns h =
    let c' = after_session req c in
    if_HasEnded (c'.interrupted || is_zero c'.session.m_keep_alive) (closed c') (again c') tt
      (turns c' (after_session-IsAhead k req c h))

run_session-HasEnded :
    (keep_alive_timeout k : ℕ) (again : Connection → Served) (req : Request) (c : Connection)
    (created : Created)
    → ((handler : Handler) → created ≡ session_of handler → IsFrugal handler)
    → TurnsWithin k again
    → IsAhead k c.session c.events
    → HasEnded (run_session keep_alive_timeout again req c created)
unfolding run_session
run_session-HasEnded keep_alive_timeout k again req c (session_of handler) frugal turns h =
    when_ran-HasEnded k (handler req _) (go_round again) (frugal handler refl k req _ h)
      λ req' c'. go_round-HasEnded k again req' c' turns
run_session-HasEnded keep_alive_timeout k again req c no_session frugal turns h = tt
run_session-HasEnded keep_alive_timeout k again req c (create_threw failure) frugal turns h = tt

module _ (keep_alive_timeout : ℕ) (create_session : Request → Created)
    (frugal : (req : Request) (handler : Handler)
      → create_session req ≡ session_of handler
      → IsFrugal handler) where
  respond-HasEnded :
      (k : ℕ) (again : Connection → Served) (req : Request) (c : Connection)
      → TurnsWithin k again
      → IsAhead k c.session c.events
      → HasEnded (respond keep_alive_timeout create_session again req c)
  unfolding respond accept_keep_alive
  respond-HasEnded k again req c turns h =
      run_session-HasEnded keep_alive_timeout k again req
        (accept_keep_alive keep_alive_timeout req c) (create_session req) (frugal req) turns h

  pub serve-HasEnded :
      (fuel k : ℕ) (c : Connection)
      → IsAhead k c.session c.events
      → k < fuel
      → HasEnded (serve keep_alive_timeout create_session fuel c)
  unfolding serve
  serve-HasEnded zero k c h few = omega (arith, few)
  serve-HasEnded (suc fuel) k c (calm, h) few =
      when_read-HasEnded fuel (ahead c.session c.events) c (read_headers c.events c.session) _
        (read_headers-EndTook c.events c.session calm) (omega arith)
        λ req c1 j h1 less.
          respond-HasEnded j _ req c1 (λ c2 h2. serve-HasEnded fuel j c2 h2 less) h1

-- The loop is over, or it waits for more.
abbrev pub IsOver : Served → Type 0
IsOver (closed c) = Unit
IsOver (waiting c) = Unit
IsOver (failed failure c) = ⊥
IsOver (no_fuel c) = ⊥

catch_failure-IsOver :
    (message : ℕ → Bytes) (s : Served) → HasEnded s → IsOver (catch_failure message s)
unfolding catch_failure
catch_failure-IsOver message (closed c) h = tt
catch_failure-IsOver message (waiting c) h = tt
catch_failure-IsOver message (failed failure c) h = tt
catch_failure-IsOver message (no_fuel c) h = h

-- Where no call of the system fails, and no session hands bytes back or brings in a failing call,
-- io_loop serves a connection in no more rounds than there are bytes pending or still to come, and
-- one: fuel that is more than the number of these bytes is enough for it to close the connection
-- or to wait for bytes. Nothing that is thrown, by a read, by create_session or by a session,
-- leaves it.
pub io_loop-IsOver :
    (headers_timeout keep_alive_timeout : ℕ) (create_session : Request → Created)
    (message : ℕ → Bytes) (fuel : ℕ) (c : Connection)
    → ((req : Request) (handler : Handler)
        → create_session req ≡ session_of handler
        → IsFrugal handler)
    → AreCalm c.events
    → length (c.session.m_pending ++ arrived c.events) < fuel
    → IsOver (io_loop headers_timeout keep_alive_timeout create_session message fuel c)
unfolding io_loop
io_loop-IsOver headers_timeout keep_alive_timeout create_session message fuel c frugal calm few =
    catch_failure-IsOver message _ (
      serve-HasEnded keep_alive_timeout create_session frugal fuel (ahead c.session c.events) _
        (calm, omega arith) few)
