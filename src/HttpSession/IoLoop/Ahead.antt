-- ===== src/HttpSession/IoLoop/Ahead.antt =====
-- What is ahead of a loop of reads, and of a session.
use dracon.Prelude.{
  ℕ, ◌≤◌, ◌≡◌, inl, inr, refl, arith, Bool, true, false, List, [], ◌∷◌, ◌++◌, Bytes, is_empty,
  length, drop, if◌then◌else◌, Result, ok, fail, thrown, out_of_fuel, Bool-cases, length-append,
  length-drop, append_assoc,
}
use dracon.Http.Request.{ParseState, Request, is_completed}
use dracon.Http.Response.{Seconds}
use dracon.HttpParser.State.{State}
use dracon.HttpParser.Body.{parse_body}
use dracon.HttpSession.{
  Event, received, read_failed, resumed, resumed_with, HttpSession, Ended, complete, blocked, threw,
  Round, go_on, end_with, after_round, parsed_round, pending_round, received_round, event_round,
  read_loop, read, keep_alive_guard,
}
use dracon.HttpSession.Connection.{
  Connection, Ran, done, waits, throws, write_out_bytes, send, after_read, receive,
  continue_response, expects_continue, refuses_length,
}
use dracon.HttpSession.Feeding.{arrived, AreCalm}
use dracon.HttpSession.Feeding.Rounds.{is_empty→nil}
use dracon.HttpSession.IoLoop.{Handler}

-- The bytes that are pending or still to come.
abbrev pub ahead : HttpSession → List Event → ℕ
ahead se es = length (se.m_pending ++ arrived es)

-- Calm events, and at most `k` bytes ahead.
abbrev pub IsAhead : ℕ → HttpSession → List Event → Type 0
IsAhead k se es = AreCalm es × (ahead se es ≤ k)

-- And the keep alive is `keep`.
abbrev pub KeepsAhead : ℕ → Seconds → HttpSession → List Event → Type 0
KeepsAhead k keep se es = IsAhead k se es × (se.m_keep_alive ≡ keep)

abbrev pub EndAhead : ℕ → Seconds → Ended → Type 0
EndAhead k keep (complete se req es) = KeepsAhead k keep se es
EndAhead k keep (blocked se req) = Unit
EndAhead k keep (threw failure se) = Unit

abbrev RoundAhead : ℕ → Seconds → List Event → Round → Type 0
RoundAhead k keep es (go_on se req) = KeepsAhead k keep se es
RoundAhead k keep es (end_with e) = EndAhead k keep e

after_round-EndAhead :
    (k : ℕ) (keep : Seconds) (es : List Event) (r : Round) (next : HttpSession → Request → Ended)
    → RoundAhead k keep es r
    → ((se : HttpSession) (req : Request) → KeepsAhead k keep se es → EndAhead k keep (next se req))
    → EndAhead k keep (after_round r next)
after_round-EndAhead k keep es (go_on se req) next h f = f se req h
after_round-EndAhead k keep es (end_with e) next h f = h

if_round :
    (k : ℕ) (keep : Seconds) (es : List Event) (b : Bool) (r q : Round)
    → (b ≡ true → RoundAhead k keep es r)
    → (b ≡ false → RoundAhead k keep es q)
    → RoundAhead k keep es (if b then r else q)
if_round k keep es true r q h g = h refl
if_round k keep es false r q h g = g refl

drop_shorter : (n : ℕ) (xs ys : Bytes) → length (drop n xs ++ ys) ≤ length (xs ++ ys)
drop_shorter n xs ys =
    omega (arith, length-append xs ys, length-append (drop n xs) ys, length-drop n xs)

module _ (parse : Bytes → State → Result (State × ℕ)) (over : ParseState → Bool) (k : ℕ)
    (keep : Seconds) where
  parsed_round-RoundAhead :
      (es : List Event) (se : HttpSession) (bytes : Bytes) (m : Result (State × ℕ))
      → AreCalm es
      → length (bytes ++ arrived es) ≤ k
      → se.m_keep_alive ≡ keep
      → RoundAhead k keep es (parsed_round over es se bytes m)
  parsed_round-RoundAhead es se bytes (ok ((p, req), n)) c h g =
      let less = drop_shorter n bytes (arrived es) in
      let h' : length (drop n bytes ++ arrived es) ≤ k = omega (arith, less) in
      if_round k keep es (over req.m_state) _ _ (λ _. ((c, h'), g)) (λ _. ((c, h'), g))
  parsed_round-RoundAhead es se bytes (fail status reason) c h g = tt
  parsed_round-RoundAhead es se bytes (thrown what) c h g = tt
  parsed_round-RoundAhead es se bytes out_of_fuel c h g = tt

  pending_round-RoundAhead :
      (es : List Event) (se : HttpSession) (req : Request)
      → KeepsAhead k keep se es
      → RoundAhead k keep es (pending_round parse over es se req)
  unfolding pending_round
  pending_round-RoundAhead es se req h =
      if_round k keep es (is_empty se.m_pending) _ _ (λ _. h)
        λ _. parsed_round-RoundAhead es se se.m_pending _ h.0.0 h.0.1 h.1

  event_round-RoundAhead :
      (e : Event) (es : List Event) (se : HttpSession) (req : Request)
      → KeepsAhead k keep se (e ∷ es)
      → RoundAhead k keep es (event_round parse over e es se req)
  unfolding event_round received_round arrived
  event_round-RoundAhead (received b bs) es se req ((c, h), g) =
      if_round k keep es (is_empty se.m_pending) _ _
        (λ none. parsed_round-RoundAhead es _ (b ∷ bs) _ c (rw (is_empty→nil _ none) at h) g)
        λ some. ((c, rw (append_assoc se.m_pending (b ∷ bs) (arrived es)) h), g)
  event_round-RoundAhead resumed es se req h = h
  event_round-RoundAhead (read_failed ec) es se req h = tt
  event_round-RoundAhead (resumed_with ec) es se req h = tt

  pub read_loop-EndAhead :
      (es : List Event) (se : HttpSession) (req : Request)
      → KeepsAhead k keep se es
      → EndAhead k keep (read_loop parse over es se req)
  unfolding read_loop
  read_loop-EndAhead [] se req h =
      after_round-EndAhead k keep [] _ blocked (pending_round-RoundAhead [] se req h)
        λ se1 req1 h1. tt
  read_loop-EndAhead (e ∷ es) se req h =
      after_round-EndAhead k keep (e ∷ es) _ _ (pending_round-RoundAhead (e ∷ es) se req h)
        λ se1 req1 h1.
          after_round-EndAhead k keep es _ _ (event_round-RoundAhead e es se1 req1 h1)
            λ se2 req2 h2. read_loop-EndAhead es se2 req2 h2

-- What a session has to keep: it hands no bytes back.
abbrev pub RanAhead : {A : Type 0} → ℕ → Ran A → Type 0
RanAhead k (done a c) = IsAhead k c.session c.events
RanAhead k (waits c) = Unit
RanAhead k (throws failure c) = Unit

abbrev pub IsFrugal : Handler → Type 0
IsFrugal handler =
    (k : ℕ) (req : Request) (c : Connection)
    → IsAhead k c.session c.events
    → RanAhead k (handler req c)

after_read-RanAhead :
    (k : ℕ) (keep : Seconds) (c : Connection) (e : Ended)
    → EndAhead k keep e
    → RanAhead k (after_read c e)
after_read-RanAhead k keep c (complete se req es) h = h.0
after_read-RanAhead k keep c (blocked se req) h = tt
after_read-RanAhead k keep c (threw failure se) h = tt

guard-EndAhead :
    (k : ℕ) (keep : Seconds) (e : Ended) → EndAhead k keep e → EndAhead k keep (keep_alive_guard e)
unfolding keep_alive_guard
guard-EndAhead k keep (complete se req es) h = h
guard-EndAhead k keep (blocked se req) h = tt
guard-EndAhead k keep (threw failure se) h = tt

read-EndAhead :
    (k : ℕ) (es : List Event) (se : HttpSession) (req : Request)
    → IsAhead k se es
    → EndAhead k se.m_keep_alive (read es se req)
unfolding read
read-EndAhead k es se req h = elim (Bool-cases (is_completed req.m_state)) [
  | inl over ↦ rw over (h, refl)
  | inr going ↦ rw going (
      guard-EndAhead k se.m_keep_alive _
        (read_loop-EndAhead parse_body is_completed k se.m_keep_alive es _ req (h, refl)))
]

reading-RanAhead :
    (k : ℕ) (req : Request) (c : Connection)
    → IsAhead k c.session c.events
    → RanAhead k (after_read c (read c.events c.session req))
reading-RanAhead k req c h =
    after_read-RanAhead k c.session.m_keep_alive c _ (read-EndAhead k c.events c.session req h)

-- `operator>>` does not.
pub receive-IsFrugal : IsFrugal receive
unfolding receive send write_out_bytes
receive-IsFrugal k req c h = elim (Bool-cases (expects_continue req)) [
  | inl expected ↦ elim (Bool-cases (refuses_length req)) [
    | inl refused ↦ rw (expected, refused) tt
    | inr fits ↦ rw (expected, fits) (reading-RanAhead k req (send continue_response c) h)
  ]
  | inr plain ↦ rw plain (reading-RanAhead k req c h)
]
