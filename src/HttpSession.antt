-- ===== src/HttpSession.antt =====
-- src/server/streams.cpp: class basic_http_session, where it reads. What the socket and the event
-- loop answer, in order, is a list of events.
pub mod Body
pub mod Connection
pub mod Feeding
pub mod IoLoop
pub mod Reading
pub mod Writing
mod Tests
use dracon.Http.Response.{Response, Seconds, pos}
use Prim.Native.String.{String}
use dracon.Prelude.{
  ℕ, Bool, true, false, List, [], ◌∷◌, ◌++◌, Bytes, is_empty, drop, if◌then◌else◌, Result, ok, fail,
  thrown, out_of_fuel,
}
use dracon.Http.Request.{ParseState, Request, fresh_request, head_parsed, is_completed}
use dracon.HttpParser.State.{HttpRequestParser, State}
use dracon.HttpParser.Head.{parse_head}
use dracon.HttpParser.Body.{parse_body}

-- What a round of a loop gets from `read_some`, and from `m_yield` where that has nothing: at
-- least one byte, an error, nothing until the session is resumed, or nothing and then an error.
pub data Event : Type 0 where
  received : ℕ → Bytes → Event
  read_failed : ℕ → Event
  resumed : Event
  resumed_with : ℕ → Event

-- What is thrown: a response of the parser, another response, a status code, an exception, an error
-- code, or anything else. `unfinished` is a loop of the parser cut short, which does not happen.
pub data Failure : Type 0 where
  response_error : ℕ → String → Failure
  thrown_response : Response → Failure
  status_error : ℕ → Failure
  unknown_error : Failure
  exception : String → Failure
  error_code : ℕ → Failure
  unfinished : Failure

pub record HttpSession : Type 0 where
  pub m_parser : HttpRequestParser
  pub m_pending : Bytes
  pub m_can_write_error : Bool
  pub m_keep_alive : Seconds

-- How a read ends: with the request and the events that are left, waiting when the events are
-- over, or by a throw.
pub data Ended : Type 0 where
  complete : HttpSession → Request → List Event → Ended
  blocked : HttpSession → Request → Ended
  threw : Failure → HttpSession → Ended

pub data Round : Type 0 where
  go_on : HttpSession → Request → Round
  end_with : Ended → Round

abbrev pub after_round : Round → (HttpSession → Request → Ended) → Ended
after_round (go_on se req) next = next se req
after_round (end_with e) next = e

module _ (over : ParseState → Bool) where
  -- What follows a call of the parser on `bytes`: the bytes that it left are pending.
  abbrev pub parsed_round : List Event → HttpSession → Bytes → Result (State × ℕ) → Round
  parsed_round es se bytes (fail status reason) = end_with (threw (response_error status reason) se)
  parsed_round es se bytes (thrown what) = end_with (threw (exception what) se)
  parsed_round es se bytes out_of_fuel = end_with (threw unfinished se)
  parsed_round es se bytes (ok ((p, req), n)) =
      let se' = record se { m_parser = p; m_pending = drop n bytes } in
      if over req.m_state then end_with (complete se' req es) else go_on se' req

module _ (parse : Bytes → State → Result (State × ℕ)) (over : ParseState → Bool) where
  -- The first half of a round, on what is pending.
  unfoldable pub pending_round : List Event → HttpSession → Request → Round
  pending_round es se req =
      if is_empty se.m_pending
      then go_on se req
      else parsed_round over es se se.m_pending (parse se.m_pending (se.m_parser, req))

  -- The second half, with what was received.
  unfoldable pub received_round : List Event → Bytes → HttpSession → Request → Round
  received_round es bytes se req =
      if is_empty se.m_pending
      then parsed_round over es se bytes (parse bytes (se.m_parser, req))
      else go_on (record se { m_pending = se.m_pending ++ bytes }) req

  unfoldable pub event_round : Event → List Event → HttpSession → Request → Round
  event_round (received b bs) es se req =
      received_round es (b ∷ bs) (record se { m_can_write_error = true }) req
  event_round (read_failed ec) es se req = end_with (threw (error_code ec) se)
  event_round resumed es se req = go_on se req
  event_round (resumed_with ec) es se req = end_with (threw (error_code ec) se)

  -- The `for (;;)` of `read_headers` and of `read`.
  unfoldable pub read_loop : List Event → HttpSession → Request → Ended
  read_loop [] se req = after_round (pending_round [] se req) blocked
  read_loop (e ∷ es) se req =
      after_round (pending_round (e ∷ es) se req)
        λ se1 req1. after_round (event_round e es se1 req1) (read_loop es)

unfoldable pub read_headers : List Event → HttpSession → Ended
read_headers es se = read_loop parse_head head_parsed es se fresh_request

-- `keep_alive_guard`: a read that throws gives up the keep alive.
unfoldable pub keep_alive_guard : Ended → Ended
keep_alive_guard (threw failure se) = threw failure (record se { m_keep_alive = pos 0 })
keep_alive_guard ended = ended

unfoldable pub read : List Event → HttpSession → Request → Ended
read es se req =
    if is_completed req.m_state
    then complete se req es
    else keep_alive_guard
        (read_loop parse_body is_completed es (record se { m_can_write_error = true }) req)
