-- ===== src/HttpSession/IoLoop.antt =====
-- src/server/streams.cpp: basic_http_session::io_loop. Which session answers a request, and what it
-- does, is given; so is the text of an error code.
pub mod Ahead
pub mod Alike
pub mod Delivery
pub mod Ends
pub mod Once
pub mod Plans
pub mod Turns
mod Tests
use dracon.Prelude.{
  ℕ, zero, suc, ◌+◌, ◌*◌, ◌/◌, ◌^◌, Bool, true, false, not, ◌&&◌, ◌||◌, List, [], ◌∷◌, ◌++◌, Option,
  none, some, Bytes, codes, ltb, ◌==◌, if◌then◌else◌, ◌-◌,
}
use dracon.Http.Request.{Request, chunked_data, is_completed}
use dracon.Http.ContentLength.{content_length}
use dracon.Http.Response.{Response, Seconds, pos, negsuc, to_string}
use dracon.Http.Response.Build.{response}
use dracon.HttpSession.{
  Failure, response_error, thrown_response, status_error, unknown_error, exception, error_code,
  unfinished, HttpSession, read_headers,
}
use dracon.HttpSession.Connection.{
  Connection, Ran, done, waits, throws, ◌>>=◌, write_out_bytes, after_read,
}

-- A session of a plugin: it returns with the request as it left it.
abbrev pub Handler : Type 0
Handler = Request → Connection → Ran Request

-- What the plugins say to a request.
pub data Created : Type 0 where
  session_of : Handler → Created
  no_session : Created
  create_threw : Failure → Created

-- How the loop ends: by itself, waiting, by a throw, or where the model has no fuel left.
pub data Served : Type 0 where
  closed : Connection → Served
  waiting : Connection → Served
  failed : Failure → Connection → Served
  no_fuel : Connection → Served

abbrev pub is_zero : Seconds → Bool
is_zero (pos n) = n == 0
is_zero (negsuc n) = false

abbrev with_keep_alive : Seconds → Connection → Connection
with_keep_alive seconds c = record c { session = record c.session { m_keep_alive = seconds } }

abbrev pub when_ran : {A : Type 0} → Ran A → (A → Connection → Served) → Served
when_ran (done a c) next = next a c
when_ran (waits c) next = waiting c
when_ran (throws failure c) next = failed failure c

-- The timeout while a session runs: `keep_alive_timeout()` and a second for each 512 KB, or 5 minutes.
unfoldable pub request_timeout : ℕ → Request → Seconds
request_timeout keep_alive_timeout req =
    if content_length req == chunked_data
    then pos 300
    else pos (keep_alive_timeout + content_length req / (512 * 1024))

unfoldable pub accept_keep_alive : ℕ → Request → Connection → Connection
accept_keep_alive keep_alive_timeout req c =
    with_keep_alive (if req.m_keep_alive then pos keep_alive_timeout else pos 0) c

-- The end of a round: an unread request closes the connection.
unfoldable pub after_session : Request → Connection → Connection
after_session req c =
    let c' = if is_completed req.m_state then c else with_keep_alive (pos 0) c in
    record c' { m_session_timeout = c'.session.m_keep_alive; served = c'.served + 1 }

-- The test of the loop: `again` is its next turn.
abbrev pub next_turn : (Connection → Served) → Connection → Served
next_turn again c =
    let rest = again c in if c.interrupted || is_zero c.session.m_keep_alive then closed c else rest

-- What follows a session.
unfoldable pub go_round : (Connection → Served) → Request → Connection → Served
unfolding after_session
go_round again req c = next_turn again (after_session req c)

-- What follows `create_session`.
unfoldable pub run_session : ℕ → (Connection → Served) → Request → Connection → Created → Served
unfolding request_timeout go_round
run_session keep_alive_timeout again req c (session_of handler) =
    when_ran (handler req (record c { m_session_timeout = request_timeout keep_alive_timeout req }))
      (go_round again)
run_session keep_alive_timeout again req c no_session =
    closed (write_out_bytes (to_string (negsuc 0) (response 503 [] [])) c)
run_session keep_alive_timeout again req c (create_threw failure) = failed failure c

module _ (keep_alive_timeout : ℕ) (create_session : Request → Created) where
  -- What follows the head of a request.
  unfoldable pub respond : (Connection → Served) → Request → Connection → Served
  unfolding accept_keep_alive run_session
  respond again req c =
      run_session keep_alive_timeout again req (accept_keep_alive keep_alive_timeout req c)
        (create_session req)

  -- The `try` block.
  unfoldable pub serve : ℕ → Connection → Served
  unfolding respond
  serve zero c = no_fuel c
  serve (suc fuel) c =
      when_ran (after_read c (read_headers c.events c.session)) (respond (serve fuel))

-- The response of each `catch`.
unfoldable pub error_response : (ℕ → Bytes) → Failure → Response
error_response message (response_error status reason) = response status (codes reason) []
error_response message (thrown_response res) = res
error_response message (status_error error) =
    response (if ltb 0 error && ltb error (2 ^ 16 - 1) then error else 500) [] []
error_response message unknown_error = response 500 [] []
error_response message (exception what) = response 500 (codes what) []
error_response message (error_code ec) = response 500 (message ec) []
error_response message unfinished = response 500 [] []

-- The `catch` clauses.
unfoldable pub catch_failure : (ℕ → Bytes) → Served → Served
unfolding error_response write_out_bytes
catch_failure message (failed failure c) = closed (
    if c.session.m_can_write_error
    then write_out_bytes (to_string (negsuc 0) (error_response message failure)) c
    else c)
catch_failure message served = served

-- All of it, from the first request on.
unfoldable pub io_loop : ℕ → ℕ → (Request → Created) → (ℕ → Bytes) → ℕ → Connection → Served
unfolding serve catch_failure
io_loop headers_timeout keep_alive_timeout create_session message fuel c = catch_failure message (
    serve keep_alive_timeout create_session fuel
      (record c { m_session_timeout = pos headers_timeout }))
