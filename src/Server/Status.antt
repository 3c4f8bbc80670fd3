-- ===== src/Server/Status.antt =====
-- src/server/server_service_sessions.cpp: the session that answers /server_status. The counters of
-- the server are given.
use dracon.Prelude.{
  ℕ, ◌+◌, ◌-◌, ◌*◌, ◌/◌, ◌<◌, ◌≡◌, ◌⊎◌, inl, inr, refl, arith, ◌&&◌, [], ◌∷◌, ◌++◌, Option, none,
  some, Bytes, codes, bytes_eq, max, if◌then◌else◌,
}
use dracon.Http.Request.{Request}
use dracon.Http.Response.{Response, number}
use dracon.Http.Response.Build.{response}
use dracon.HttpSession.{
  Failure, response_error, thrown_response, status_error, unknown_error, exception, error_code,
  unfinished,
}
use dracon.HttpSession.Connection.{Connection, Ran, done, waits, throws, send, receive}
use dracon.HttpSession.IoLoop.{Handler}

pub record Counters : Type 0 where
  pub active_sessions : ℕ
  pub peak_sessions : ℕ
  pub uptime : ℕ
  pub served_sessions : ℕ

pub record Uptime : Type 0 where
  pub days : ℕ
  pub hours : ℕ
  pub minutes : ℕ
  pub seconds : ℕ

unfoldable pub split_uptime : ℕ → Uptime
split_uptime uptime =
    let days = uptime / (60 * 60 * 24) in
    let in_day = uptime - days * (60 * 60 * 24) in
    let hours = in_day / (60 * 60) in
    let in_hour = in_day - hours * (60 * 60) in
    let minutes = in_hour / 60 in
    record { days = days; hours = hours; minutes = minutes; seconds = in_hour - minutes * 60 }

-- A number below 2 ^ 64 has no more digits.
abbrev decimal_of : ℕ → Bytes
decimal_of n = number 20 n

unfoldable pub status_body : Counters → Bytes
unfolding split_uptime
status_body n =
    let up = split_uptime n.uptime in
    codes "Active sessions: "
    ++ decimal_of n.active_sessions
    ++ codes "\nSessions peak: "
    ++ decimal_of (max n.peak_sessions n.active_sessions)
    ++ codes "\nUptime: "
    ++ decimal_of up.days
    ++ codes " days, "
    ++ decimal_of up.hours
    ++ codes " hours, "
    ++ decimal_of up.minutes
    ++ codes " minutes and "
    ++ decimal_of up.seconds
    ++ codes " seconds\n"
    ++ codes "Served sessions: "
    ++ decimal_of n.served_sessions
    ++ codes "\n"

unfoldable pub status_response : Counters → Response
unfolding status_body
status_response n =
    response 200 (status_body n)
      ((codes "Refresh", codes "5") ∷ (codes "Content-Type", codes "text/plain") ∷ [])

-- The status of the response in each `catch`.
unfoldable pub caught_status : Failure → ℕ
caught_status (response_error status reason) = status
caught_status (thrown_response res) = res.m_status_code
caught_status (status_error status) = 500
caught_status unknown_error = 500
caught_status (exception what) = 500
caught_status (error_code ec) = 500
caught_status unfinished = 500

-- A request whose read throws is returned as it was: it is incomplete in both cases.
unfoldable pub answer_status : Counters → Request → Ran Request → Ran Request
unfolding caught_status status_response
answer_status n req (done req' c) = done req' (send (status_response n) c)
answer_status n req (waits c) = waits c
answer_status n req (throws failure c) = done req (send (response (caught_status failure) [] []) c)

unfoldable pub write_response : Counters → Handler
unfolding answer_status
write_response n req c = answer_status n req (receive req c)

-- `create_session`.
unfoldable pub status_session : Counters → Request → Option Handler
unfolding write_response
status_session n req =
    if bytes_eq req.m_url (codes "/server_status") && bytes_eq req.m_method (codes "GET")
    then some (write_response n)
    else none

-- What is left: a bare status code, or the counters.
abbrev pub IsAnswered : Counters → Ran Request → Type 0
IsAnswered n (done req c) =
    (before : Connection) × ((c ≡ send (status_response n) before)
      ⊎ ((status : ℕ) × (c ≡ send (response status [] []) before)))
IsAnswered n (waits c) = Unit
IsAnswered n (throws failure c) = ⊥

answer_status-IsAnswered :
    (n : Counters) (req : Request) (r : Ran Request) → IsAnswered n (answer_status n req r)
unfolding answer_status
answer_status-IsAnswered n req (done req' c) = (c, inl refl)
answer_status-IsAnswered n req (waits c) = tt
answer_status-IsAnswered n req (throws failure c) = (c, inr (caught_status failure, refl))

-- The session of /server_status lets nothing be thrown: where it returns, it has sent one response,
-- with the counters, or with a status alone, no header of its own and no text.
pub write_response-IsAnswered :
    (n : Counters) (req : Request) (c : Connection) → IsAnswered n (write_response n req c)
unfolding write_response
write_response-IsAnswered n req c = answer_status-IsAnswered n req (receive req c)

-- The parts of the uptime add up to it, and each but the days is less than the next greater unit.
pub split_uptime-bounds :
    (uptime : ℕ)
    → let up = split_uptime uptime in
      (up.days * (60 * 60 * 24) + up.hours * (60 * 60) + up.minutes * 60 + up.seconds ≡ uptime)
      × (up.hours < 24)
      × (up.minutes < 60)
      × (up.seconds < 60)
unfolding split_uptime
split_uptime-bounds uptime = (omega arith, omega arith, omega arith, omega arith)
