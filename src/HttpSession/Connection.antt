-- ===== src/HttpSession/Connection.antt =====
-- A connection as a session sees it: what it reads and writes by way of the operators of
-- include/dracon/http.h. The writes are taken to go out whole (Writing has how they do).
use dracon.Prelude.{
  ℕ, ◌+◌, ◌*◌, ◌/◌, Bool, false, not, ◌&&◌, List, [], ◌++◌, none, some, Bytes, codes, bytes_eq,
  is_empty, ltb, ◌==◌, if◌then◌else◌, max,
}
use dracon.Http.Request.{Request, chunked_data}
use dracon.Http.ContentLength.{find_field, content_length}
use dracon.Http.Response.{Response, Seconds, pos, negsuc, is_unset, to_string}
use dracon.Http.Response.Build.{response}
use dracon.HttpSession.{
  Event, Failure, status_error, HttpSession, Ended, complete, blocked, threw, read,
}

-- `interrupted` is whether `m_yield.get()` is an error, where a session goes on after one; `served`
-- counts the calls of `session_served`. That a new timeout is published is in EventLoop.
pub record Connection : Type 0 where
  pub session : HttpSession
  pub m_session_timeout : Seconds
  pub out : Bytes
  pub events : List Event
  pub interrupted : Bool
  pub served : ℕ

-- What a session does: it is done, or it waits when the events are over, or it throws.
pub data Ran (A : Type 0) : Type 0 where
  done : A → Connection → Ran A
  waits : Connection → Ran A
  throws : Failure → Connection → Ran A

infixl 5 ◌>>=◌
abbrev pub ◌>>=◌ : {A B : Type 0} → Ran A → (A → Connection → Ran B) → Ran B
done a c >>= next = next a c
waits c >>= next = waits c
throws failure c >>= next = throws failure c

-- A write that sends a byte gives up that an error may be written.
unfoldable pub write_out_bytes : Bytes → Connection → Connection
write_out_bytes bytes c = record c {
  session = record c.session {
    m_can_write_error = if is_empty bytes then c.session.m_can_write_error else false;
  };
  out = c.out ++ bytes;
}

unfoldable pub later_of : Seconds → ℕ → Seconds
later_of (pos a) b = pos (max a b)
later_of (negsuc a) b = pos b

-- `stream << res`.
unfoldable pub send : Response → Connection → Connection
unfolding write_out_bytes later_of
send res c =
    let keep = if is_unset res.m_keep_alive then c.session.m_keep_alive else res.m_keep_alive in
    let timeout =
      if res.m_content_length == chunked_data
      then c.m_session_timeout
      else later_of c.m_session_timeout (10 + res.m_content_length / (512 * 1024)) in
    write_out_bytes (to_string keep res)
      (record c { session = record c.session { m_keep_alive = keep }; m_session_timeout = timeout })

-- What `read` leaves.
abbrev pub after_read : Connection → Ended → Ran Request
after_read c (complete se req rest) = done req (record c { session = se; events = rest })
after_read c (blocked se req) = waits (record c { session = se; events = [] })
after_read c (threw failure se) = throws failure (record c { session = se; events = [] })

unfoldable pub expects_continue : Request → Bool
unfolding find_field
expects_continue req = elim (find_field (codes "Expect") req.fields) [
  | none ↦ false
  | some value ↦ bytes_eq value (codes "100-continue")
]

unfoldable pub refuses_length : Request → Bool
refuses_length req =
    not (content_length req == chunked_data) && ltb req.m_max_body_size (content_length req)

abbrev pub continue_response : Response
continue_response = response 100 [] []

-- `stream >> req`.
unfoldable pub receive : Request → Connection → Ran Request
unfolding expects_continue refuses_length send
receive req c =
    if expects_continue req && refuses_length req
    then throws (status_error 417) c
    else (let c' = if expects_continue req then send continue_response c else c in
        after_read c' (read c'.events c'.session req))
