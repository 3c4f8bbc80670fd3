-- ===== src/HttpSession/IoLoop/Delivery.antt =====
-- The loop of `io_loop` on a connection whose bytes arrive in pieces, against the same bytes all
-- pending at once.
use dracon.Prelude.{ℕ, ◌<◌, ◌≡◌, arith, ◌++◌, length, subst}
use dracon.Http.Request.{Request}
use dracon.HttpSession.Connection.{Connection}
use dracon.HttpSession.Feeding.{arrived, AreCalm}
use dracon.HttpSession.IoLoop.{
  Handler, Created, session_of, no_session, create_threw, Served, closed, waiting, failed, no_fuel,
  serve,
}
use dracon.HttpSession.IoLoop.Ahead.{ahead, IsFrugal}
use dracon.HttpSession.IoLoop.Ends.{HasEnded, serve-HasEnded}
use dracon.HttpSession.IoLoop.Alike.{gathered, Extends}
use dracon.HttpSession.IoLoop.Turns.{served_out, Alike, create, serve-Alike}
use dracon.HttpSession.IoLoop.Plans.{
  Plan, replies, declines, raises, session_for, IsLimited, answering-IsFrugal,
}

-- The same, and there is fuel enough.
abbrev pub Delivered : Served → Served → Type 0
Delivered (closed c) s = (c' : Connection) × (s ≡ closed c') × (c'.out ≡ c.out)
Delivered (waiting c) s = (c' : Connection) × (s ≡ waiting c') × (c'.out ≡ c.out)
Delivered (failed failure c) s = Extends c.out (served_out s)
Delivered (no_fuel c) s = ⊥

Alike-Delivered : (s s' : Served) → Alike s s' → HasEnded s → Delivered s s'
Alike-Delivered (closed c) s' h ended = h
Alike-Delivered (waiting c) s' h ended = h
Alike-Delivered (failed failure c) s' h ended = h
Alike-Delivered (no_fuel c) s' h ended = ended

abbrev IsFrugalCreated : Created → Type 0
IsFrugalCreated (session_of handler) = IsFrugal handler
IsFrugalCreated no_session = Unit
IsFrugalCreated (create_threw failure) = Unit

session_for-IsFrugalCreated : (plan : Plan) → IsFrugalCreated (session_for plan)
session_for-IsFrugalCreated (replies max_size answer) = answering-IsFrugal max_size answer
session_for-IsFrugalCreated declines = tt
session_for-IsFrugalCreated (raises failure) = tt

pub session_for-IsFrugal :
    (plan : Plan) (handler : Handler) → session_for plan ≡ session_of handler → IsFrugal handler
session_for-IsFrugal plan handler e = subst IsFrugalCreated e (session_for-IsFrugalCreated plan)

-- A connection with any number of requests, one behind the other, where a session reads the body
-- of each request and sends a response that is computed from the request, or none is found, or
-- finding it throws, and no call of the system fails. However the bytes are cut into pieces and
-- whatever waits are in between, the try block of io_loop does what it does where all the bytes are
-- there from the start: it closes the connection in both cases, or waits for more in both, and
-- sends the same bytes; where it ends by a throw, it has sent a beginning of what is sent where the
-- bytes are all there. Fuel of more than the number of bytes is enough.
pub serve-Delivered :
    (keep_alive_timeout fuel : ℕ) (plan : Request → Plan) (c : Connection)
    → ((req : Request) → IsLimited (plan req))
    → AreCalm c.events
    → length (c.session.m_pending ++ arrived c.events) < fuel
    → Delivered (serve keep_alive_timeout (λ req. session_for (plan req)) fuel c) (
        serve keep_alive_timeout
          (λ req. session_for (plan req))
          fuel
          (gathered c.session.m_can_write_error c))
serve-Delivered keep_alive_timeout fuel plan c limited calm few =
    Alike-Delivered _ _
      (serve-Alike keep_alive_timeout plan limited fuel c c.session.m_can_write_error calm)
      (serve-HasEnded keep_alive_timeout (create plan) (λ req. session_for-IsFrugal (plan req)) fuel
        (ahead c.session c.events) c (calm, omega arith) few)
