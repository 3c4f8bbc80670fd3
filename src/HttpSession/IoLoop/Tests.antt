-- ===== src/HttpSession/IoLoop/Tests.antt =====
-- The theorems on the loop of a connection, on two requests that arrive in pieces.
use dracon.Prelude.{false, List, [], ◌∷◌, codes, arith}
use dracon.Http.Request.{Request}
use dracon.Http.Response.{pos}
use dracon.Http.Response.Build.{response}
use dracon.HttpParser.State.{initial}
use dracon.HttpSession.{Event, received, resumed}
use dracon.HttpSession.Connection.{Connection}
use dracon.HttpSession.Feeding.{arrived}
use dracon.HttpSession.IoLoop.{serve, io_loop}
use dracon.HttpSession.IoLoop.Alike.{gathered}
use dracon.HttpSession.IoLoop.Ends.{IsOver, io_loop-IsOver}
use dracon.HttpSession.IoLoop.Plans.{Plan, replies, session_for}
use dracon.HttpSession.IoLoop.Delivery.{Delivered, serve-Delivered, session_for-IsFrugal}

abbrev two_requests : List Event
two_requests =
    received b'P' (codes "OST /a HTTP/1.1\r\nContent-Length: 5\r\n\r\nhe")
    ∷ resumed
    ∷ received b'l' (codes "loGET /b HTTP/1.1\r\nConnection: cl")
    ∷ received b'o' (codes "se\r\n\r\n")
    ∷ []

abbrev accepted : Connection
accepted = record {
  session = record {
    m_parser = initial;
    m_pending = [];
    m_can_write_error = false;
    m_keep_alive = pos 0;
  };
  m_session_timeout = pos 5;
  out = [];
  events = two_requests;
  interrupted = false;
  served = 0;
}

abbrev echo : Request → Plan
echo req = replies 1024 λ req'. response 200 req'.body []

io_loop-IsOver_example :
    IsOver (io_loop 5 10 (λ req. session_for (echo req)) (λ ec. []) 100 accepted)
unfolding arrived
io_loop-IsOver_example =
    io_loop-IsOver 5 10 (λ req. session_for (echo req)) (λ ec. []) 100 accepted
      (λ req. session_for-IsFrugal (echo req)) tt (omega arith)

serve-Delivered_example :
    Delivered
      (serve 10 (λ req. session_for (echo req)) 100 accepted)
      (serve 10 (λ req. session_for (echo req)) 100 (gathered false accepted))
unfolding arrived
serve-Delivered_example = serve-Delivered 10 100 echo accepted (λ req. omega arith) tt (omega arith)
