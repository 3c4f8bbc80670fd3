-- ===== src/HttpSession/IoLoop/Plans.antt =====
-- Sessions that read the request and send one response.
use dracon.Prelude.{ℕ, ◌^◌, ◌<◌, refl, ap, Bool}
use dracon.Http.Request.{Request, append_body_callback}
use dracon.Http.Response.{Response}
use dracon.HttpSession.{Failure}
use dracon.HttpSession.Connection.{
  Connection, Ran, done, waits, throws, ◌>>=◌, write_out_bytes, send, receive,
}
use dracon.HttpSession.Feeding.{AreCalm}
use dracon.HttpSession.IoLoop.{Handler, Created, session_of, no_session, create_threw}
use dracon.HttpSession.IoLoop.Ahead.{IsAhead, RanAhead, IsFrugal, receive-IsFrugal}
use dracon.HttpSession.IoLoop.Once.{Readable}
use dracon.HttpSession.IoLoop.Alike.{
  gathered, Extends, same-Extends, Extends-trans, ran_out, RanAlike, send-gathered, send-Extends,
  receive-Extends, receive-RanAlike,
}

-- What is done on a request: its body is read, up to a limit, and a response to it is sent; or no
-- session is found; or finding one throws.
pub data Plan : Type 0 where
  replies : ℕ → (Request → Response) → Plan
  declines : Plan
  raises : Failure → Plan

unfoldable pub answering : ℕ → (Request → Response) → Handler
answering max_size answer req c =
    receive (append_body_callback max_size req) c >>= λ req' c'. done req' (send (answer req') c')

abbrev pub session_for : Plan → Created
session_for (replies max_size answer) = session_of (answering max_size answer)
session_for declines = no_session
session_for (raises failure) = create_threw failure

-- A limit is a size_t.
abbrev pub IsLimited : Plan → Type 0
IsLimited (replies max_size answer) = max_size < 2 ^ 64
IsLimited declines = Unit
IsLimited (raises failure) = Unit

Ran-bind-IsFrugal :
    {A B : Type 0} (k : ℕ) (r : Ran A) (next : A → Connection → Ran B)
    → RanAhead k r
    → ((a : A) (c : Connection) → IsAhead k c.session c.events → RanAhead k (next a c))
    → RanAhead k (r >>= next)
Ran-bind-IsFrugal k (done a c) next h f = f a c h
Ran-bind-IsFrugal k (waits c) next h f = tt
Ran-bind-IsFrugal k (throws failure c) next h f = tt

pub answering-IsFrugal :
    (max_size : ℕ) (answer : Request → Response) → IsFrugal (answering max_size answer)
unfolding answering send write_out_bytes
answering-IsFrugal max_size answer k req c h =
    Ran-bind-IsFrugal k (receive (append_body_callback max_size req) c) _
      (receive-IsFrugal k (append_body_callback max_size req) c h) λ a c' h'. h'

bind-Extends :
    {A B : Type 0} (r : Ran A) (next : A → Connection → Ran B)
    → ((a : A) (c : Connection) → Extends c.out (ran_out (next a c)))
    → Extends (ran_out r) (ran_out (r >>= next))
bind-Extends (done a c) next f = f a c
bind-Extends (waits c) next f = same-Extends refl
bind-Extends (throws failure c) next f = same-Extends refl

bind-RanAlike :
    {A B : Type 0} (r r' : Ran A) (next : A → Connection → Ran B)
    → RanAlike r r'
    → ((a : A) (c : Connection) → Extends c.out (ran_out (next a c)))
    → ((a : A) (c : Connection) (flag : Bool)
        → AreCalm c.events
        → RanAlike (next a c) (next a (gathered flag c)))
    → RanAlike (r >>= next) (r' >>= next)
bind-RanAlike (done a c) r' next (calm, (flag, same)) f g = rw same (g a c flag calm)
bind-RanAlike (waits c) r' next (c', same, out) f g = (c', rw same refl, out)
bind-RanAlike (throws failure c) r' next h f g = Extends-trans h (bind-Extends r' next f)

pub answering-Extends :
    (max_size : ℕ) (answer : Request → Response) (req : Request) (c : Connection)
    → Extends c.out (ran_out (answering max_size answer req c))
unfolding answering
answering-Extends max_size answer req c =
    Extends-trans (receive-Extends (append_body_callback max_size req) c) (
      bind-Extends (receive (append_body_callback max_size req) c) _
        λ req' c'. send-Extends (answer req') c')

pub answering-RanAlike :
    (max_size : ℕ) (answer : Request → Response) (req : Request) (flag : Bool) (c : Connection)
    → AreCalm c.events
    → Readable (c.session.m_parser, append_body_callback max_size req)
    → RanAlike (answering max_size answer req c) (answering max_size answer req (gathered flag c))
unfolding answering
answering-RanAlike max_size answer req flag c calm can =
    let req0 = append_body_callback max_size req in
    bind-RanAlike (receive req0 c) (receive req0 (gathered flag c)) _
      (receive-RanAlike flag req0 c calm can) (λ req' c'. send-Extends (answer req') c')
      λ req' c' flag' calm'.
        let (flag1, same) = send-gathered (answer req') flag' c' in
        unfold send write_out_bytes in (calm', (flag1, ap (done req') same))
