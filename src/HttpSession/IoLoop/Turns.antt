-- ===== src/HttpSession/IoLoop/Turns.antt =====
-- A turn of the loop of `io_loop` where bytes are still to come, against one where they are all
-- pending.
use dracon.Prelude.{
  ℕ, zero, suc, ◌^◌, ◌<◌, ◌≡◌, inl, inr, refl, sym, Bool, true, false, Bytes, if◌then◌else◌,
  Bool-cases, ◌||◌, subst,
}
use dracon.Http.Request.{Request, fresh_request, head_parsed, append_body_callback, is_completed}
use dracon.HttpParser.Head.{parse_head}
use dracon.HttpSession.{Ended, complete, blocked, threw, read_headers}
use dracon.HttpSession.Connection.{
  Connection, Ran, done, waits, throws, write_out_bytes, after_read,
}
use dracon.HttpSession.Feeding.{AreCalm, AsOneCall}
use dracon.HttpSession.Reading.{read_headers-AsOneCall}
use dracon.HttpSession.IoLoop.{
  Created, Served, closed, waiting, failed, no_fuel, is_zero, when_ran, accept_keep_alive,
  after_session, serve, go_round, respond, next_turn, run_session,
}
use dracon.HttpSession.IoLoop.Once.{Readable, head_Readable}
use dracon.HttpSession.IoLoop.Alike.{
  gathered, Extends, same-Extends, Extends-trans, ran_out, RanAlike, after_read-Extends,
  headers-RanAlike,
}
use dracon.HttpSession.IoLoop.Plans.{
  Plan, replies, declines, raises, answering, session_for, IsLimited, answering-Extends,
  answering-RanAlike,
}

abbrev pub served_out : Served → Bytes
served_out (closed c) = c.out
served_out (waiting c) = c.out
served_out (failed failure c) = c.out
served_out (no_fuel c) = c.out

-- The second loop ends as the first one, with the same bytes sent; where the first one throws, the
-- second has sent that much at least.
abbrev pub Alike : Served → Served → Type 0
Alike (closed c) s = (c' : Connection) × (s ≡ closed c') × (c'.out ≡ c.out)
Alike (waiting c) s = (c' : Connection) × (s ≡ waiting c') × (c'.out ≡ c.out)
Alike (failed failure c) s = Extends c.out (served_out s)
Alike (no_fuel c) s = Unit

when_ran-Extends :
    {A : Type 0} (r : Ran A) (next : A → Connection → Served)
    → ((a : A) (c : Connection) → Extends c.out (served_out (next a c)))
    → Extends (ran_out r) (served_out (when_ran r next))
when_ran-Extends (done a c) next f = f a c
when_ran-Extends (waits c) next f = same-Extends refl
when_ran-Extends (throws failure c) next f = same-Extends refl

-- What is known of the requests that a run ends with.
abbrev RanWith : {A : Type 0} → (A → Connection → Type 0) → Ran A → Type 0
RanWith P (done a c) = P a c
RanWith P (waits c) = Unit
RanWith P (throws failure c) = Unit

RanWith-Unit : {A : Type 0} (r : Ran A) → RanWith (λ _ _. Unit) r
RanWith-Unit (done a c) = tt
RanWith-Unit (waits c) = tt
RanWith-Unit (throws failure c) = tt

when_ran-Alike :
    {A : Type 0} (P : A → Connection → Type 0) (r r' : Ran A) (next : A → Connection → Served)
    → RanAlike r r'
    → RanWith P r
    → ((a : A) (c : Connection) → Extends c.out (served_out (next a c)))
    → ((a : A) (c : Connection) (flag : Bool)
        → AreCalm c.events
        → P a c
        → Alike (next a c) (next a (gathered flag c)))
    → Alike (when_ran r next) (when_ran r' next)
when_ran-Alike P (done a c) r' next (calm, (flag, same)) p f g = rw same (g a c flag calm p)
when_ran-Alike P (waits c) r' next (c', same, out) p f g = (c', rw same refl, out)
when_ran-Alike P (throws failure c) r' next h p f g = Extends-trans h (when_ran-Extends r' next f)

-- The body of the request can be read, with any limit.
abbrev IsNew : Request → Connection → Type 0
IsNew req c =
    (max_size : ℕ)
    → max_size < 2 ^ 64
    → Readable (c.session.m_parser, append_body_callback max_size req)

headers-IsNew :
    (c : Connection) (all : Bytes) (e : Ended)
    → AsOneCall parse_head head_parsed all (c.session.m_parser, fresh_request) e
    → RanWith IsNew (after_read c e)
headers-IsNew c all (complete se req es) (n, one, fin, left) =
    λ max_size fits. head_Readable max_size all c.session.m_parser (se.m_parser, req) n fits one fin
headers-IsNew c all (blocked se req) h = tt
headers-IsNew c all (threw failure se) h = tt

after_session-out : (req : Request) (c : Connection) → (after_session req c).out ≡ c.out
unfolding after_session
after_session-out req c = elim (Bool-cases (is_completed req.m_state)) [
  | inl read ↦ rw read refl
  | inr unread ↦ rw unread refl
]

after_session-gathered :
    (req : Request) (flag : Bool) (c : Connection)
    → after_session req (gathered flag c) ≡ gathered flag (after_session req c)
unfolding after_session
after_session-gathered req flag c = elim (Bool-cases (is_completed req.m_state)) [
  | inl read ↦ rw (after_session, read) refl
  | inr unread ↦ rw (after_session, unread) refl
]

after_session-calm :
    (req : Request) (c : Connection) → AreCalm c.events → AreCalm (after_session req c).events
unfolding after_session
after_session-calm req c calm = elim (Bool-cases (is_completed req.m_state)) [
  | inl read ↦ rw read calm
  | inr unread ↦ rw unread calm
]

if_Extends :
    (xs : Bytes) (b : Bool) (s t : Served)
    → Extends xs (served_out s)
    → Extends xs (served_out t)
    → Extends xs (served_out (if b then s else t))
if_Extends xs true s t h g = h
if_Extends xs false s t h g = g

if_Alike :
    (b : Bool) (s t s' t' : Served)
    → Alike s s'
    → Alike t t'
    → Alike (if b then s else t) (if b then s' else t')
if_Alike true s t s' t' h g = h
if_Alike false s t s' t' h g = g

-- The next turn of the loop sends more.
abbrev TurnsExtend : (Connection → Served) → Type 0
TurnsExtend again = (c : Connection) → Extends c.out (served_out (again c))

go_round-Extends :
    (again : Connection → Served) (req : Request) (c : Connection)
    → TurnsExtend again
    → Extends c.out (served_out (go_round again req c))
unfolding go_round
go_round-Extends again req c turns =
    let c' = after_session req c in
    let same : Extends c.out c'.out = same-Extends (after_session-out req c) in
    if_Extends c.out (c'.interrupted || is_zero c'.session.m_keep_alive) (closed c') (again c') same
      (Extends-trans same (turns c'))

-- The next turn of the loop does alike.
abbrev TurnsAlike : (Connection → Served) → Type 0
TurnsAlike again =
    (c : Connection) (flag : Bool) → AreCalm c.events → Alike (again c) (again (gathered flag c))

go_round-Alike :
    (again : Connection → Served) (req : Request) (c : Connection) (flag : Bool)
    → TurnsAlike again
    → AreCalm c.events
    → Alike (go_round again req c) (go_round again req (gathered flag c))
unfolding go_round
go_round-Alike again req c flag turns calm =
    let c' = after_session req c in
    subst (λ x. Alike (next_turn again c') (next_turn again x))
      (sym (after_session-gathered req flag c))
      (if_Alike (c'.interrupted || is_zero c'.session.m_keep_alive) (closed c') (again c')
        (closed (gathered flag c')) (again (gathered flag c')) (_, refl, refl)
        (turns c' flag (after_session-calm req c calm)))

run_session-Extends :
    (keep_alive_timeout : ℕ) (again : Connection → Served) (req : Request) (c : Connection)
    (plan : Plan)
    → TurnsExtend again
    → Extends c.out (served_out (run_session keep_alive_timeout again req c (session_for plan)))
unfolding run_session write_out_bytes
run_session-Extends keep_alive_timeout again req c (replies max_size answer) turns =
    Extends-trans (answering-Extends max_size answer req _) (
      when_ran-Extends (answering max_size answer req _) (go_round again)
        λ req' c'. go_round-Extends again req' c' turns)
run_session-Extends keep_alive_timeout again req c declines turns = record {
  more = _;
  is_appended = refl;
}
run_session-Extends keep_alive_timeout again req c (raises failure) turns = same-Extends refl

run_session-Alike :
    (keep_alive_timeout : ℕ) (again : Connection → Served) (req : Request) (c : Connection)
    (flag : Bool) (plan : Plan)
    → TurnsExtend again
    → TurnsAlike again
    → IsLimited plan
    → AreCalm c.events
    → IsNew req c
    → Alike
        (run_session keep_alive_timeout again req c (session_for plan))
        (run_session keep_alive_timeout again req (gathered flag c) (session_for plan))
unfolding run_session write_out_bytes
run_session-Alike keep_alive_timeout again req c flag (replies max_size answer) more turns limited
      calm new =
    when_ran-Alike (λ _ _. Unit) _ _ (go_round again)
      (answering-RanAlike max_size answer req flag _ calm (new max_size limited)) (RanWith-Unit _)
      (λ req' c'. go_round-Extends again req' c' more)
      λ req' c' flag' calm' _. go_round-Alike again req' c' flag' turns calm'
run_session-Alike keep_alive_timeout again req c flag declines more turns limited calm new =
    (_, refl, refl)
run_session-Alike keep_alive_timeout again req c flag (raises failure) more turns limited calm new =
    same-Extends refl

abbrev pub create : (Request → Plan) → Request → Created
create plan req = session_for (plan req)

module _ (keep_alive_timeout : ℕ) (plan : Request → Plan) where
  respond-Extends :
      (again : Connection → Served) (req : Request) (c : Connection)
      → TurnsExtend again
      → Extends c.out (served_out (respond keep_alive_timeout (create plan) again req c))
  unfolding respond accept_keep_alive
  respond-Extends again req c turns =
      run_session-Extends keep_alive_timeout again req (accept_keep_alive keep_alive_timeout req c)
        (plan req) turns

  serve-Extends : (fuel : ℕ) → TurnsExtend (serve keep_alive_timeout (create plan) fuel)
  unfolding serve
  serve-Extends zero c = same-Extends refl
  serve-Extends (suc fuel) c =
      Extends-trans (after_read-Extends c (read_headers c.events c.session)) (
        when_ran-Extends (after_read c (read_headers c.events c.session)) _ λ req c1.
          respond-Extends (serve keep_alive_timeout (create plan) fuel) req c1 (serve-Extends fuel))

  pub serve-Alike :
      ((req : Request) → IsLimited (plan req))
      → (fuel : ℕ) → TurnsAlike (serve keep_alive_timeout (create plan) fuel)
  unfolding serve
  serve-Alike limited zero c flag calm = tt
  serve-Alike limited (suc fuel) c flag calm =
      when_ran-Alike IsNew _ _ _ (headers-RanAlike flag c calm)
        (headers-IsNew c _ _ (read_headers-AsOneCall c.events c.session calm))
        (λ req c1.
          respond-Extends (serve keep_alive_timeout (create plan) fuel) req c1 (serve-Extends fuel))
        λ req c1 flag1 calm1 new.
          unfold respond accept_keep_alive in
          run_session-Alike keep_alive_timeout (serve keep_alive_timeout (create plan) fuel) req
            (accept_keep_alive keep_alive_timeout req c1) flag1 (plan req) (serve-Extends fuel)
            (serve-Alike limited fuel) (limited req) calm1 new
