-- ===== src/EventLoop/Session.antt =====
-- src/server/server_session.h: class server_session and its base, as the loop calls them, and the
-- rest of the rounds of sessions_event_loop::loop. `running` is whether the coroutine of a session
-- has not ended, `throws` whether it throws when it is resumed.
use dracon.Prelude.{ℕ, Bool, true, false, List, [], ◌∷◌, foldl, if◌then◌else◌, ◌==◌, ◌≡◌}
use dracon.EventLoop.{
  EventLoop, contains, set_next_timeout, register_session, unregister_session, delete_later,
  wakeup_session, Action, act, timeout, check_timeouts, never,
}

abbrev pub with_deleting : (ℕ → Bool) → ℕ → Bool → ℕ → Bool
with_deleting is_deleting session b id = if id == session then b else is_deleting id

-- The constructor, with the deadline of its first timeout. init_session registers the session
-- after it, by register_session.
unfoldable pub construct_session : ℕ → ℕ → EventLoop → EventLoop
unfolding set_next_timeout
construct_session session deadline l =
    set_next_timeout session deadline
      (record l { is_deleting = with_deleting l.is_deleting session false })

-- The destructor.
unfoldable pub destroy_session : List Action → Bool → ℕ → EventLoop → EventLoop
unfolding act unregister_session
destroy_session actions removed session l = unregister_session removed session (
    foldl (act session) (record l { is_deleting = with_deleting l.is_deleting session true })
      actions)

pub record Resumption : Type 0 where
  pub running : Bool
  pub throws : Bool
  pub actions : List Action
  pub removed : Bool

-- server_session::wakeup.
unfoldable pub wakeup : Resumption → ℕ → EventLoop → EventLoop
unfolding act delete_later
wakeup r session l =
    if r.running
    then (let l' = foldl (act session) l r.actions in
        if r.throws then delete_later r.removed session l' else l')
    else delete_later r.removed session l

-- server_session::process_events, where `failed` is whether an event is an error or a hangup, and
-- `ready` whether one is input or output.
unfoldable pub process_events : Bool → Bool → Resumption → ℕ → EventLoop → EventLoop
unfolding timeout wakeup delete_later
process_events failed ready r session l =
    if failed
    then timeout r.actions r.removed session l
    else if ready
    then wakeup r session l
    else delete_later r.removed session l

-- The sessions that were woken up, of which only the registered ones are resumed.
unfoldable pub wake_all : (ℕ → Resumption) → List ℕ → EventLoop → EventLoop
unfolding wakeup contains
wake_all r [] l = l
wake_all r (session ∷ sessions) l =
    if contains session l.m_sessions
    then wake_all r sessions (wakeup (r session) session l)
    else wake_all r sessions l

unfoldable pub resume_woken : (ℕ → Resumption) → EventLoop → EventLoop
unfolding wake_all
resume_woken r l = wake_all r l.m_wakeup_sessions (record l { m_wakeup_sessions = [] })

-- The sessions that were to be deleted later.
unfoldable pub delete_all : (ℕ → Resumption) → List ℕ → EventLoop → EventLoop
unfolding destroy_session
delete_all r [] l = l
delete_all r (session ∷ sessions) l =
    let q = r session in delete_all r sessions (destroy_session q.actions q.removed session l)

unfoldable pub delete_pending : (ℕ → Resumption) → EventLoop → EventLoop
unfolding delete_all
delete_pending r l =
    delete_all r l.m_delete_later_objects (record l { m_delete_later_objects = [] })

-- What happens to a loop: the server's thread constructs a session and then registers it, any thread
-- asks for a wakeup, and its own thread does the parts of a round, also between the two.
pub data Operation : Type 0 where
  constructs : ℕ → ℕ → Operation
  registers : Bool → ℕ → Operation
  asks_wakeup : ℕ → Operation
  processes : Bool → Bool → Resumption → ℕ → Operation
  resumes : (ℕ → Resumption) → Operation
  checks : (ℕ → List Action) → (ℕ → Bool) → ℕ → Operation
  deletes : (ℕ → Resumption) → Operation

unfoldable pub perform : EventLoop → Operation → EventLoop
unfolding construct_session register_session process_events resume_woken check_timeouts
    delete_pending wakeup_session
perform l (constructs session deadline) = construct_session session deadline l
perform l (registers added session) = register_session added session l
perform l (asks_wakeup session) = wakeup_session session l
perform l (processes failed ready r session) = process_events failed ready r session l
perform l (resumes r) = resume_woken r l
perform l (checks actions removed now) = check_timeouts actions removed now l
perform l (deletes r) = delete_pending r l

-- Every registration follows on the construction of its session with no scan for timeouts in
-- between: `fresh` are the sessions that were constructed since the last scan.
abbrev pub AreRegisteredInTime : List ℕ → List Operation → Type 0
AreRegisteredInTime fresh [] = Unit
AreRegisteredInTime fresh (constructs session deadline ∷ ops) =
    AreRegisteredInTime (session ∷ fresh) ops
AreRegisteredInTime fresh (registers added session ∷ ops) =
    (contains session fresh ≡ true) × AreRegisteredInTime fresh ops
AreRegisteredInTime fresh (checks actions removed now ∷ ops) = AreRegisteredInTime [] ops
AreRegisteredInTime fresh (asks_wakeup session ∷ ops) = AreRegisteredInTime fresh ops
AreRegisteredInTime fresh (processes failed ready r session ∷ ops) = AreRegisteredInTime fresh ops
AreRegisteredInTime fresh (resumes r ∷ ops) = AreRegisteredInTime fresh ops
AreRegisteredInTime fresh (deletes r ∷ ops) = AreRegisteredInTime fresh ops

abbrev pub new_loop : EventLoop
new_loop = record {
  m_sessions = [];
  m_active_sessions = 0;
  m_delete_later_objects = [];
  m_wakeup_sessions = [];
  m_earliest_deadline = never;
  next_timeout = λ id. 0;
  is_deleting = λ id. false;
}
