-- ===== src/EventLoop.antt =====
-- src/server/sessions_event_loop.cpp: class sessions_event_loop, as its thread runs it, and the part
-- of class server_session (src/server/server_session.h) that it calls. A session is a number, a time
-- a count of nanoseconds, 0 for none. What the coroutine of a session does when it is resumed is a
-- list of actions.
pub mod Sets
pub mod Effects
pub mod Deadlines
pub mod Scan
pub mod Session
pub mod Published
pub mod Keeps
pub mod Timely
pub mod Due
pub mod Order
pub mod Poll
mod Tests
use dracon.Prelude.{
  ℕ, ◌+◌, ◌-◌, ◌*◌, ◌^◌, Bool, true, false, not, List, [], ◌∷◌, ◌++◌, Option, none, some, ltb, leb,
  ◌==◌, if◌then◌else◌, foldl, min,
}

-- time_point::max().
abbrev pub never : ℕ
never = 2 ^ 63 - 1

pub record EventLoop : Type 0 where
  pub m_sessions : List ℕ
  pub m_active_sessions : ℕ
  pub m_delete_later_objects : List ℕ
  pub m_wakeup_sessions : List ℕ
  pub m_earliest_deadline : ℕ
  -- Of the sessions: next_timeout(), and is_deleting().
  pub next_timeout : ℕ → ℕ
  pub is_deleting : ℕ → Bool

-- Sets of sessions.
unfoldable pub contains : ℕ → List ℕ → Bool
contains x [] = false
contains x (y ∷ ys) = if y == x then true else contains x ys

unfoldable pub insert : ℕ → List ℕ → List ℕ
insert x xs = if contains x xs then xs else x ∷ xs

unfoldable pub remove : ℕ → List ℕ → List ℕ
remove x [] = []
remove x (y ∷ ys) = let rest = remove x ys in if y == x then rest else y ∷ rest

unfoldable pub notify_deadline : ℕ → EventLoop → EventLoop
notify_deadline deadline l =
    if deadline == 0
    then l
    else if ltb deadline l.m_earliest_deadline
    then record l { m_earliest_deadline = deadline }
    else l

abbrev pub with_timeout : (ℕ → ℕ) → ℕ → ℕ → ℕ → ℕ
with_timeout next_timeout session deadline id = if id == session then deadline else next_timeout id

-- A session sets its next timeout.
unfoldable pub set_next_timeout : ℕ → ℕ → EventLoop → EventLoop
set_next_timeout session deadline l =
    notify_deadline deadline
      (record l { next_timeout = with_timeout l.next_timeout session deadline })

-- `added` is whether epoll_ctl succeeds; if not it throws.
unfoldable pub register_session : Bool → ℕ → EventLoop → EventLoop
register_session added session l =
    let l' = record l { m_sessions = insert session l.m_sessions } in
    if added then record l' { m_active_sessions = l'.m_active_sessions + 1 } else l'

-- `removed` is whether epoll_ctl succeeds; if not it throws, which delete_later ignores.
unfoldable pub unregister_session : Bool → ℕ → EventLoop → EventLoop
unregister_session removed session l =
    if not (contains session l.m_sessions)
    then l
    else (let l' = record l { m_sessions = remove session l.m_sessions } in
        if removed then record l' { m_active_sessions = l'.m_active_sessions - 1 } else l')

unfoldable pub delete_later : Bool → ℕ → EventLoop → EventLoop
unfolding unregister_session
delete_later removed session l =
    if l.is_deleting session
    then l
    else (let l' = unregister_session removed session l in
        record l' { m_delete_later_objects = insert session l'.m_delete_later_objects })

unfoldable pub wakeup_session : ℕ → EventLoop → EventLoop
wakeup_session session l = record l { m_wakeup_sessions = insert session l.m_wakeup_sessions }

-- What a session may do to the loop while it runs: set its timeout, or wake a session up.
pub data Action : Type 0 where
  sets_timeout : ℕ → Action
  wakes_up : ℕ → Action

unfoldable pub act : ℕ → EventLoop → Action → EventLoop
unfolding set_next_timeout wakeup_session
act session l (sets_timeout deadline) = set_next_timeout session deadline l
act session l (wakes_up other) = wakeup_session other l

-- server_session::timeout: the coroutine runs to its end, then the session is deleted later.
unfoldable pub timeout : List Action → Bool → ℕ → EventLoop → EventLoop
unfolding act
timeout actions removed session l = delete_later removed session (foldl (act session) l actions)

-- The loop over the sessions that were copied, with `earliest`. `actions` is what a session that
-- is timed out does, `removed` whether epoll_ctl succeeds for it.
unfoldable pub scan_sessions :
    (ℕ → List Action) → (ℕ → Bool) → ℕ → List ℕ → ℕ → EventLoop → EventLoop
unfolding notify_deadline timeout
scan_sessions actions removed now [] earliest l = notify_deadline earliest l
scan_sessions actions removed now (session ∷ sessions) earliest l =
    let session_timeout = l.next_timeout session in
    let skipped = scan_sessions actions removed now sessions earliest l in
    let timed_out =
      scan_sessions actions removed now sessions earliest
        (timeout (actions session) (removed session) session l) in
    let later = scan_sessions actions removed now sessions (min earliest session_timeout) l in
    if session_timeout == 0 then skipped else if leb session_timeout now then timed_out else later

-- The scan for timeouts in a round of the loop, only when the earliest deadline is due.
unfoldable pub check_timeouts : (ℕ → List Action) → (ℕ → Bool) → ℕ → EventLoop → EventLoop
unfolding scan_sessions
check_timeouts actions removed now l =
    if leb l.m_earliest_deadline now
    then scan_sessions actions removed now l.m_sessions never
        (record l { m_earliest_deadline = never })
    else l
