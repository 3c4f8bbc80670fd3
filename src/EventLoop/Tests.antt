-- ===== src/EventLoop/Tests.antt =====
-- The theorems on the loop, at a history of two sessions.
use dracon.Prelude.{
  ℕ, ◌+◌, ◌-◌, ◌*◌, ◌≤◌, ◌≡◌, ◌==◌, refl, arith, true, false, List, [], ◌∷◌, some, foldl,
  if◌then◌else◌,
}
use dracon.EventLoop.{
  EventLoop, never, scan_sessions, sets_timeout, wakes_up, contains, insert, notify_deadline,
  set_next_timeout, register_session, wakeup_session, act, check_timeouts,
}
use dracon.EventLoop.Deadlines.{Expects, IsTimely}
use dracon.EventLoop.Session.{
  Resumption, Operation, constructs, registers, checks, AreRegisteredInTime, processes, asks_wakeup,
  perform, new_loop, construct_session, wakeup, process_events,
}
use dracon.EventLoop.Timely.{loop-IsTimely}
use dracon.EventLoop.Due.{IsDue, IsTimedOut, loop-IsTimedOut}
use dracon.EventLoop.Order.{SessionEvent, session_events, of_order, AreAbove, session_events-sorted}
use dracon.EventLoop.Poll.{ms, poll_timeout, poll_timeout-bounds}

abbrev goes_on : Resumption
goes_on = record {
  running = true;
  throws = false;
  actions = sets_timeout 9000 ∷ wakes_up 1 ∷ [];
  removed = true;
}

abbrev history : List Operation
history =
    constructs 1 1000
    ∷ constructs 2 500
    ∷ registers true 2
    ∷ registers true 1
    ∷ processes false true goes_on 2
    ∷ asks_wakeup 1
    ∷ []

abbrev after : EventLoop
after = foldl perform new_loop history

history-AreRegisteredInTime : AreRegisteredInTime [] history
unfolding contains
history-AreRegisteredInTime = (refl, (refl, tt))

first-Expects : Expects after 1
unfolding perform construct_session set_next_timeout notify_deadline register_session insert
    contains process_events wakeup act wakeup_session
first-Expects = record { registered = refl; alive = refl; has_timeout = omega arith }

first-IsDue : IsDue 1500 1 after
unfolding perform construct_session set_next_timeout notify_deadline register_session insert
    contains process_events wakeup act wakeup_session
first-IsDue = record { expects = first-Expects; passed = omega arith }

fits_1 : after.next_timeout 1 ≡ 1000
unfolding perform construct_session set_next_timeout notify_deadline register_session insert
    contains process_events wakeup act wakeup_session
fits_1 = refl

loop-IsTimely_example : IsTimely after
loop-IsTimely_example = loop-IsTimely history history-AreRegisteredInTime

loop-IsTimedOut_example : IsTimedOut 1 (check_timeouts (λ _. []) (λ _. true) 1500 after)
loop-IsTimedOut_example =
    loop-IsTimedOut (λ _. []) (λ _. true) 1500 1 history history-AreRegisteredInTime first-IsDue

-- A scan between the construction and the registration of a session loses its deadline.
abbrev late : List Operation
late = constructs 1 1000 ∷ checks (λ _. []) (λ _. true) 1000 ∷ registers true 1 ∷ []

late_lost : (foldl perform new_loop late).m_earliest_deadline ≡ never
unfolding perform construct_session set_next_timeout notify_deadline register_session insert
    contains check_timeouts scan_sessions
late_lost = refl

poll_timeout-bounds_example :
    (wait : ℕ) × (poll_timeout 400 after ≡ some wait)
    × (after.m_earliest_deadline ≤ 400 + wait * ms)
    × (wait * ms ≤ (after.next_timeout 1 - 400) + 50 * ms)
poll_timeout-bounds_example =
    poll_timeout-bounds history 400 1 history-AreRegisteredInTime first-Expects
      (omega (arith, fits_1)) (omega (arith, fits_1))

abbrev order_of : ℕ → ℕ
order_of session = if session == 2 then 0 else 7

abbrev reported : List SessionEvent
reported = (1, 4) ∷ (2, 1) ∷ (3, 1) ∷ (2, 4) ∷ []

session_events-sorted_example :
    AreAbove order_of 0 (session_events order_of [] reported)
    × ((k : ℕ)
        → of_order order_of k (session_events order_of [] reported) ≡ of_order order_of k reported)
session_events-sorted_example = session_events-sorted order_of reported
