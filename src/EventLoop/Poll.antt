-- ===== src/EventLoop/Poll.antt =====
-- src/server/sessions_event_loop.cpp: how long a round of the loop waits for events.
use dracon.Prelude.{
  ℕ, ◌+◌, ◌-◌, ◌*◌, ◌/◌, ◌%◌, ◌^◌, ltb, true, [], ◌≤◌, ◌<◌, ◌≡◌, refl, arith, false, List, Option,
  none, some, leb, ◌==◌, if◌then◌else◌, foldl, max, Bool-cases, inl, inr,
}
use dracon.EventLoop.{EventLoop, never}
use dracon.EventLoop.Deadlines.{Expects}
use dracon.EventLoop.Session.{Operation, AreRegisteredInTime, perform, new_loop}
use dracon.EventLoop.Timely.{loop-IsTimely}

-- Nanoseconds in a millisecond.
abbrev pub ms : ℕ
ms = 1000000

-- `duration_cast<ms>(earliest - now) + 50ms`, which rounds towards zero, where it is not negative.
unfoldable pub until_deadline : ℕ → ℕ → ℕ
until_deadline now earliest =
    if leb now earliest then (earliest - now) / ms + 50 else 50 - (now - earliest) / ms

-- `timeout.count()` as the int that epoll_wait takes, for a count that is not negative; none for a
-- negative int, with which epoll_wait waits for ever.
unfoldable pub epoll_timeout : ℕ → Option ℕ
epoll_timeout count = let k = count % 2 ^ 32 in if ltb k (2 ^ 31) then some k else none

-- The timeout for epoll_wait in milliseconds, which is -1 where there is no deadline; none where it
-- waits for ever.
unfoldable pub poll_timeout : ℕ → EventLoop → Option ℕ
unfolding until_deadline epoll_timeout
poll_timeout now l =
    if l.m_earliest_deadline == never
    then none
    else epoll_timeout (max 1 (until_deadline now l.m_earliest_deadline))

-- The longest time to a deadline, 50 milliseconds and one less than an int holds.
abbrev pub longest : ℕ
longest = (2 ^ 31 - 51) * ms

epoll_timeout_fits : (n : ℕ) → n < 2 ^ 31 → epoll_timeout n ≡ some n
unfolding epoll_timeout
epoll_timeout_fits n h =
    let small : n % 2 ^ 32 ≡ n = omega (arith, h) in
    let fits : ltb n (2 ^ 31) ≡ true = ground (arith, h) in rw (small, fits) refl

wait_fits :
    (now earliest : ℕ) → earliest ≤ now + longest → max 1 (until_deadline now earliest) < 2 ^ 31
unfolding until_deadline
wait_fits now earliest h = elim (Bool-cases (leb now earliest)) [
  | inl future ↦ rw future (ground (arith, future, h))
  | inr past ↦ rw past (ground (arith, past))
]

wait_long_enough : (now earliest : ℕ) → earliest ≤ now + max 1 (until_deadline now earliest) * ms
unfolding until_deadline
wait_long_enough now earliest = elim (Bool-cases (leb now earliest)) [
  | inl future ↦ rw future (ground (arith, future))
  | inr past ↦ rw past (ground (arith, past))
]

wait_short_enough :
    (now earliest : ℕ) → max 1 (until_deadline now earliest) * ms ≤ (earliest - now) + 50 * ms
unfolding until_deadline
wait_short_enough now earliest = elim (Bool-cases (leb now earliest)) [
  | inl future ↦ rw future (ground (arith, future))
  | inr past ↦ rw past (ground (arith, past))
]

-- Whatever happened to the loop since it was new, so long as every session was registered with no
-- scan for timeouts between its construction and its registration: where a session with a timeout
-- is registered and not being destroyed, and the timeout is at most 2147483597 milliseconds (almost
-- 25 days) ahead, the loop does not wait for ever. Once it has waited the earliest deadline has
-- come, and it waits at most 50 milliseconds more than is left until the timeout of the session.
pub poll_timeout-bounds :
    (ops : List Operation) (now id : ℕ)
    → AreRegisteredInTime [] ops
    → Expects (foldl perform new_loop ops) id
    → (foldl perform new_loop ops).next_timeout id < never
    → (foldl perform new_loop ops).next_timeout id ≤ now + longest
    → (wait : ℕ) × (poll_timeout now (foldl perform new_loop ops) ≡ some wait)
      × ((foldl perform new_loop ops).m_earliest_deadline ≤ now + wait * ms)
      × (wait * ms ≤ ((foldl perform new_loop ops).next_timeout id - now) + 50 * ms)
unfolding poll_timeout
poll_timeout-bounds ops now id in_time x fits near =
    let l = foldl perform new_loop ops in
    let timely = loop-IsTimely ops in_time id x in
    let some_deadline : (l.m_earliest_deadline == never) ≡ false = ground (arith, timely, fits) in
    let long = wait_long_enough now l.m_earliest_deadline in
    let short = wait_short_enough now l.m_earliest_deadline in
    let small = wait_fits now l.m_earliest_deadline (omega (arith, timely, near)) in
    (
      max 1 (until_deadline now l.m_earliest_deadline),
      rw some_deadline (epoll_timeout_fits _ small),
      long,
      omega (arith, short, timely),
    )
