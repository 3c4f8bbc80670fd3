-- ===== src/EventLoop/Keeps.antt =====
-- What each operation on a loop keeps of the earliest deadline.
use dracon.Prelude.{
  ℕ, ◌≤◌, ◌≡◌, ◌≢◌, ◌⊎◌, inl, inr, refl, sym, arith, Bool, true, false, List, [], ◌∷◌, leb, ◌==◌,
  if◌then◌else◌, foldl, Bool-cases, not_both,
}
use dracon.EventLoop.{
  EventLoop, never, contains, register_session, unregister_session, delete_later, Action, act,
  timeout, check_timeouts,
}
use dracon.EventLoop.Sets.{contains-insert, contains-remove}
use dracon.EventLoop.Effects.{delete_later-Deleted, unregister_session-Unregistered}
use dracon.EventLoop.Deadlines.{Expects, IsTimely, acts-Covered}
use dracon.EventLoop.Scan.{scan_sessions-IsTimely}
use dracon.EventLoop.Published.{if_both}
use dracon.EventLoop.Session.{
  with_deleting, destroy_session, Resumption, wakeup, process_events, wake_all, delete_all,
}

-- No more sessions expect anything, and their timeouts are the same.
record Fewer (l m : EventLoop) : Type 0 where
  fewer : (id : ℕ) → contains id m.m_sessions ≡ true → contains id l.m_sessions ≡ true
  alive : (id : ℕ) → m.is_deleting id ≡ false → l.is_deleting id ≡ false
  same_timeout : m.next_timeout ≡ l.next_timeout
  same_earliest : m.m_earliest_deadline ≡ l.m_earliest_deadline

Fewer-IsTimely : (l m : EventLoop) → Fewer l m → IsTimely l → IsTimely m
Fewer-IsTimely l m f t = λ id x.
    let before : Expects l id = record {
      registered = f.fewer id x.registered;
      alive = f.alive id x.alive;
      has_timeout = rw f.same_timeout at x.has_timeout;
    } in
    rw (f.same_timeout, f.same_earliest) (t id before)

pub unchanged-IsTimely :
    (l m : EventLoop)
    → m.m_sessions ≡ l.m_sessions
    → m.is_deleting ≡ l.is_deleting
    → m.next_timeout ≡ l.next_timeout
    → m.m_earliest_deadline ≡ l.m_earliest_deadline
    → IsTimely l
    → IsTimely m
unchanged-IsTimely l m sessions deleting timeout earliest = Fewer-IsTimely l m (record {
  fewer = λ id e. rw sessions at e;
  alive = λ id e. rw deleting at e;
  same_timeout = timeout;
  same_earliest = earliest;
})

delete_later-IsTimely :
    (removed : Bool) (session : ℕ) (l : EventLoop)
    → IsTimely l
    → IsTimely (delete_later removed session l)
delete_later-IsTimely removed session l =
    let d = delete_later-Deleted removed session l in
    Fewer-IsTimely l (delete_later removed session l) (record {
      fewer = d.fewer;
      alive = λ id e. rw d.same_deleting at e;
      same_timeout = d.same_timeout;
      same_earliest = d.same_earliest;
    })

unregister_session-IsTimely :
    (removed : Bool) (session : ℕ) (l : EventLoop)
    → IsTimely l
    → IsTimely (unregister_session removed session l)
unregister_session-IsTimely removed session l =
    let u = unregister_session-Unregistered removed session l in
    Fewer-IsTimely l (unregister_session removed session l) (record {
      fewer = λ id e. contains-remove session id l.m_sessions (rw u.erased at e);
      alive = λ id e. rw u.same_deleting at e;
      same_timeout = u.same_timeout;
      same_earliest = u.same_earliest;
    })

acts-IsTimely :
    (session : ℕ) (l : EventLoop) (actions : List Action)
    → IsTimely l
    → IsTimely (foldl (act session) l actions)
unfolding contains
acts-IsTimely session l actions t = λ id x.
    let m = foldl (act session) l actions in
    elim (acts-Covered session [] m.m_earliest_deadline l actions (λ i y. inr (inr (t i y))) id x) [
      | inl in_none ↦ absurd (not_both (sym in_none))
      | inr (inl le) ↦ le
      | inr (inr le) ↦ le
    ]

timeout-IsTimely :
    (actions : List Action) (removed : Bool) (session : ℕ) (l : EventLoop)
    → IsTimely l
    → IsTimely (timeout actions removed session l)
unfolding timeout
timeout-IsTimely actions removed session l t =
    delete_later-IsTimely removed session (foldl (act session) l actions)
      (acts-IsTimely session l actions t)

wakeup-IsTimely :
    (r : Resumption) (session : ℕ) (l : EventLoop) → IsTimely l → IsTimely (wakeup r session l)
unfolding wakeup
wakeup-IsTimely r session l t =
    let m = foldl (act session) l r.actions in
    let ran = acts-IsTimely session l r.actions t in
    if_both IsTimely r.running (if r.throws then delete_later r.removed session m else m)
      (delete_later r.removed session l)
      (if_both IsTimely r.throws (delete_later r.removed session m) m
        (delete_later-IsTimely r.removed session m ran) ran)
      (delete_later-IsTimely r.removed session l t)

pub process_events-IsTimely :
    (failed ready : Bool) (r : Resumption) (session : ℕ) (l : EventLoop)
    → IsTimely l
    → IsTimely (process_events failed ready r session l)
unfolding process_events
process_events-IsTimely true ready r session l t = timeout-IsTimely r.actions r.removed session l t
process_events-IsTimely false true r session l t = wakeup-IsTimely r session l t
process_events-IsTimely false false r session l t = delete_later-IsTimely r.removed session l t

pub wake_all-IsTimely :
    (r : ℕ → Resumption) (sessions : List ℕ) (l : EventLoop)
    → IsTimely l
    → IsTimely (wake_all r sessions l)
unfolding wake_all
wake_all-IsTimely r [] l t = t
wake_all-IsTimely r (s ∷ rest) l t =
    if_both IsTimely (contains s l.m_sessions) (wake_all r rest (wakeup (r s) s l))
      (wake_all r rest l)
      (wake_all-IsTimely r rest (wakeup (r s) s l) (wakeup-IsTimely (r s) s l t))
      (wake_all-IsTimely r rest l t)

deleting_before :
    (f : ℕ → Bool) (session id : ℕ) → with_deleting f session true id ≡ false → f id ≡ false
deleting_before f session id e = ground (arith, e)

destroy_session-IsTimely :
    (actions : List Action) (removed : Bool) (session : ℕ) (l : EventLoop)
    → IsTimely l
    → IsTimely (destroy_session actions removed session l)
unfolding destroy_session
destroy_session-IsTimely actions removed session l t =
    let marked : EventLoop = record l { is_deleting = with_deleting l.is_deleting session true } in
    let m : IsTimely marked =
      Fewer-IsTimely l marked
        (record {
          fewer = λ id e. e;
          alive = λ id e. deleting_before l.is_deleting session id e;
          same_timeout = refl;
          same_earliest = refl;
        })
        t in
    unregister_session-IsTimely removed session (foldl (act session) marked actions)
      (acts-IsTimely session marked actions m)

pub delete_all-IsTimely :
    (r : ℕ → Resumption) (sessions : List ℕ) (l : EventLoop)
    → IsTimely l
    → IsTimely (delete_all r sessions l)
unfolding delete_all
delete_all-IsTimely r [] l t = t
delete_all-IsTimely r (s ∷ rest) l t =
    delete_all-IsTimely r rest (destroy_session (r s).actions (r s).removed s l)
      (destroy_session-IsTimely (r s).actions (r s).removed s l t)

pub check_timeouts-IsTimely :
    (actions : ℕ → List Action) (removed : ℕ → Bool) (now : ℕ) (l : EventLoop)
    → IsTimely l
    → IsTimely (check_timeouts actions removed now l)
unfolding check_timeouts
check_timeouts-IsTimely actions removed now l t =
    elim (Bool-cases (leb l.m_earliest_deadline now)) [
      | inl due ↦
          rw (due, check_timeouts)
            (scan_sessions-IsTimely actions removed now l.m_sessions never
              (record l { m_earliest_deadline = never }) (omega arith) (λ id x. inl x.registered))
      | inr early ↦ rw (early, check_timeouts) t
    ]

pub register_session-IsTimely :
    (added : Bool) (session : ℕ) (l : EventLoop)
    → ((id : ℕ)
        → (contains id l.m_sessions ≡ true) ⊎ (session ≡ id)
        → l.is_deleting id ≡ false
        → l.next_timeout id ≢ 0
        → l.m_earliest_deadline ≤ l.next_timeout id)
    → IsTimely (register_session added session l)
unfolding register_session
register_session-IsTimely true session l h =
    λ id x. h id (contains-insert session id l.m_sessions x.registered) x.alive x.has_timeout
register_session-IsTimely false session l h =
    λ id x. h id (contains-insert session id l.m_sessions x.registered) x.alive x.has_timeout

pub same_or_before :
    (l : EventLoop) (session id : ℕ)
    → (id == session) ≡ false
    → (contains id l.m_sessions ≡ true) ⊎ (session ≡ id)
    → contains id l.m_sessions ≡ true
same_or_before l session id ne (inl there) = there
same_or_before l session id ne (inr e) = absurd (ground (arith, ne, e))
