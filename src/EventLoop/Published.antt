-- ===== src/EventLoop/Published.antt =====
-- The deadline that a session published when it was constructed: until the loop scans for timeouts,
-- nothing that happens to the loop loses it.
use dracon.Prelude.{
  ℕ, ◌≤◌, ◌≡◌, ◌≢◌, ap, ◌∙◌, arith, Bool, true, false, List, [], ◌∷◌, ◌==◌, foldl, if◌then◌else◌,
  Bool-cases, inl, inr,
}
use dracon.EventLoop.{
  EventLoop, contains, set_next_timeout, register_session, unregister_session, delete_later,
  wakeup_session, Action, sets_timeout, wakes_up, act, timeout,
}
use dracon.EventLoop.Effects.{
  set_next_timeout-TimeoutSet, delete_later-Deleted, unregister_session-Unregistered,
}
use dracon.EventLoop.Scan.{same_id}
use dracon.EventLoop.Session.{
  with_deleting, construct_session, destroy_session, Resumption, wakeup, process_events, wake_all,
  delete_all,
}

pub if_both :
    (P : EventLoop → Type 0) (b : Bool) (l m : EventLoop) → P l → P m → P (if b then l else m)
if_both P true l m p q = p
if_both P false l m p q = q

-- The timeout of a session is not before the earliest deadline.
abbrev pub IsPublished : ℕ → EventLoop → Type 0
IsPublished id l = l.next_timeout id ≢ 0 → l.m_earliest_deadline ≤ l.next_timeout id

module _ (id : ℕ) where
  same-IsPublished :
      (l m : EventLoop)
      → m.next_timeout ≡ l.next_timeout
      → m.m_earliest_deadline ≡ l.m_earliest_deadline
      → IsPublished id l
      → IsPublished id m
  same-IsPublished l m timeout earliest p = rw (timeout, earliest) p

  pub set_next_timeout-IsPublished :
      (session deadline : ℕ) (l : EventLoop)
      → IsPublished id l
      → IsPublished id (set_next_timeout session deadline l)
  set_next_timeout-IsPublished session deadline l p nz =
      let m = set_next_timeout session deadline l in
      let s = set_next_timeout-TimeoutSet session deadline l in
      elim (Bool-cases (id == session)) [
        | inl own ↦
            let o : m.next_timeout id ≡ deadline =
              ap m.next_timeout (same_id id session own) ∙ s.own in
            rw o (s.covers (λ z. nz (o ∙ z)))
        | inr other ↦
            let before = p (rw (s.others id other) at nz) in
            rw (s.others id other) (omega (arith, s.earlier, before))
      ]

  acts-IsPublished :
      (session : ℕ) (l : EventLoop) (actions : List Action)
      → IsPublished id l
      → IsPublished id (foldl (act session) l actions)
  unfolding act wakeup_session
  acts-IsPublished session l [] p = p
  acts-IsPublished session l (sets_timeout deadline ∷ actions) p =
      acts-IsPublished session (set_next_timeout session deadline l) actions
        (set_next_timeout-IsPublished session deadline l p)
  acts-IsPublished session l (wakes_up other ∷ actions) p =
      acts-IsPublished session (wakeup_session other l) actions p

  delete_later-IsPublished :
      (removed : Bool) (session : ℕ) (l : EventLoop)
      → IsPublished id l
      → IsPublished id (delete_later removed session l)
  delete_later-IsPublished removed session l =
      let d = delete_later-Deleted removed session l in
      same-IsPublished l (delete_later removed session l) d.same_timeout d.same_earliest

  wakeup-IsPublished :
      (r : Resumption) (session : ℕ) (l : EventLoop)
      → IsPublished id l
      → IsPublished id (wakeup r session l)
  unfolding wakeup
  wakeup-IsPublished r session l p =
      let m = foldl (act session) l r.actions in
      let ran = acts-IsPublished session l r.actions p in
      elim (Bool-cases r.running) [
        | inl running ↦ elim (Bool-cases r.throws) [
          | inl thrown ↦
              rw (running, thrown, wakeup) (delete_later-IsPublished r.removed session m ran)
          | inr returned ↦ rw (running, returned, wakeup) ran
        ]
        | inr ended ↦ rw (ended, wakeup) (delete_later-IsPublished r.removed session l p)
      ]

  pub process_events-IsPublished :
      (failed ready : Bool) (r : Resumption) (session : ℕ) (l : EventLoop)
      → IsPublished id l
      → IsPublished id (process_events failed ready r session l)
  unfolding process_events timeout
  process_events-IsPublished true ready r session l p =
      delete_later-IsPublished r.removed session (foldl (act session) l r.actions)
        (acts-IsPublished session l r.actions p)
  process_events-IsPublished false true r session l p = wakeup-IsPublished r session l p
  process_events-IsPublished false false r session l p =
      delete_later-IsPublished r.removed session l p

  pub wake_all-IsPublished :
      (r : ℕ → Resumption) (sessions : List ℕ) (l : EventLoop)
      → IsPublished id l
      → IsPublished id (wake_all r sessions l)
  unfolding wake_all
  wake_all-IsPublished r [] l p = p
  wake_all-IsPublished r (s ∷ rest) l p =
      if_both (IsPublished id) (contains s l.m_sessions) (wake_all r rest (wakeup (r s) s l))
        (wake_all r rest l)
        (wake_all-IsPublished r rest (wakeup (r s) s l) (wakeup-IsPublished (r s) s l p))
        (wake_all-IsPublished r rest l p)

  pub delete_all-IsPublished :
      (r : ℕ → Resumption) (sessions : List ℕ) (l : EventLoop)
      → IsPublished id l
      → IsPublished id (delete_all r sessions l)
  unfolding delete_all destroy_session
  delete_all-IsPublished r [] l p = p
  delete_all-IsPublished r (s ∷ rest) l p =
      let m =
        foldl (act s) (record l { is_deleting = with_deleting l.is_deleting s true })
          (r s).actions in
      let u = unregister_session-Unregistered (r s).removed s m in
      delete_all-IsPublished r rest (unregister_session (r s).removed s m) (
        same-IsPublished m (unregister_session (r s).removed s m) u.same_timeout u.same_earliest (
          acts-IsPublished s (record l { is_deleting = with_deleting l.is_deleting s true })
            (r s).actions p))

  pub register_session-IsPublished :
      (added : Bool) (session : ℕ) (l : EventLoop)
      → IsPublished id l
      → IsPublished id (register_session added session l)
  unfolding register_session
  register_session-IsPublished true session l p = p
  register_session-IsPublished false session l p = p

-- The constructor publishes the deadline.
pub construct_session-IsPublished :
    (session deadline : ℕ) (l : EventLoop)
    → IsPublished session (construct_session session deadline l)
unfolding construct_session
construct_session-IsPublished session deadline l nz =
    let born : EventLoop = record l { is_deleting = with_deleting l.is_deleting session false } in
    let s = set_next_timeout-TimeoutSet session deadline born in
    rw s.own (s.covers (λ z. nz (s.own ∙ z)))
