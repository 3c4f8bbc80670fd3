-- ===== src/EventLoop/Timely.antt =====
-- The earliest deadline over all that may happen to a loop.
use dracon.Prelude.{
  ℕ, subst, ◌≡◌, ◌⊎◌, inl, inr, refl, sym, ap, ◌∙◌, arith, Bool, true, false, List, [], ◌∷◌, ◌==◌,
  foldl, Bool-cases, not_both,
}
use dracon.EventLoop.{
  EventLoop, contains, set_next_timeout, register_session, wakeup_session, check_timeouts,
}
use dracon.EventLoop.Effects.{set_next_timeout-TimeoutSet}
use dracon.EventLoop.Deadlines.{Expects, IsTimely}
use dracon.EventLoop.Scan.{same_id}
use dracon.EventLoop.Published.{
  IsPublished, set_next_timeout-IsPublished, process_events-IsPublished, wake_all-IsPublished,
  delete_all-IsPublished, register_session-IsPublished, construct_session-IsPublished,
}
use dracon.EventLoop.Session.{
  with_deleting, construct_session, constructs, registers, AreRegisteredInTime, process_events,
  wake_all, resume_woken, delete_all, delete_pending, Operation, asks_wakeup, processes, resumes,
  checks, deletes, perform, new_loop,
}
use dracon.EventLoop.Keeps.{
  unchanged-IsTimely, process_events-IsTimely, wake_all-IsTimely, delete_all-IsTimely,
  check_timeouts-IsTimely, register_session-IsTimely, same_or_before,
}

construct_session-IsTimely :
    (session deadline : ℕ) (l : EventLoop)
    → IsTimely l
    → IsTimely (construct_session session deadline l)
unfolding construct_session
construct_session-IsTimely session deadline l t = λ id x.
    let born : EventLoop = record l { is_deleting = with_deleting l.is_deleting session false } in
    let m = set_next_timeout session deadline born in
    let s = set_next_timeout-TimeoutSet session deadline born in
    elim (Bool-cases (id == session)) [
      | inl own ↦
          let same = same_id id session own in
          let published = construct_session-IsPublished session deadline l in
          rw same (published (λ z. x.has_timeout (ap m.next_timeout same ∙ z)))
      | inr other ↦
          let before : Expects l id = record {
            registered = rw s.same_sessions at x.registered;
            alive = rw other at (rw s.same_deleting at x.alive);
            has_timeout = rw (s.others id other) at x.has_timeout;
          } in
          rw (s.others id other) (omega (arith, s.earlier, t id before))
    ]

-- Registering a session whose deadline is still published.
registered-IsTimely :
    (added : Bool) (session : ℕ) (l : EventLoop)
    → IsPublished session l
    → IsTimely l
    → IsTimely (register_session added session l)
registered-IsTimely added session l p t =
    register_session-IsTimely added session l (λ id there alive nz.
      elim (Bool-cases (id == session)) [
        | inl own ↦
            let same = same_id id session own in rw same (p (λ z. nz (ap l.next_timeout same ∙ z)))
        | inr other ↦ t id (record {
          registered = same_or_before l session id other there;
          alive = alive;
          has_timeout = nz;
        })
      ])

-- The sessions that were constructed since the last scan have their deadlines published.
record IsOrderly (fresh : List ℕ) (l : EventLoop) : Type 0 where
  timely : IsTimely l
  published : (id : ℕ) → contains id fresh ≡ true → IsPublished id l

contains-cons :
    (id session : ℕ) (fresh : List ℕ)
    → contains id (session ∷ fresh) ≡ true
    → (session ≡ id) ⊎ (contains id fresh ≡ true)
unfolding contains
contains-cons id session fresh e = ground (arith, e)

history-IsTimely :
    (fresh : List ℕ) (l : EventLoop) (ops : List Operation)
    → AreRegisteredInTime fresh ops
    → IsOrderly fresh l
    → IsTimely (foldl perform l ops)
unfolding perform wakeup_session resume_woken delete_pending contains
history-IsTimely fresh l [] h o = o.timely
history-IsTimely fresh l (constructs session deadline ∷ ops) h o =
    history-IsTimely (session ∷ fresh) (construct_session session deadline l) ops h (record {
      timely = construct_session-IsTimely session deadline l o.timely;
      published = λ id e. elim (contains-cons id session fresh e) [
        | inl own ↦
            subst (λ k. IsPublished k (construct_session session deadline l)) own
              (construct_session-IsPublished session deadline l)
        | inr before ↦
            set_next_timeout-IsPublished id session deadline
              (record l { is_deleting = with_deleting l.is_deleting session false })
              (o.published id before)
      ];
    })
history-IsTimely fresh l (registers added session ∷ ops) h o =
    history-IsTimely fresh (register_session added session l) ops h.1 (record {
      timely = registered-IsTimely added session l (o.published session h.0) o.timely;
      published = λ id e. register_session-IsPublished id added session l (o.published id e);
    })
history-IsTimely fresh l (asks_wakeup session ∷ ops) h o =
    history-IsTimely fresh (wakeup_session session l) ops h (record {
      timely = unchanged-IsTimely l (wakeup_session session l) refl refl refl refl o.timely;
      published = o.published;
    })
history-IsTimely fresh l (processes failed ready r session ∷ ops) h o =
    history-IsTimely fresh (process_events failed ready r session l) ops h (record {
      timely = process_events-IsTimely failed ready r session l o.timely;
      published = λ id e. process_events-IsPublished id failed ready r session l (o.published id e);
    })
history-IsTimely fresh l (resumes r ∷ ops) h o =
    let m : EventLoop = record l { m_wakeup_sessions = [] } in
    history-IsTimely fresh (wake_all r l.m_wakeup_sessions m) ops h (record {
      timely =
          wake_all-IsTimely r l.m_wakeup_sessions m
            (unchanged-IsTimely l m refl refl refl refl o.timely);
      published = λ id e. wake_all-IsPublished id r l.m_wakeup_sessions m (o.published id e);
    })
history-IsTimely fresh l (checks actions removed now ∷ ops) h o =
    history-IsTimely [] (check_timeouts actions removed now l) ops h (record {
      timely = check_timeouts-IsTimely actions removed now l o.timely;
      published = λ id e. absurd (not_both (sym e));
    })
history-IsTimely fresh l (deletes r ∷ ops) h o =
    let m : EventLoop = record l { m_delete_later_objects = [] } in
    history-IsTimely fresh (delete_all r l.m_delete_later_objects m) ops h (record {
      timely =
          delete_all-IsTimely r l.m_delete_later_objects m
            (unchanged-IsTimely l m refl refl refl refl o.timely);
      published = λ id e. delete_all-IsPublished id r l.m_delete_later_objects m (o.published id e);
    })

new_loop-IsTimely : IsTimely new_loop
unfolding contains
new_loop-IsTimely = λ id x. absurd (x.has_timeout refl)

-- Whatever happens to a new loop, in any order, so long as every session is registered with no scan
-- for timeouts between its construction and its registration: the earliest deadline that the loop
-- has published is not after the timeout of any session that is registered and not being destroyed.
pub loop-IsTimely :
    (ops : List Operation) → AreRegisteredInTime [] ops → IsTimely (foldl perform new_loop ops)
unfolding contains
loop-IsTimely ops in_time =
    history-IsTimely [] new_loop ops in_time
      (record { timely = new_loop-IsTimely; published = λ id e. absurd (not_both (sym e)) })
