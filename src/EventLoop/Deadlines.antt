-- ===== src/EventLoop/Deadlines.antt =====
-- The earliest published deadline against the timeouts of the sessions.
use dracon.Prelude.{
  ℕ, ◌≤◌, ◌≡◌, ◌≢◌, ◌⊎◌, inl, inr, ◌∙◌, arith, true, false, List, [], ◌∷◌, ◌==◌, foldl, Bool-cases,
  ap,
}
use dracon.EventLoop.{
  EventLoop, contains, set_next_timeout, wakeup_session, Action, sets_timeout, wakes_up, act,
}
use dracon.EventLoop.Effects.{set_next_timeout-TimeoutSet}

-- A registered session whose deadline counts.
pub record Expects (l : EventLoop) (session : ℕ) : Type 0 where
  pub registered : contains session l.m_sessions ≡ true
  pub alive : l.is_deleting session ≡ false
  pub has_timeout : l.next_timeout session ≢ 0

-- No deadline of such a session is before the earliest one that is published, but for the
-- sessions among `rest`, and those whose deadline is not before `earliest`.
abbrev pub Covered : List ℕ → ℕ → EventLoop → Type 0
Covered rest earliest l =
    (session : ℕ)
    → Expects l session
    → (contains session rest ≡ true)
      ⊎ (earliest ≤ l.next_timeout session)
      ⊎ (l.m_earliest_deadline ≤ l.next_timeout session)

-- Every deadline is covered by the earliest one.
abbrev pub IsTimely : EventLoop → Type 0
IsTimely l = (session : ℕ) → Expects l session → l.m_earliest_deadline ≤ l.next_timeout session

pub act-Covered :
    (session : ℕ) (rest : List ℕ) (earliest : ℕ) (l : EventLoop) (a : Action)
    → Covered rest earliest l
    → Covered rest earliest (act session l a)
unfolding act wakeup_session
act-Covered session rest earliest l (sets_timeout deadline) c = λ id x.
    let t = set_next_timeout-TimeoutSet session deadline l in
    elim (Bool-cases (id == session)) [
      | inl own ↦
          let e : id ≡ session = ground (arith, own) in
          let after = set_next_timeout session deadline l in
          let o : after.next_timeout id ≡ deadline = ap after.next_timeout e ∙ t.own in
          rw o (inr (inr (t.covers (λ z. x.has_timeout (o ∙ z)))))
      | inr other ↦
          let before : Expects l id = record {
            registered = rw t.same_sessions at x.registered;
            alive = rw t.same_deleting at x.alive;
            has_timeout = rw (t.others id other) at x.has_timeout;
          } in
          rw (t.others id other) (elim (c id before) [
            | inl in_rest ↦ inl in_rest
            | inr (inl late) ↦ inr (inl late)
            | inr (inr ok) ↦ inr (inr (omega (arith, ok, t.earlier)))
          ])
    ]
act-Covered session rest earliest l (wakes_up other) c = λ id x.
    c id (record { registered = x.registered; alive = x.alive; has_timeout = x.has_timeout })

pub acts-Covered :
    (session : ℕ) (rest : List ℕ) (earliest : ℕ) (l : EventLoop) (actions : List Action)
    → Covered rest earliest l
    → Covered rest earliest (foldl (act session) l actions)
acts-Covered session rest earliest l [] c = c
acts-Covered session rest earliest l (a ∷ actions) c =
    acts-Covered session rest earliest (act session l a) actions
      (act-Covered session rest earliest l a c)
