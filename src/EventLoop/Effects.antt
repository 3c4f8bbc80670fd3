-- ===== src/EventLoop/Effects.antt =====
-- What each operation of the loop leaves alone, and what it changes.
use dracon.Prelude.{
  ℕ, ◌≤◌, ◌≡◌, ◌≢◌, inl, inr, refl, sym, ◌∙◌, arith, Bool, true, false, List, [], ◌∷◌, ltb, ◌==◌,
  foldl, Bool-cases, ap, not_both,
}
use dracon.EventLoop.{
  EventLoop, contains, remove, notify_deadline, with_timeout, set_next_timeout, unregister_session,
  delete_later, wakeup_session, Action, sets_timeout, wakes_up, act,
}
use dracon.EventLoop.Sets.{
  contains-inserted, contains-insert_keeps, contains-remove, contains-erased, contains-erase_other,
}

-- The fields that a published deadline leaves alone, and what it does to the earliest one.
pub record Published (deadline : ℕ) (l m : EventLoop) : Type 0 where
  pub same_sessions : m.m_sessions ≡ l.m_sessions
  pub same_deleting : m.is_deleting ≡ l.is_deleting
  pub same_timeout : m.next_timeout ≡ l.next_timeout
  pub same_later : m.m_delete_later_objects ≡ l.m_delete_later_objects
  pub earlier : m.m_earliest_deadline ≤ l.m_earliest_deadline
  pub covers : deadline ≢ 0 → m.m_earliest_deadline ≤ deadline

pub notify_deadline-Published :
    (deadline : ℕ) (l : EventLoop) → Published deadline l (notify_deadline deadline l)
unfolding notify_deadline
notify_deadline-Published deadline l = elim (Bool-cases (deadline == 0)) [
  | inl z ↦ rw z (record {
    same_sessions = refl;
    same_deleting = refl;
    same_timeout = refl;
    same_later = refl;
    earlier = omega arith;
    covers = λ nz. absurd (ground arith);
  })
  | inr nz ↦ elim (Bool-cases (ltb deadline l.m_earliest_deadline)) [
    | inl lt ↦
        rw (nz, lt)
          (record {
            same_sessions = refl;
            same_deleting = refl;
            same_timeout = refl;
            same_later = refl;
            earlier = ground (arith, lt);
            covers = λ _. omega arith;
          })
    | inr ge ↦
        rw (nz, ge)
          (record {
            same_sessions = refl;
            same_deleting = refl;
            same_timeout = refl;
            same_later = refl;
            earlier = omega arith;
            covers = λ _. ground (arith, ge);
          })
  ]
]

-- After a session set its timeout, in the terms of the loop before.
pub record TimeoutSet (session deadline : ℕ) (l m : EventLoop) : Type 0 where
  pub same_sessions : m.m_sessions ≡ l.m_sessions
  pub same_deleting : m.is_deleting ≡ l.is_deleting
  pub same_later : m.m_delete_later_objects ≡ l.m_delete_later_objects
  pub earlier : m.m_earliest_deadline ≤ l.m_earliest_deadline
  pub own : m.next_timeout session ≡ deadline
  pub others : (id : ℕ) → (id == session) ≡ false → m.next_timeout id ≡ l.next_timeout id
  pub covers : deadline ≢ 0 → m.m_earliest_deadline ≤ deadline

own_timeout :
    (f : ℕ → ℕ) (session deadline : ℕ) → with_timeout f session deadline session ≡ deadline
own_timeout f session deadline = ground arith

at_eq : (f g : ℕ → ℕ) (id : ℕ) → f ≡ g → f id ≡ g id
at_eq f g id e i = e i id

pub set_next_timeout-TimeoutSet :
    (session deadline : ℕ) (l : EventLoop)
    → TimeoutSet session deadline l (set_next_timeout session deadline l)
unfolding set_next_timeout
set_next_timeout-TimeoutSet session deadline l =
    let l1 : EventLoop = record l { next_timeout = with_timeout l.next_timeout session deadline } in
    let p = notify_deadline-Published deadline l1 in
    record {
      same_sessions = p.same_sessions;
      same_deleting = p.same_deleting;
      same_later = p.same_later;
      earlier = p.earlier;
      own = at_eq _ _ session p.same_timeout ∙ own_timeout l.next_timeout session deadline;
      others = λ id ne. at_eq _ _ id p.same_timeout ∙ rw ne refl;
      covers = p.covers;
    }

-- What a session leaves alone when it runs: the registered ones, and the timeouts of the others.
pub record Runs (session : ℕ) (l m : EventLoop) : Type 0 where
  pub same_sessions : m.m_sessions ≡ l.m_sessions
  pub same_deleting : m.is_deleting ≡ l.is_deleting
  pub same_later : m.m_delete_later_objects ≡ l.m_delete_later_objects
  pub others : (id : ℕ) → (id == session) ≡ false → m.next_timeout id ≡ l.next_timeout id

act-Runs : (session : ℕ) (l : EventLoop) (a : Action) → Runs session l (act session l a)
unfolding act wakeup_session
act-Runs session l (sets_timeout deadline) =
    let t = set_next_timeout-TimeoutSet session deadline l in
    record {
      same_sessions = t.same_sessions;
      same_deleting = t.same_deleting;
      same_later = t.same_later;
      others = t.others;
    }
act-Runs session l (wakes_up other) = record {
  same_sessions = refl;
  same_deleting = refl;
  same_later = refl;
  others = λ id ne. refl;
}

Runs-Runs :
    (session : ℕ) (l m n : EventLoop) → Runs session l m → Runs session m n → Runs session l n
Runs-Runs session l m n r q = record {
  same_sessions = q.same_sessions ∙ r.same_sessions;
  same_deleting = q.same_deleting ∙ r.same_deleting;
  same_later = q.same_later ∙ r.same_later;
  others = λ id ne. q.others id ne ∙ r.others id ne;
}

pub acts-Runs :
    (session : ℕ) (l : EventLoop) (actions : List Action)
    → Runs session l (foldl (act session) l actions)
acts-Runs session l [] = record {
  same_sessions = refl;
  same_deleting = refl;
  same_later = refl;
  others = λ id ne. refl;
}
acts-Runs session l (a ∷ actions) =
    Runs-Runs session l (act session l a) (foldl (act session) (act session l a) actions)
      (act-Runs session l a) (acts-Runs session (act session l a) actions)

-- delete_later: which sessions it leaves registered, and that it leaves all else alone.
pub record Deleted (session : ℕ) (l m : EventLoop) : Type 0 where
  pub same_deleting : m.is_deleting ≡ l.is_deleting
  pub same_timeout : m.next_timeout ≡ l.next_timeout
  pub same_earliest : m.m_earliest_deadline ≡ l.m_earliest_deadline
  pub gone : l.is_deleting session ≡ false → contains session m.m_sessions ≡ false
  pub later : l.is_deleting session ≡ false → contains session m.m_delete_later_objects ≡ true
  pub fewer : (id : ℕ) → contains id m.m_sessions ≡ true → contains id l.m_sessions ≡ true
  pub others :
      (id : ℕ) → (id == session) ≡ false → contains id m.m_sessions ≡ contains id l.m_sessions
  pub more :
      (id : ℕ)
      → contains id l.m_delete_later_objects ≡ true
      → contains id m.m_delete_later_objects ≡ true

pub record Unregistered (session : ℕ) (l m : EventLoop) : Type 0 where
  pub same_deleting : m.is_deleting ≡ l.is_deleting
  pub same_timeout : m.next_timeout ≡ l.next_timeout
  pub same_earliest : m.m_earliest_deadline ≡ l.m_earliest_deadline
  pub same_later : m.m_delete_later_objects ≡ l.m_delete_later_objects
  pub erased : m.m_sessions ≡ remove session l.m_sessions

erase_absent : (x : ℕ) (xs : List ℕ) → contains x xs ≡ false → xs ≡ remove x xs
unfolding contains remove
erase_absent x [] e = refl
erase_absent x (y ∷ ys) e = elim (Bool-cases (y == x)) [
  | inl same ↦ absurd (ground (arith, same))
  | inr other ↦ rw other (ap (λ t. y ∷ t) (erase_absent x ys (rw other at e)))
]

pub unregister_session-Unregistered :
    (removed : Bool) (session : ℕ) (l : EventLoop)
    → Unregistered session l (unregister_session removed session l)
unfolding unregister_session
unregister_session-Unregistered removed session l =
    elim (Bool-cases (contains session l.m_sessions)) [
      | inl there ↦ elim (Bool-cases removed) [
        | inl r ↦
            rw (there, r)
              (record {
                same_deleting = refl;
                same_timeout = refl;
                same_earliest = refl;
                same_later = refl;
                erased = refl;
              })
        | inr r ↦
            rw (there, r)
              (record {
                same_deleting = refl;
                same_timeout = refl;
                same_earliest = refl;
                same_later = refl;
                erased = refl;
              })
      ]
      | inr absent ↦ rw absent (record {
        same_deleting = refl;
        same_timeout = refl;
        same_earliest = refl;
        same_later = refl;
        erased = erase_absent session l.m_sessions absent;
      })
    ]

differs : (id session : ℕ) → (id == session) ≡ false → session ≢ id
differs id session ne = ground (arith, ne)

pub delete_later-Deleted :
    (removed : Bool) (session : ℕ) (l : EventLoop)
    → Deleted session l (delete_later removed session l)
unfolding delete_later
delete_later-Deleted removed session l =
    let u = unregister_session-Unregistered removed session l in
    elim (Bool-cases (l.is_deleting session)) [
      | inl deleting ↦
          rw (deleting, delete_later)
            (record {
              same_deleting = refl;
              same_timeout = refl;
              same_earliest = refl;
              gone = λ e. absurd (not_both (sym deleting ∙ e));
              later = λ e. absurd (not_both (sym deleting ∙ e));
              fewer = λ id e. e;
              others = λ id ne. refl;
              more = λ id e. e;
            })
      | inr alive ↦
          rw (alive, delete_later)
            (record {
              same_deleting = u.same_deleting;
              same_timeout = u.same_timeout;
              same_earliest = u.same_earliest;
              gone = λ _. rw u.erased (contains-erased session l.m_sessions);
              later = λ _.
                  contains-inserted session
                    (unregister_session removed session l).m_delete_later_objects;
              fewer = λ id e. contains-remove session id l.m_sessions (rw u.erased at e);
              others = λ id ne.
                  rw u.erased
                    (contains-erase_other session id l.m_sessions (differs id session ne));
              more = λ id e. contains-insert_keeps session id _ (rw u.same_later e);
            })
    ]
