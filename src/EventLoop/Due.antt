-- ===== src/EventLoop/Due.antt =====
-- Sessions whose deadline is due when a round of the loop checks the timeouts.
use dracon.Prelude.{
  ℕ, ◌≤◌, ◌≡◌, inl, inr, sym, ap, ◌∙◌, arith, Bool, true, false, List, [], ◌∷◌, leb, ◌==◌, foldl,
  min, Bool-cases, not_both,
}
use dracon.EventLoop.{
  EventLoop, never, contains, delete_later, Action, act, timeout, scan_sessions, check_timeouts,
}
use dracon.EventLoop.Effects.{notify_deadline-Published, acts-Runs, delete_later-Deleted}
use dracon.EventLoop.Deadlines.{Expects, IsTimely}
use dracon.EventLoop.Scan.{contains-rest, same_id}
use dracon.EventLoop.Session.{Operation, AreRegisteredInTime, perform, new_loop}
use dracon.EventLoop.Timely.{loop-IsTimely}

-- The deadline of a registered session is due.
pub record IsDue (now id : ℕ) (l : EventLoop) : Type 0 where
  pub expects : Expects l id
  pub passed : l.next_timeout id ≤ now

-- It was timed out: it is registered no longer, and will be deleted.
pub record IsTimedOut (id : ℕ) (l : EventLoop) : Type 0 where
  pub gone : contains id l.m_sessions ≡ false
  pub later : contains id l.m_delete_later_objects ≡ true

still_gone :
    (id : ℕ) (l m : EventLoop)
    → (contains id m.m_sessions ≡ true → contains id l.m_sessions ≡ true)
    → contains id l.m_sessions ≡ false
    → contains id m.m_sessions ≡ false
still_gone id l m fewer e = elim (Bool-cases (contains id m.m_sessions)) [
  | inl there ↦ absurd (not_both (sym (fewer there) ∙ e))
  | inr absent ↦ absent
]

timeout-IsTimedOut :
    (actions : List Action) (removed : Bool) (session id : ℕ) (l : EventLoop)
    → IsTimedOut id l
    → IsTimedOut id (timeout actions removed session l)
unfolding timeout
timeout-IsTimedOut actions removed session id l g =
    let m = foldl (act session) l actions in
    let r = acts-Runs session l actions in
    let d = delete_later-Deleted removed session m in
    record {
      gone =
          still_gone id m (delete_later removed session m) (d.fewer id) (rw r.same_sessions g.gone);
      later = d.more id (rw r.same_later g.later);
    }

timeout-own :
    (actions : List Action) (removed : Bool) (session : ℕ) (l : EventLoop)
    → l.is_deleting session ≡ false
    → IsTimedOut session (timeout actions removed session l)
unfolding timeout
timeout-own actions removed session l alive =
    let m = foldl (act session) l actions in
    let r = acts-Runs session l actions in
    let d = delete_later-Deleted removed session m in
    let alive' : m.is_deleting session ≡ false = rw r.same_deleting alive in
    record { gone = d.gone alive'; later = d.later alive' }

timeout-other :
    (actions : List Action) (removed : Bool) (session id now : ℕ) (l : EventLoop)
    → (id == session) ≡ false
    → IsDue now id l
    → IsDue now id (timeout actions removed session l)
unfolding timeout
timeout-other actions removed session id now l ne due =
    let m = foldl (act session) l actions in
    let r = acts-Runs session l actions in
    let d = delete_later-Deleted removed session m in
    let same : (delete_later removed session m).next_timeout id ≡ l.next_timeout id =
      rw d.same_timeout (r.others id ne) in
    record {
      expects = record {
        registered = d.others id ne ∙ rw r.same_sessions due.expects.registered;
        alive = rw (d.same_deleting, r.same_deleting) due.expects.alive;
        has_timeout = rw same due.expects.has_timeout;
      };
      passed = rw same due.passed;
    }

module _ (actions : ℕ → List Action) (removed : ℕ → Bool) (now id : ℕ) where
  scan_sessions-keeps :
      (sessions : List ℕ) (earliest : ℕ) (l : EventLoop)
      → IsTimedOut id l
      → IsTimedOut id (scan_sessions actions removed now sessions earliest l)
  unfolding scan_sessions
  scan_sessions-keeps [] earliest l g =
      let p = notify_deadline-Published earliest l in
      record { gone = rw p.same_sessions g.gone; later = rw p.same_later g.later }
  scan_sessions-keeps (s ∷ rest) earliest l g = elim (Bool-cases (l.next_timeout s == 0)) [
    | inl none ↦ rw (none, scan_sessions) (scan_sessions-keeps rest earliest l g)
    | inr some ↦ elim (Bool-cases (leb (l.next_timeout s) now)) [
      | inl due ↦
          rw (some, due, scan_sessions)
            (scan_sessions-keeps rest earliest (timeout (actions s) (removed s) s l)
              (timeout-IsTimedOut (actions s) (removed s) s id l g))
      | inr late ↦
          rw (some, late, scan_sessions)
            (scan_sessions-keeps rest (min earliest (l.next_timeout s)) l g)
    ]
  ]

  scan_sessions-IsTimedOut :
      (sessions : List ℕ) (earliest : ℕ) (l : EventLoop)
      → IsDue now id l
      → contains id sessions ≡ true
      → IsTimedOut id (scan_sessions actions removed now sessions earliest l)
  unfolding scan_sessions contains
  scan_sessions-IsTimedOut [] earliest l d e = absurd (not_both (sym e))
  scan_sessions-IsTimedOut (s ∷ rest) earliest l d e =
      let t = l.next_timeout s in
      elim (Bool-cases (id == s)) [
        | inl own ↦
            let same : id ≡ s = same_id id s own in
            let at : l.next_timeout id ≡ t = ap l.next_timeout same in
            let some_timeout = d.expects.has_timeout in
            let nz : (t == 0) ≡ false = ground (arith, at, some_timeout) in
            let due : leb t now ≡ true = ground (arith, at, d.passed) in
            rw (nz, due, scan_sessions)
              (scan_sessions-keeps rest earliest (timeout (actions s) (removed s) s l)
                (rw same (timeout-own (actions s) (removed s) s l (rw same at d.expects.alive))))
        | inr other ↦
            let in_rest = contains-rest id s rest other e in
            elim (Bool-cases (t == 0)) [
              | inl none ↦
                  rw (none, scan_sessions) (scan_sessions-IsTimedOut rest earliest l d in_rest)
              | inr some ↦ elim (Bool-cases (leb t now)) [
                | inl due ↦
                    rw (some, due, scan_sessions)
                      (scan_sessions-IsTimedOut rest earliest (timeout (actions s) (removed s) s l)
                        (timeout-other (actions s) (removed s) s id now l other d) in_rest)
                | inr late ↦
                    rw (some, late, scan_sessions)
                      (scan_sessions-IsTimedOut rest (min earliest t) l d in_rest)
              ]
            ]
      ]

  check_timeouts-IsTimedOut :
      (l : EventLoop)
      → IsTimely l
      → IsDue now id l
      → IsTimedOut id (check_timeouts actions removed now l)
  unfolding check_timeouts
  check_timeouts-IsTimedOut l t d =
      let due : leb l.m_earliest_deadline now ≡ true = ground (arith, t id d.expects, d.passed) in
      rw (due, check_timeouts)
        (scan_sessions-IsTimedOut l.m_sessions never (record l { m_earliest_deadline = never })
          (record {
            expects = record {
              registered = d.expects.registered;
              alive = d.expects.alive;
              has_timeout = d.expects.has_timeout;
            };
            passed = d.passed;
          })
          d.expects.registered)

  -- Whatever happened to the loop since it was new, so long as every session was registered with no
  -- scan for timeouts between its construction and its registration: a round at `now` times out
  -- every registered session that is not being destroyed and whose deadline has come, although it
  -- looks at the sessions only where the earliest published deadline has come. The session is
  -- registered no longer and is to be deleted.
  pub loop-IsTimedOut :
      (ops : List Operation)
      → AreRegisteredInTime [] ops
      → IsDue now id (foldl perform new_loop ops)
      → IsTimedOut id (check_timeouts actions removed now (foldl perform new_loop ops))
  loop-IsTimedOut ops in_time d =
      check_timeouts-IsTimedOut (foldl perform new_loop ops) (loop-IsTimely ops in_time) d
