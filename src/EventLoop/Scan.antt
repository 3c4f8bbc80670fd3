-- ===== src/EventLoop/Scan.antt =====
-- The scan for timeouts, and the deadlines of the sessions that are still to be scanned.
use dracon.Prelude.{
  ℕ, ◌≡◌, ◌≢◌, inl, inr, sym, ap, ◌∙◌, arith, Bool, true, false, List, [], ◌∷◌, leb, ◌==◌, foldl,
  min, Bool-cases, not_both,
}
use dracon.EventLoop.{
  EventLoop, contains, notify_deadline, delete_later, Action, act, timeout, scan_sessions,
}
use dracon.EventLoop.Effects.{notify_deadline-Published, Deleted, delete_later-Deleted}
use dracon.EventLoop.Deadlines.{Expects, Covered, IsTimely, acts-Covered}

Deleted-Expects :
    (session id : ℕ) (l m : EventLoop) → Deleted session l m → Expects m id → Expects l id
Deleted-Expects session id l m d x = record {
  registered = d.fewer id x.registered;
  alive = rw d.same_deleting at x.alive;
  has_timeout = rw d.same_timeout at x.has_timeout;
}

pub contains-rest :
    (id session : ℕ) (rest : List ℕ)
    → (id == session) ≡ false
    → contains id (session ∷ rest) ≡ true
    → contains id rest ≡ true
unfolding contains
contains-rest id session rest ne e = ground (arith, ne, e)

pub same_id : (id session : ℕ) → (id == session) ≡ true → id ≡ session
same_id id session e = ground (arith, e)

-- A session that is timed out is covered no longer, and need not be.
timeout-Covered :
    (actions : List Action) (removed : Bool) (session : ℕ) (rest : List ℕ) (earliest : ℕ)
    (l : EventLoop)
    → Covered (session ∷ rest) earliest l
    → Covered rest earliest (timeout actions removed session l)
unfolding timeout
timeout-Covered actions removed session rest earliest l c = λ id x.
    let m = foldl (act session) l actions in
    let d = delete_later-Deleted removed session m in
    let before = Deleted-Expects session id m (delete_later removed session m) d x in
    elim (Bool-cases (id == session)) [
      | inl own ↦
          let gone = d.gone (rw (same_id id session own) at before.alive) in
          absurd (not_both (sym (rw (same_id id session own) at x.registered) ∙ gone))
      | inr other ↦
          rw (d.same_timeout, d.same_earliest)
            (elim (acts-Covered session (session ∷ rest) earliest l actions c id before) [
              | inl in_rest ↦ inl (contains-rest id session rest other in_rest)
              | inr covered ↦ inr covered
            ])
    ]

skip-Covered :
    (session : ℕ) (rest : List ℕ) (earliest : ℕ) (l : EventLoop)
    → l.next_timeout session ≡ 0
    → Covered (session ∷ rest) earliest l
    → Covered rest earliest l
skip-Covered session rest earliest l z c = λ id x. elim (Bool-cases (id == session)) [
  | inl own ↦ absurd (x.has_timeout (ap l.next_timeout (same_id id session own) ∙ z))
  | inr other ↦ elim (c id x) [
    | inl in_rest ↦ inl (contains-rest id session rest other in_rest)
    | inr covered ↦ inr covered
  ]
]

later-Covered :
    (session : ℕ) (rest : List ℕ) (earliest : ℕ) (l : EventLoop)
    → Covered (session ∷ rest) earliest l
    → Covered rest (min earliest (l.next_timeout session)) l
later-Covered session rest earliest l c = λ id x. elim (Bool-cases (id == session)) [
  | inl own ↦
      let same = ap l.next_timeout (same_id id session own) in inr (inl (omega (arith, same)))
  | inr other ↦ elim (c id x) [
    | inl in_rest ↦ inl (contains-rest id session rest other in_rest)
    | inr (inl late) ↦ inr (inl (omega (arith, late)))
    | inr (inr ok) ↦ inr (inr ok)
  ]
]

end-IsTimely :
    (earliest : ℕ) (l : EventLoop)
    → earliest ≢ 0
    → Covered [] earliest l
    → IsTimely (notify_deadline earliest l)
unfolding contains
end-IsTimely earliest l nz c = λ id x.
    let p = notify_deadline-Published earliest l in
    let before : Expects l id = record {
      registered = rw p.same_sessions at x.registered;
      alive = rw p.same_deleting at x.alive;
      has_timeout = rw p.same_timeout at x.has_timeout;
    } in
    rw p.same_timeout (elim (c id before) [
      | inl in_none ↦ absurd (not_both (sym in_none))
      | inr (inl late) ↦ omega (arith, late, p.covers nz)
      | inr (inr ok) ↦ omega (arith, ok, p.earlier)
    ])

module _ (actions : ℕ → List Action) (removed : ℕ → Bool) (now : ℕ) where
  pub scan_sessions-IsTimely :
      (sessions : List ℕ) (earliest : ℕ) (l : EventLoop)
      → earliest ≢ 0
      → Covered sessions earliest l
      → IsTimely (scan_sessions actions removed now sessions earliest l)
  unfolding scan_sessions
  scan_sessions-IsTimely [] earliest l nz c = end-IsTimely earliest l nz c
  scan_sessions-IsTimely (s ∷ rest) earliest l nz c =
      let t = l.next_timeout s in
      elim (Bool-cases (t == 0)) [
        | inl none ↦
            rw (none, scan_sessions)
              (scan_sessions-IsTimely rest earliest l nz
                (skip-Covered s rest earliest l (same_id t 0 none) c))
        | inr some ↦ elim (Bool-cases (leb t now)) [
          | inl due ↦
              rw (some, due, scan_sessions)
                (scan_sessions-IsTimely rest earliest (timeout (actions s) (removed s) s l) nz
                  (timeout-Covered (actions s) (removed s) s rest earliest l c))
          | inr late ↦
              let both : min earliest t ≢ 0 = ground (arith, some, nz) in
              rw (some, late, scan_sessions)
                (scan_sessions-IsTimely rest (min earliest t) l both
                  (later-Covered s rest earliest l c))
        ]
      ]
