-- ===== src/EventLoop/Order.antt =====
-- src/server/sessions_event_loop.cpp: the order in which a round with workload balancing handles
-- the events.
use dracon.Prelude.{
  ℕ, ◌≤◌, ◌<◌, ◌≡◌, ◌∙◌, refl, sym, ap, arith, true, false, List, [], ◌∷◌, ◌++◌, ltb, ◌==◌,
  if◌then◌else◌, Bool-cases, inl, inr, append-nil, append_assoc,
}

-- A session and its events.
abbrev pub SessionEvent : Type 0
SessionEvent = ℕ × ℕ

module _ (order : ℕ → ℕ) where
  -- `insert` at `std::upper_bound`: behind the last one whose order is not greater.
  unfoldable pub insert_event : SessionEvent → List SessionEvent → List SessionEvent
  insert_event ev [] = ev ∷ []
  insert_event ev (x ∷ xs) =
      let behind = insert_event ev xs in
      if ltb (order ev.0) (order x.0) then ev ∷ x ∷ xs else x ∷ behind

  unfoldable pub session_events : List SessionEvent → List SessionEvent → List SessionEvent
  unfolding insert_event
  session_events sorted [] = sorted
  session_events sorted (ev ∷ events) = session_events (insert_event ev sorted) events

  -- The events of the sessions of one order.
  unfoldable pub of_order : ℕ → List SessionEvent → List SessionEvent
  of_order k [] = []
  of_order k (x ∷ xs) = let rest = of_order k xs in if order x.0 == k then x ∷ rest else rest

  -- No event is behind one of a session of a greater order.
  abbrev pub AreAbove : ℕ → List SessionEvent → Type 0
  AreAbove n [] = Unit
  AreAbove n (x ∷ xs) = (n ≤ order x.0) × AreAbove (order x.0) xs

  insert_event-AreAbove :
      (n : ℕ) (ev : SessionEvent) (xs : List SessionEvent)
      → n ≤ order ev.0
      → AreAbove n xs
      → AreAbove n (insert_event ev xs)
  unfolding insert_event
  insert_event-AreAbove n ev [] le a = (le, tt)
  insert_event-AreAbove n ev (x ∷ xs) le a = elim (Bool-cases (ltb (order ev.0) (order x.0))) [
    | inl lt ↦ rw (lt, insert_event) (le, (ground (arith, lt), a.1))
    | inr ge ↦
        rw (ge, insert_event)
          (a.0, insert_event-AreAbove (order x.0) ev xs (ground (arith, ge)) a.1)
  ]

  -- Behind a place where all are of a greater order there is none of the order.
  of_order_above : (k n : ℕ) (xs : List SessionEvent) → k < n → AreAbove n xs → of_order k xs ≡ []
  unfolding of_order
  of_order_above k n [] lt a = refl
  of_order_above k n (x ∷ xs) lt a =
      let le = a.0 in
      let other : (order x.0 == k) ≡ false = ground (arith, le, lt) in
      rw other (of_order_above k (order x.0) xs (omega (arith, le, lt)) a.1)

  of_order-none : (k : ℕ) → of_order k [] ≡ []
  unfolding of_order
  of_order-none k = refl

  of_order-cons :
      (k : ℕ) (x : SessionEvent) (xs : List SessionEvent)
      → of_order k (x ∷ xs) ≡ of_order k (x ∷ []) ++ of_order k xs
  unfolding of_order
  of_order-cons k x xs = elim (Bool-cases (order x.0 == k)) [
    | inl e ↦ rw e refl
    | inr e ↦ rw e refl
  ]

  of_order-other : (k : ℕ) (x : SessionEvent) → (order x.0 == k) ≡ false → of_order k (x ∷ []) ≡ []
  unfolding of_order
  of_order-other k x e = rw e refl

  of_order-commutes :
      (k : ℕ) (ev x : SessionEvent) (xs : List SessionEvent)
      → ltb (order ev.0) (order x.0) ≡ true
      → AreAbove (order x.0) xs
      → of_order k (ev ∷ []) ++ of_order k (x ∷ xs) ≡ of_order k (x ∷ xs) ++ of_order k (ev ∷ [])
  of_order-commutes k ev x xs lt a = elim (Bool-cases (order ev.0 == k)) [
    | inl same ↦
        let less : k < order x.0 = ground (arith, same, lt) in
        rw (of_order_above k (order x.0) (x ∷ xs) less (omega arith, a))
          (append-nil (of_order k (ev ∷ [])))
    | inr other ↦ rw (of_order-other k ev other) (sym (append-nil (of_order k (x ∷ xs))))
  ]

  of_order-insert_event :
      (k n : ℕ) (ev : SessionEvent) (xs : List SessionEvent)
      → AreAbove n xs
      → of_order k (insert_event ev xs) ≡ of_order k xs ++ of_order k (ev ∷ [])
  unfolding insert_event
  of_order-insert_event k n ev [] a = sym (ap (λ t. t ++ of_order k (ev ∷ [])) (of_order-none k))
  of_order-insert_event k n ev (x ∷ xs) a = elim (Bool-cases (ltb (order ev.0) (order x.0))) [
    | inl lt ↦
        rw (lt, insert_event) (of_order-cons k ev (x ∷ xs) ∙ of_order-commutes k ev x xs lt a.1)
    | inr ge ↦
        rw (ge, insert_event)
          (of_order-cons k x (insert_event ev xs)
            ∙ ap (λ t. of_order k (x ∷ []) ++ t) (of_order-insert_event k (order x.0) ev xs a.1)
            ∙ sym (append_assoc (of_order k (x ∷ [])) (of_order k xs) (of_order k (ev ∷ [])))
            ∙ ap (λ t. t ++ of_order k (ev ∷ [])) (sym (of_order-cons k x xs)))
  ]

  sorted_events :
      (sorted events : List SessionEvent)
      → AreAbove 0 sorted
      → AreAbove 0 (session_events sorted events)
  unfolding session_events
  sorted_events sorted [] a = a
  sorted_events sorted (ev ∷ events) a =
      sorted_events (insert_event ev sorted) events
        (insert_event-AreAbove 0 ev sorted (omega arith) a)

  same_events :
      (k : ℕ) (sorted events : List SessionEvent)
      → AreAbove 0 sorted
      → of_order k (session_events sorted events) ≡ of_order k sorted ++ of_order k events
  unfolding session_events
  same_events k sorted [] a =
      sym (ap (λ t. of_order k sorted ++ t) (of_order-none k) ∙ append-nil (of_order k sorted))
  same_events k sorted (ev ∷ events) a =
      same_events k (insert_event ev sorted) events
        (insert_event-AreAbove 0 ev sorted (omega arith) a)
      ∙ ap (λ t. t ++ of_order k events) (of_order-insert_event k 0 ev sorted a)
      ∙ append_assoc (of_order k sorted) (of_order k (ev ∷ [])) (of_order k events)
      ∙ ap (λ t. of_order k sorted ++ t) (sym (of_order-cons k ev events))

  -- The events of a round are handled in the order of their sessions, and those of sessions of one
  -- order are all handled, each once, in the order in which they were reported.
  pub session_events-sorted :
      (events : List SessionEvent)
      → AreAbove 0 (session_events [] events)
        × ((k : ℕ) → of_order k (session_events [] events) ≡ of_order k events)
  session_events-sorted events = (
    sorted_events [] events tt,
    λ k. same_events k [] events tt ∙ ap (λ t. t ++ of_order k events) (of_order-none k),
  )
