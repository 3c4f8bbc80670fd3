-- ===== src/Server/Choice.antt =====
-- src/server/server.cpp: which plugin answers a request, and which loop gets a connection. The
-- plugins are in the order that std::sort has left; the sessions of a loop are counted at once.
use dracon.Prelude.{
  ℕ, zero, suc, ◌-◌, ◌≤◌, ◌<◌, ◌≡◌, ◌⊎◌, inl, inr, refl, ap, arith, List, [], ◌∷◌, ◌++◌, Option,
  none, some, ltb, if◌then◌else◌, Option-cases, Bool-cases,
}
use dracon.Http.Request.{Request}

-- A plugin makes sessions of type `S`.
pub record ServerPlugin (S : Type 0) : Type 0 where
  pub create : Request → Option S
  pub m_order : ℕ

-- The plugins are of this order at least, and each of no greater order than those behind it.
abbrev pub AreFrom : {S : Type 0} → ℕ → List (ServerPlugin S) → Type 0
AreFrom k [] = Unit
AreFrom k (plugin ∷ plugins) = (k ≤ plugin.m_order) × AreFrom k plugins

abbrev pub AreSorted : {S : Type 0} → List (ServerPlugin S) → Type 0
AreSorted [] = Unit
AreSorted (plugin ∷ plugins) = AreFrom plugin.m_order plugins × AreSorted plugins

module _ {S : Type 0} (request : Request) where
  -- server::create_session: the first plugin that has a session.
  unfoldable pub service_for : List (ServerPlugin S) → Option S
  service_for [] = none
  service_for (plugin ∷ plugins) =
      let rest = service_for plugins in
      elim (plugin.create request) [ none ↦ rest | some service ↦ some service ]

  -- The plugins that have a session for the request are of this order at least.
  abbrev pub AnswerFrom : ℕ → List (ServerPlugin S) → Type 0
  AnswerFrom k [] = Unit
  AnswerFrom k (plugin ∷ plugins) =
      ((service : S) → plugin.create request ≡ some service → k ≤ plugin.m_order)
      × AnswerFrom k plugins

  abbrev pub NoneAnswers : List (ServerPlugin S) → Type 0
  NoneAnswers [] = Unit
  NoneAnswers (plugin ∷ plugins) = (plugin.create request ≡ none) × NoneAnswers plugins

  -- The service is that of a plugin of the list, and of the least order of those that answer; or
  -- none answers.
  abbrev pub IsChosen : List (ServerPlugin S) → Option S → Type 0
  IsChosen plugins none = NoneAnswers plugins
  IsChosen plugins (some service) =
      (before : List (ServerPlugin S)) × (plugin : ServerPlugin S) × (after : List (ServerPlugin S))
      × (plugins ≡ before ++ (plugin ∷ after))
      × (plugin.create request ≡ some service)
      × AnswerFrom plugin.m_order plugins

  AreFrom-AnswerFrom :
      (k : ℕ) (plugins : List (ServerPlugin S)) → AreFrom k plugins → AnswerFrom k plugins
  AreFrom-AnswerFrom k [] h = tt
  AreFrom-AnswerFrom k (plugin ∷ plugins) (low, h) =
      (λ service e. low, AreFrom-AnswerFrom k plugins h)

  behind :
      (plugin : ServerPlugin S) (plugins : List (ServerPlugin S)) (o : Option S)
      → plugin.create request ≡ none
      → IsChosen plugins o
      → IsChosen (plugin ∷ plugins) o
  behind plugin plugins none e h = (e, h)
  behind plugin plugins (some service) e (before, chosen, after, at, answers, least) =
      (plugin ∷ before, chosen, after, ap (◌∷◌ plugin) at, answers, (λ s f. cc, least))

  -- Where the plugins are sorted by their order, create_session answers with the session of a
  -- plugin of the list whose order is the least of all plugins that have a session for the request;
  -- and it has none only if no plugin has one.
  pub service_for-IsChosen :
      (plugins : List (ServerPlugin S)) → AreSorted plugins → IsChosen plugins (service_for plugins)
  unfolding service_for
  service_for-IsChosen [] sorted = tt
  service_for-IsChosen (plugin ∷ plugins) (first, sorted) =
      elim (Option-cases (plugin.create request)) [
        | inl silent ↦
            rw (service_for, silent)
              (behind plugin plugins (service_for plugins) silent
                (service_for-IsChosen plugins sorted))
        | inr (service, answers) ↦
            rw (service_for, answers)
              (
                [],
                plugin,
                plugins,
                refl,
                answers,
                (λ s e. omega arith, AreFrom-AnswerFrom plugin.m_order plugins first),
              )
      ]

-- The loops up to number `i`.
unfoldable pub best_upto : (ℕ → ℕ) → ℕ → ℕ
best_upto active_sessions zero = 0
best_upto active_sessions (suc i) =
    let best = best_upto active_sessions i in
    if ltb (active_sessions (suc i)) (active_sessions best) then suc i else best

-- Of so many loops, the one that a new connection goes to.
unfoldable pub best_loop : (ℕ → ℕ) → ℕ → ℕ
best_loop active_sessions event_loops_size = best_upto active_sessions (event_loops_size - 1)

abbrev IsBest : (ℕ → ℕ) → ℕ → ℕ → Type 0
IsBest active_sessions i best =
    (best ≤ i)
    × ((j : ℕ) → j ≤ i → active_sessions best ≤ active_sessions j)
    × ((j : ℕ) → j < best → active_sessions best < active_sessions j)

last_or_before : (i j : ℕ) → j ≤ suc i → (j ≡ suc i) ⊎ (j ≤ i)
last_or_before i j low = elim (Bool-cases (ltb i j)) [
  | inl last ↦ inl (ground (arith, low, last))
  | inr before ↦ inr (ground (arith, before))
]

module _ (active_sessions : ℕ → ℕ) (i best : ℕ) (h : IsBest active_sessions i best) where
  less-IsBest :
      active_sessions (suc i) < active_sessions best → IsBest active_sessions (suc i) (suc i)
  less-IsBest less = (
    omega arith,
    (λ j low. elim (last_or_before i j low) [
      | inl last ↦ rw last (omega arith)
      | inr before ↦ omega (arith, less, h.1 j before)
    ]),
    λ j low. omega (arith, less, h.1 j (omega (arith, low))),
  )

  same-IsBest : active_sessions best ≤ active_sessions (suc i) → IsBest active_sessions (suc i) best
  same-IsBest more = (
    omega (arith, h.0),
    (λ j low. elim (last_or_before i j low) [
      | inl last ↦ rw last more
      | inr before ↦ h.1 j before
    ]),
    h.2,
  )

best_upto-IsBest :
    (active_sessions : ℕ → ℕ) (i : ℕ) → IsBest active_sessions i (best_upto active_sessions i)
unfolding best_upto
best_upto-IsBest active_sessions zero = (
  omega arith,
  (λ j low. let first : j ≡ 0 = omega (arith, low) in rw first (omega arith)),
  λ j low. absurd (omega (arith, low)),
)
best_upto-IsBest active_sessions (suc i) =
    let h = best_upto-IsBest active_sessions i in
    let best = best_upto active_sessions i in
    elim (Bool-cases (ltb (active_sessions (suc i)) (active_sessions best))) [
      | inl less ↦
          rw (best_upto, less) (less-IsBest active_sessions i best h (ground (arith, less)))
      | inr more ↦
          rw (best_upto, more) (same-IsBest active_sessions i best h (ground (arith, more)))
    ]

-- The loop that gets a connection is one of the loops, none has fewer sessions, and each one before
-- it has more.
pub best_loop-IsLeast :
    (active_sessions : ℕ → ℕ) (event_loops_size : ℕ)
    → 0 < event_loops_size
    → let best = best_loop active_sessions event_loops_size in
      (best < event_loops_size)
      × ((j : ℕ) → j < event_loops_size → active_sessions best ≤ active_sessions j)
      × ((j : ℕ) → j < best → active_sessions best < active_sessions j)
unfolding best_loop
best_loop-IsLeast active_sessions event_loops_size some_loop =
    let h = best_upto-IsBest active_sessions (event_loops_size - 1) in
    (omega (arith, some_loop, h.0), (λ j low. h.1 j (omega (arith, low))), h.2)
