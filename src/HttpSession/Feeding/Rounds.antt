-- ===== src/HttpSession/Feeding/Rounds.antt =====
-- The rounds of the loop of `read_headers` and `read`, one after the other.
use dracon.Prelude.{
  ℕ, ◌+◌, ◌≡◌, ◌∙◌, ◌⊎◌, inl, inr, refl, sym, ap, arith, Bool, true, false, List, [], ◌∷◌, ◌++◌,
  Bytes, is_empty, drop, append-nil, append_assoc, Result, ok, fail, thrown, out_of_fuel,
  Bool-cases, zero_plus, drop-drop, subst,
}
use dracon.Http.Request.{ParseState, Request}
use dracon.HttpParser.State.{State}
use dracon.HttpSession.{
  Event, received, read_failed, resumed, resumed_with, HttpSession, Ended, blocked, Round, go_on,
  end_with, after_round, parsed_round, pending_round, received_round, event_round, read_loop,
}
use dracon.Scanner.Append.{moved}
use dracon.HttpSession.Feeding.{
  IsIncremental, arrived, AreCalm, AsOneCall, Fed, Fed-append, Fed-parse, Fed-now, Fed-complete,
}

pub is_empty→nil : (xs : Bytes) → is_empty xs ≡ true → xs ≡ []
is_empty→nil [] e = refl
is_empty→nil (x ∷ xs) e = cc

-- An event of a calm list is calm, and so are the others.
pub calm_rest : (e : Event) (es : List Event) → AreCalm (e ∷ es) → AreCalm es
calm_rest (received b bs) es c = c
calm_rest resumed es c = c
calm_rest (read_failed ec) es c = absurd c
calm_rest (resumed_with ec) es c = absurd c

moved_zero : (m : Result (State × ℕ)) → moved 0 m ≡ m
moved_zero (ok (s, n)) = ap (λ t. ok (s, t)) (zero_plus n)
moved_zero (fail _ _) = refl
moved_zero (thrown _) = refl
moved_zero out_of_fuel = refl

module _ (parse : Bytes → State → Result (State × ℕ)) (over : ParseState → Bool)
    (Good : State → Type 0) (inc : IsIncremental parse over Good) where
  -- The parser has seen all that has arrived.
  abbrev Settled : State → Bytes → State → Bytes → Type 0
  Settled s0 before s pending =
      (before ≡ [] × (s ≡ s0) × (pending ≡ []))
      ⊎ ((n : ℕ) × (parse before s0 ≡ ok (s, n))
          × (over s.1.m_state ≡ false)
          × (pending ≡ drop n before))

  -- What a round leaves: an end as of one call, or a state as `P` says.
  abbrev RoundOk : (HttpSession → Request → Type 0) → State → Bytes → List Event → Round → Type 0
  RoundOk P s0 before es (go_on se req) = P se req
  RoundOk P s0 before es (end_with e) = AsOneCall parse over (before ++ arrived es) s0 e

  abbrev IsFed : State → Bytes → HttpSession → Request → Type 0
  IsFed s0 before se req = Fed parse over Good inc s0 before (se.m_parser, req) se.m_pending

  abbrev IsSettled : State → Bytes → HttpSession → Request → Type 0
  IsSettled s0 before se req =
      IsFed s0 before se req × Settled s0 before (se.m_parser, req) se.m_pending

  parsed_round-RoundOk :
      (s0 s : State) (before bytes : Bytes) (es : List Event) (se : HttpSession)
      (m : Result (State × ℕ))
      → Fed parse over Good inc s0 before s bytes
      → parse bytes s ≡ m
      → RoundOk (IsSettled s0 before) s0 before es (parsed_round over es se bytes m)
  parsed_round-RoundOk s0 s before bytes es se (ok (p, k)) f e =
      elim (Bool-cases (over p.1.m_state)) [
        | inl fin ↦ rw fin (Fed-complete parse over Good inc s0 before bytes es se p k s f e fin)
        | inr nf ↦
            let (n, _, left, now) = Fed-now parse over Good inc s0 s before bytes f in
            rw nf (
              Fed-parse parse over Good inc s0 s p before bytes k f e nf,
              inr (n + k, now ∙ ap (moved n) e, nf, ap (drop k) (sym left) ∙ drop-drop k n before),
            )
      ]
  parsed_round-RoundOk s0 s before bytes es se (fail status reason) f e =
      let (n, _, _, now) = Fed-now parse over Good inc s0 s before bytes f in
      (before, arrived es, refl, now ∙ ap (moved n) e)
  parsed_round-RoundOk s0 s before bytes es se (thrown what) f e =
      let (n, _, _, now) = Fed-now parse over Good inc s0 s before bytes f in
      (before, arrived es, refl, now ∙ ap (moved n) e)
  parsed_round-RoundOk s0 s before bytes es se out_of_fuel f e =
      absurd (rw e at (inc.returns bytes s f.good))

  pending_round-RoundOk :
      (s0 : State) (before : Bytes) (es : List Event) (se : HttpSession) (req : Request)
      → IsFed s0 before se req
      → (is_empty se.m_pending ≡ true → Settled s0 before (se.m_parser, req) se.m_pending)
      → RoundOk (IsSettled s0 before) s0 before es (pending_round parse over es se req)
  unfolding pending_round
  pending_round-RoundOk s0 before es se req f settled = elim (Bool-cases (is_empty se.m_pending)) [
    | inl none ↦ rw none (f, settled none)
    | inr some ↦
        rw some (parsed_round-RoundOk s0 (se.m_parser, req) before se.m_pending es se _ f refl)
  ]

  abbrev Continues : State → Bytes → HttpSession → Request → Type 0
  Continues s0 before se req =
      IsFed s0 before se req
      × (is_empty se.m_pending ≡ true → Settled s0 before (se.m_parser, req) se.m_pending)

  RoundOk-Continues :
      (s0 : State) (before : Bytes) (es : List Event) (r : Round)
      → RoundOk (IsSettled s0 before) s0 before es r
      → RoundOk (Continues s0 before) s0 before es r
  RoundOk-Continues s0 before es (go_on se req) h = (h.0, λ _. h.1)
  RoundOk-Continues s0 before es (end_with e) h = h

  some_bytes : (x : ℕ) (xs ys : Bytes) → is_empty (ys ++ (x ∷ xs)) ≡ true → ⊥
  some_bytes x xs [] e = cc
  some_bytes x xs (y ∷ ys) e = cc

  received_round-RoundOk :
      (s0 : State) (before : Bytes) (b : ℕ) (bs : Bytes) (es : List Event) (se : HttpSession)
      (req : Request)
      → IsFed s0 before se req
      → RoundOk
          (Continues s0 (before ++ (b ∷ bs)))
          s0
          (before ++ (b ∷ bs))
          es
          (received_round parse over es (b ∷ bs) se req)
  unfolding received_round
  received_round-RoundOk s0 before b bs es se req f =
      let fed =
        Fed-append parse over Good inc s0 (se.m_parser, req) before se.m_pending (b ∷ bs) f in
      elim (Bool-cases (is_empty se.m_pending)) [
        | inl none ↦
            let nil = is_empty→nil se.m_pending none in
            rw none (
              RoundOk-Continues s0 (before ++ (b ∷ bs)) es _ (
                parsed_round-RoundOk s0 (se.m_parser, req) (before ++ (b ∷ bs)) (b ∷ bs) es se _
                  (rw nil at fed) refl))
        | inr some ↦ rw some (fed, λ e. absurd (some_bytes b bs se.m_pending e))
      ]

  event_round-RoundOk :
      (s0 : State) (before : Bytes) (e : Event) (es : List Event) (se : HttpSession) (req : Request)
      → AreCalm (e ∷ es)
      → IsSettled s0 before se req
      → RoundOk
          (Continues s0 (before ++ arrived (e ∷ [])))
          s0
          (before ++ arrived (e ∷ []))
          es
          (event_round parse over e es se req)
  unfolding event_round arrived
  event_round-RoundOk s0 before (received b bs) es se req calm h =
      rw (append-nil bs)
        (received_round-RoundOk s0 before b bs es (record se { m_can_write_error = true }) req h.0)
  event_round-RoundOk s0 before resumed es se req calm h = rw (append-nil before) (h.0, λ _. h.1)
  event_round-RoundOk s0 before (read_failed ec) es se req calm h = absurd calm
  event_round-RoundOk s0 before (resumed_with ec) es se req calm h = absurd calm

  arrived-cons :
      (before : Bytes) (e : Event) (es : List Event)
      → (before ++ arrived (e ∷ [])) ++ arrived es ≡ before ++ arrived (e ∷ es)
  unfolding arrived
  arrived-cons before (received b bs) es =
      rw (append-nil bs) (append_assoc before (b ∷ bs) (arrived es))
  arrived-cons before (read_failed ec) es = rw (append-nil before)
  arrived-cons before resumed es = rw (append-nil before)
  arrived-cons before (resumed_with ec) es = rw (append-nil before)

  after_round-AsOneCall :
      (s0 : State) (P : HttpSession → Request → Type 0) (before all : Bytes) (es : List Event)
      (r : Round) (next : HttpSession → Request → Ended)
      → before ++ arrived es ≡ all
      → RoundOk P s0 before es r
      → ((se : HttpSession) (req : Request) → P se req → AsOneCall parse over all s0 (next se req))
      → AsOneCall parse over all s0 (after_round r next)
  after_round-AsOneCall s0 P before all es (go_on se req) next e h k = k se req h
  after_round-AsOneCall s0 P before all es (end_with ended) next e h k =
      subst (λ a. AsOneCall parse over a s0 ended) e h

  loop-AsOneCall :
      (s0 : State) (before : Bytes) (es : List Event) (se : HttpSession) (req : Request)
      → AreCalm es
      → Continues s0 before se req
      → AsOneCall parse over (before ++ arrived es) s0 (read_loop parse over es se req)
  unfolding read_loop arrived
  loop-AsOneCall s0 before [] se req calm h =
      after_round-AsOneCall s0 (IsSettled s0 before) before (before ++ []) [] _ blocked refl
        (pending_round-RoundOk s0 before [] se req h.0 h.1)
        λ se1 req1 h1. rw (append-nil before) h1.1
  loop-AsOneCall s0 before (e ∷ es) se req calm h =
      after_round-AsOneCall s0 (IsSettled s0 before) before (before ++ arrived (e ∷ es)) (e ∷ es) _
        _ refl (pending_round-RoundOk s0 before (e ∷ es) se req h.0 h.1)
        λ se1 req1 h1.
          after_round-AsOneCall s0 (Continues s0 (before ++ arrived (e ∷ [])))
            (before ++ arrived (e ∷ [])) (before ++ arrived (e ∷ es)) es _ _
            (arrived-cons before e es) (event_round-RoundOk s0 before e es se1 req1 calm h1)
            λ se2 req2 h2.
              subst (λ a. AsOneCall parse over a s0 (read_loop parse over es se2 req2))
                (arrived-cons before e es)
                (loop-AsOneCall s0 (before ++ arrived (e ∷ [])) es se2 req2 (calm_rest e es calm)
                  h2)

  -- Whatever pieces the bytes arrive in.
  pub read_loop-AsOneCall :
      (es : List Event) (se : HttpSession) (req : Request)
      → Good (se.m_parser, req)
      → AreCalm es
      → AsOneCall parse over
          (se.m_pending ++ arrived es)
          (se.m_parser, req)
          (read_loop parse over es se req)
  read_loop-AsOneCall es se req good calm =
      loop-AsOneCall (se.m_parser, req) se.m_pending es se req calm
        (
          record {
            taken = 0;
            within = omega arith;
            left = refl;
            same = λ more. sym (moved_zero (parse (se.m_pending ++ more) (se.m_parser, req)));
            good = good;
          },
          λ e. let nil = is_empty→nil se.m_pending e in inl (nil, refl, nil),
        )
