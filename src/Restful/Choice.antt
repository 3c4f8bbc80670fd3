-- ===== src/Restful/Choice.antt =====
-- Which route of a router answers a request.
use mathlib.Core.Option
use dracon.Prelude.{
  ℕ, ◌≡◌, ◌∙◌, refl, sym, ap, arith, Bool, true, false, List, [], ◌∷◌, ◌++◌, Option, none, some,
  Bytes, ◌==◌, if◌then◌else◌, length, bytes_eq, find, Bool-cases, Option-cases, inl, inr, Result,
  ok, ◌>>=◌, append_assoc, append-nil,
}
use dracon.Restful.{
  ParsedRoute, Parts, match_parts, Route, find_method, route_handler, Answer, not_mine, handled,
  not_allowed, parse_queries, first_allowed, call_handler, after_routes, route_case, route_loop,
  under_base, create_handler, path_of, npos, parse_queries, handled, not_allowed,
}
use dracon.Utils.Split.{split}

-- The reference for one path: a capture takes any part, other parts are equal.
unfoldable pub matching : Parts → List Bytes → Option (List Bytes)
matching [] [] = some []
matching [] (u ∷ us) = none
matching (p ∷ ps) [] = none
matching ((true, name) ∷ ps) (u ∷ us) = Option.map (◌∷◌ u) (matching ps us)
matching ((false, text) ∷ ps) (u ∷ us) = if bytes_eq text u then matching ps us else none

map-map_some :
    (captures : List Bytes) (u : Bytes) (o : Option (List Bytes))
    → Option.map (λ cs. (captures ++ (u ∷ [])) ++ cs) o
      ≡ Option.map (λ cs. captures ++ cs) (Option.map (◌∷◌ u) o)
map-map_some captures u none = refl
map-map_some captures u (some cs) = ap some (append_assoc captures (u ∷ []) cs)

match_parts-matching :
    (captures : List Bytes) (ps : Parts) (us : List Bytes)
    → length us ≡ length ps
    → match_parts captures ps us ≡ Option.map (λ cs. captures ++ cs) (matching ps us)
unfolding match_parts matching
match_parts-matching captures [] [] e = ap some (sym (append-nil captures))
match_parts-matching captures [] (u ∷ us) e = absurd (omega (arith, e))
match_parts-matching captures (p ∷ ps) [] e = absurd (omega (arith, e))
match_parts-matching captures ((true, name) ∷ ps) (u ∷ us) e =
    match_parts-matching (captures ++ (u ∷ [])) ps us (omega (arith, e))
    ∙ map-map_some captures u (matching ps us)
match_parts-matching captures ((false, text) ∷ ps) (u ∷ us) e =
    elim (Bool-cases (bytes_eq text u)) [
      | inl same ↦ rw same (match_parts-matching captures ps us (omega (arith, e)))
      | inr other ↦ rw other refl
    ]

matching-length :
    (ps : Parts) (us : List Bytes) → (length us == length ps) ≡ false → matching ps us ≡ none
unfolding matching
matching-length [] [] e = cc
matching-length [] (u ∷ us) e = refl
matching-length (p ∷ ps) [] e = refl
matching-length ((true, name) ∷ ps) (u ∷ us) e =
    let e' : (length us == length ps) ≡ false = ground arith in
    ap (Option.map (◌∷◌ u)) (matching-length ps us e')
matching-length ((false, text) ∷ ps) (u ∷ us) e =
    let e' : (length us == length ps) ≡ false = ground arith in
    elim (Bool-cases (bytes_eq text u)) [
      | inl same ↦ rw same (matching-length ps us e')
      | inr other ↦ rw other refl
    ]

map-nil : (o : Option (List Bytes)) → Option.map (λ cs. [] ++ cs) o ≡ o
map-nil none = refl
map-nil (some cs) = refl

module _ {ℓ} {H : Type ℓ} where
  -- What a route does with a request, by the reference.
  abbrev pub serve : Option (List Bytes) → Option H → Option (List Bytes × H) × Bool
  serve none o = (none, false)
  serve (some captures) none = (none, true)
  serve (some captures) (some h) = (some (captures, h), true)

  pub route_handler-serve :
      (urls : List Bytes) (method : Bytes) (rt : Route H)
      → route_handler urls method rt
        ≡ serve (matching rt.m_route_parts urls) (find_method method rt.m_methods)
  unfolding route_handler
  route_handler-serve urls method rt = elim (Bool-cases (length urls == length rt.m_route_parts)) [
    | inl same ↦
        let len : length urls ≡ length rt.m_route_parts = ground arith in
        let m : match_parts [] rt.m_route_parts urls ≡ matching rt.m_route_parts urls =
          match_parts-matching [] rt.m_route_parts urls len ∙ map-nil _ in
        elim (Option-cases (matching rt.m_route_parts urls)) [
          | inl e ↦ rw (same, route_handler, m, e) refl
          | inr (cs, e) ↦ elim (Option-cases (find_method method rt.m_methods)) [
            | inl e' ↦ rw (same, route_handler, m, e, e') refl
            | inr (h, e') ↦ rw (same, route_handler, m, e, e') refl
          ]
        ]
    | inr other ↦ rw (other, route_handler, matching-length rt.m_route_parts urls other) refl
  ]

abbrev or_else : Option Bytes → Option Bytes → Option Bytes
or_else none o = o
or_else (some m) o = some m

module _ {ℓ} {R : Type ℓ} where
  -- The choice: a route that serves, whose handler gets the captures, the queries of the URL and
  -- the methods of the route; else a 405 with the methods of a route that matches; else nothing.
  unfoldable pub choose :
      Option ℕ
      → Bytes
      → Option (Bytes × List Bytes × (ParsedRoute → R))
      → Option Bytes
      → Result (Answer R)
  choose qpos url (some (methods, captures, h)) o = do
    queries ← parse_queries qpos url
    ok (
        handled (
          h (record {
            captures = captures;
            queries = queries;
            all_but_options_node_methods = methods;
          })))
  choose qpos url none none = ok not_mine
  choose qpos url none (some methods) = ok (not_allowed methods)

module _ {ℓ} {R : Type ℓ} (urls : List Bytes) (method : Bytes) where
  -- The first route whose path matches and that has the method: its methods, the captures and the
  -- handler.
  unfoldable pub first_serving :
      List (Route (ParsedRoute → R)) → Option (Bytes × List Bytes × (ParsedRoute → R))
  first_serving [] = none
  first_serving (rt ∷ rts) =
      let others = first_serving rts in
      elim (serve (matching rt.m_route_parts urls) (find_method method rt.m_methods)).0 [
        | some (captures, h) ↦ some (rt.m_all_methods, captures, h)
        | none ↦ others
      ]

  -- The methods of the first route whose path matches.
  unfoldable pub first_matching : List (Route (ParsedRoute → R)) → Option Bytes
  first_matching [] = none
  first_matching (rt ∷ rts) =
      let others = first_matching rts in
      elim (matching rt.m_route_parts urls) [
        | some captures ↦ some rt.m_all_methods
        | none ↦ others
      ]

  route_loop-choose :
      (qpos : Option ℕ) (url : Bytes) (allowed : Option Bytes)
      (rts : List (Route (ParsedRoute → R)))
      → route_loop qpos url method urls allowed rts
        ≡ choose qpos url (first_serving rts) (or_else allowed (first_matching rts))
  unfolding route_loop first_serving first_matching choose after_routes call_handler
  route_loop-choose qpos url none [] = refl
  route_loop-choose qpos url (some m) [] = refl
  route_loop-choose qpos url allowed (rt ∷ rts) =
      let served = route_handler-serve urls method rt in
      let call = call_handler qpos url rt.m_all_methods in
      let skipped = route_loop qpos url method urls allowed rts in
      let matched = route_loop qpos url method urls (first_allowed allowed rt.m_all_methods) rts in
      ap (λ t. route_case t call matched skipped) served
      ∙ elim (Option-cases (matching rt.m_route_parts urls)) [
        | inl e ↦ rw (e, first_serving, first_matching) (route_loop-choose qpos url allowed rts)
        | inr (cs, e) ↦ elim (Option-cases (find_method method rt.m_methods)) [
          | inl e' ↦
              rw (e, e', first_serving, first_matching)
                (route_loop-choose qpos url (first_allowed allowed rt.m_all_methods) rts
                  ∙ ap (choose qpos url (first_serving rts))
                      (allowed_once allowed rt.m_all_methods (first_matching rts)))
          | inr (h, e') ↦ rw (e, e', first_serving) refl
        ]
      ]
    where
      allowed_once :
          (allowed : Option Bytes) (m : Bytes) (o : Option Bytes)
          → or_else (first_allowed allowed m) o ≡ or_else allowed (some m)
      allowed_once none m o = refl
      allowed_once (some k) m o = refl

pub create_handler-choose {ℓ} :
    {R : Type ℓ} (base : List Bytes) (rts : List (Route (ParsedRoute → R))) (url method : Bytes)
    → create_handler base rts url method
      ≡ elim (under_base base (split (path_of (find b'?' url) url) b'/' npos))
          as (λ _. Result (Answer R)) [
            | none ↦ ok not_mine
            | some urls ↦
                choose
                  (find b'?' url)
                  url
                  (first_serving urls method rts)
                  (first_matching urls method rts)
          ]
unfolding create_handler
create_handler-choose base rts url method =
    elim (Option-cases (under_base base (split (path_of (find b'?' url) url) b'/' npos))) [
      | inl e ↦ rw (e, create_handler) refl
      | inr (urls, e) ↦
          rw (e, create_handler) (route_loop-choose urls method (find b'?' url) url none rts)
    ]
