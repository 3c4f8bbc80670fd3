-- ===== src/Restful/Dispatch.antt =====
-- A URL that is written from a route and values for its captures.
use mathlib.Core.Option
use dracon.Prelude.{
  ◌≤◌, ◌≡◌, ◌∙◌, refl, ap, true, false, List, [], ◌∷◌, ◌++◌, none, some, Bytes, is_empty, length,
  find, ok, bytes_eq_refl, Option-cases, inl, inr,
}
use dracon.Restful.{
  ParsedRoute, Parts, Route, find_method, handled, call_handler, parse_queries, under_base,
  create_handler, npos, path_of,
}
use dracon.Restful.Choice.{matching, first_serving, choose, serve, create_handler-choose}
use dracon.Utils.Split.{split}
use dracon.Utils.Split.Join.{slashed, AreSegments, split-slashed, find-slashed}

-- The parts of the URL: the values in place of the captures.
unfoldable pub fill : Parts → List Bytes → List Bytes
fill [] vs = []
fill ((true, name) ∷ ps) [] = []
fill ((true, name) ∷ ps) (v ∷ vs) = v ∷ fill ps vs
fill ((false, text) ∷ ps) vs = text ∷ fill ps vs

-- One value for each capture.
abbrev pub Fits : Parts → List Bytes → Type 0
Fits [] [] = Unit
Fits [] (v ∷ vs) = ⊥
Fits ((true, name) ∷ ps) [] = ⊥
Fits ((true, name) ∷ ps) (v ∷ vs) = Fits ps vs
Fits ((false, text) ∷ ps) vs = Fits ps vs

matching-fill : (ps : Parts) (vs : List Bytes) → Fits ps vs → matching ps (fill ps vs) ≡ some vs
unfolding matching fill
matching-fill [] [] f = refl
matching-fill [] (v ∷ vs) f = elim f [ ]
matching-fill ((true, name) ∷ ps) [] f = elim f [ ]
matching-fill ((true, name) ∷ ps) (v ∷ vs) f = ap (Option.map (◌∷◌ v)) (matching-fill ps vs f)
matching-fill ((false, text) ∷ ps) vs f = rw (bytes_eq_refl text) (matching-fill ps vs f)

under_base-append :
    (base : List Bytes) (u : Bytes) (us : List Bytes)
    → under_base base (base ++ (u ∷ us)) ≡ some (u ∷ us)
unfolding under_base
under_base-append [] u us = refl
under_base-append (b ∷ bs) u us = rw (bytes_eq_refl b) (under_base-append bs u us)

under_base-rest :
    (base us : List Bytes) → is_empty us ≡ false → under_base base (base ++ us) ≡ some us
under_base-rest base [] e = cc
under_base-rest base (u ∷ us) e = under_base-append base u us

module _ {ℓ} {R : Type ℓ} (urls : List Bytes) (method : Bytes) where
  first_serving-append :
      (before after : List (Route (ParsedRoute → R))) (rt : Route (ParsedRoute → R))
      (captures : List Bytes) (h : ParsedRoute → R)
      → first_serving urls method before ≡ none
      → matching rt.m_route_parts urls ≡ some captures
      → find_method method rt.m_methods ≡ some h
      → first_serving urls method (before ++ (rt ∷ after)) ≡ some (rt.m_all_methods, captures, h)
  unfolding first_serving
  first_serving-append [] after rt captures h none_before m f = rw (m, first_serving, f) refl
  first_serving-append (b ∷ before) after rt captures h none_before m f =
      elim (Option-cases
        (serve (matching b.m_route_parts urls) (find_method method b.m_methods)).0) [
          | inl e ↦
              rw (e, first_serving)
                (first_serving-append before after rt captures h
                  (rw (e, first_serving) at none_before) m f)
          | inr (x, e) ↦ cc (rw (e, first_serving) at none_before)
        ]

-- A URL that is written from a route and a value for each capture is answered by the handler that
-- the route has for the method, with exactly these values in the order of the captures, and no
-- queries; provided that no part of the base, the route and the values is empty or has a '/' or a
-- '?', that the parts are not too many for a size_t, and that no earlier route serves the URL.
pub create_handler-fill {ℓ} :
    {R : Type ℓ} (base values : List Bytes) (before after : List (Route (ParsedRoute → R)))
    (rt : Route (ParsedRoute → R)) (method : Bytes) (h : ParsedRoute → R)
    → Fits rt.m_route_parts values
    → is_empty (fill rt.m_route_parts values) ≡ false
    → AreSegments b'/' (base ++ fill rt.m_route_parts values)
    → AreSegments b'?' (base ++ fill rt.m_route_parts values)
    → length (base ++ fill rt.m_route_parts values) ≤ npos
    → find_method method rt.m_methods ≡ some h
    → first_serving (fill rt.m_route_parts values) method before ≡ none
    → create_handler base
        (before ++ (rt ∷ after))
        (slashed b'/' (base ++ fill rt.m_route_parts values))
        method
      ≡ ok (
          handled (
            h (record {
              captures = values;
              queries = [];
              all_but_options_node_methods = rt.m_all_methods;
            })))
unfolding choose call_handler parse_queries
create_handler-fill base values before after rt method h fits some_part slash question few has
      none_before =
    let us = fill rt.m_route_parts values in
    let url = slashed b'/' (base ++ us) in
    let no_query : find b'?' url ≡ none = find-slashed b'?' b'/' (base ++ us) refl question in
    let parts : split url b'/' npos ≡ base ++ us = split-slashed b'/' npos (base ++ us) slash few in
    let under : under_base base (split (path_of (find b'?' url) url) b'/' npos) ≡ some us =
      rw (no_query, parts) (under_base-rest base us some_part) in
    let serving =
      first_serving-append us method before after rt values h none_before
        (matching-fill rt.m_route_parts values fits) has in
    create_handler-choose base (before ++ (rt ∷ after)) url method
    ∙ rw (under, no_query, serving) refl
