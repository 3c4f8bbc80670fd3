-- ===== src/Restful.antt =====
-- include/dracon/restful.h: restful_route and restful_router. A handler is any function of what the
-- router parsed; a map of methods is its entries in the order of registration.
pub mod Choice
pub mod Dispatch
pub mod Routes
mod Tests
use Prim.Native.String.{String}
use dracon.Prelude.{
  ℕ, zero, suc, ◌+◌, ◌-◌, ◌^◌, Bool, true, false, not, ◌&&◌, List, [], ◌∷◌, ◌++◌, Option, none,
  some, Bytes, codes, ltb, ◌==◌, if◌then◌else◌, is_empty, length, take, drop, find, get_or, last_or,
  bytes_eq, Result, ok, fail, thrown, out_of_fuel, ◌>>=◌, ◌>>◌, fail_if,
}
use dracon.Utils.Split.{split}
use dracon.Utils.UnescapeUrl.{unescape_url}

-- `std::string::npos`, the default `count` of `split`.
abbrev pub npos : ℕ
npos = 2 ^ 64 - 1

pub record ParsedRoute : Type 0 where
  pub captures : List Bytes
  pub queries : List (Bytes × Bytes)
  pub all_but_options_node_methods : Bytes

-- `captured_resource`.
unfoldable pub captured_resource : List Bytes → ℕ → Bytes
captured_resource captures index = get_or captures index []

-- Whether a part captures, and its text or the name of the capture.
abbrev pub Parts : Type 0
Parts = List (Bool × Bytes)

unfoldable pub parse_part : Bytes → Result (Bool × Bytes)
parse_part part =
    if ltb (length part) 2
    then fail 400 "Invalid route"
    else if get_or part 0 0 == b'{' && last_or 0 part == b'}'
    then ok (true, take (length part - 2) (drop 1 part))
    else ok (false, part)

unfoldable pub parse_parts : List Bytes → Result Parts
unfolding parse_part
parse_parts [] = ok []
parse_parts (part ∷ parts) = do p ← parse_part part; ps ← parse_parts parts; ok (p ∷ ps)

unfoldable pub parse_route_parts : Bytes → Result Parts
parse_route_parts route = parse_parts (split route b'/' npos)

bool_eq : Bool → Bool → Bool
bool_eq true b = b
bool_eq false b = not b

unfoldable pub same_parts : Parts → Parts → Bool
unfolding bool_eq
same_parts [] [] = true
same_parts ((c, s) ∷ ps) ((d, t) ∷ qs) = bool_eq c d && bytes_eq s t && same_parts ps qs
same_parts _ _ = false

-- The loop over the parts of a URL and of a route, of the same number.
unfoldable pub match_parts : List Bytes → Parts → List Bytes → Option (List Bytes)
match_parts captures [] urls = some captures
match_parts captures (p ∷ ps) [] = some captures
match_parts captures ((true, name) ∷ ps) (url ∷ urls) = match_parts (captures ++ (url ∷ [])) ps urls
match_parts captures ((false, text) ∷ ps) (url ∷ urls) =
    if bytes_eq text url then match_parts captures ps urls else none

module _ {ℓ} (H : Type ℓ) where
  pub record Route : Type ℓ where
    pub m_route_parts : Parts
    pub m_methods : List (Bytes × H)
    pub m_all_methods : Bytes

unfoldable pub add_to_all : Bytes → Bytes → Bytes
add_to_all method methods =
    if bytes_eq method (codes "OPTIONS")
    then methods
    else if is_empty methods
    then method
    else methods ++ (codes ", " ++ method)

module _ {ℓ} {H : Type ℓ} where
  unfoldable pub find_method : Bytes → List (Bytes × H) → Option H
  find_method method [] = none
  find_method method ((m, h) ∷ ms) = if bytes_eq m method then some h else find_method method ms

  -- `m_methods[method] = creator`, for a method that is there.
  unfoldable pub replace_method : Bytes → H → List (Bytes × H) → List (Bytes × H)
  replace_method method h [] = []
  replace_method method h ((m, g) ∷ ms) =
      if bytes_eq m method then (m, h) ∷ ms else (m, g) ∷ replace_method method h ms

  unfoldable pub set_method_handler : Bytes → H → Route H → Route H
  unfolding add_to_all
  set_method_handler method creator route = elim (find_method method route.m_methods) [
    | none ↦ record route {
      m_methods = route.m_methods ++ ((method, creator) ∷ []);
      m_all_methods = add_to_all method route.m_all_methods;
    }
    | some h ↦ record route { m_methods = replace_method method creator route.m_methods }
  ]

  unfoldable pub new_route : Bytes → Result (Route H)
  new_route route = do
    parts ← parse_route_parts route
    ok (record { m_route_parts = parts; m_methods = []; m_all_methods = [] })

  -- `*rt == route`.
  unfoldable pub is_route : Route H → Bytes → Result Bool
  is_route rt route = do other ← parse_route_parts route; ok (same_parts other rt.m_route_parts)

  -- `create_route`: the routes, and the index of the one that is returned.
  unfoldable pub create_route : Bytes → List (Route H) → Result (List (Route H) × ℕ)
  create_route route [] = do rt ← new_route route; ok (rt ∷ [], 0)
  create_route route (rt ∷ rts) = do
    same ← is_route rt route
    if same
        then ok (rt ∷ rts, 0)
        else (do (rts', i) ← create_route route rts; ok (rt ∷ rts', suc i))

  -- `restful_route::create_handler`: what it returns, and `path_matched`.
  unfoldable pub route_handler : List Bytes → Bytes → Route H → Option (List Bytes × H) × Bool
  route_handler url_parts method route =
      if not (length url_parts == length route.m_route_parts)
      then (none, false)
      else elim (match_parts [] route.m_route_parts url_parts) [
        | none ↦ (none, false)
        | some captures ↦ elim (find_method method route.m_methods) [
          | none ↦ (none, true)
          | some h ↦ (some (captures, h), true)
        ]
      ]

-- A pair of a query string, cut at its first '='.
unfoldable pub query_pair : List Bytes → Result (Bytes × Bytes)
query_pair (key ∷ []) = do k ← unescape_url key; ok (k, [])
query_pair (key ∷ value ∷ []) = do k ← unescape_url key; v ← unescape_url value; ok (k, v)
query_pair _ = fail 400 "Invalid query strings"

unfoldable pub query_pairs : List Bytes → Result (List (Bytes × Bytes))
unfolding query_pair
query_pairs [] = ok []
query_pairs (pair ∷ pairs) = do
  q ← query_pair (split pair b'=' 1)
  qs ← query_pairs pairs
  ok (q ∷ qs)

-- The query string of a URL, if it has one.
unfoldable pub parse_queries : Option ℕ → Bytes → Result (List (Bytes × Bytes))
parse_queries none url = ok []
parse_queries (some qpos) url = query_pairs (split (drop (qpos + 1) url) b'&' npos)

-- What a router does: a handler's result, or nothing (`{}`), or a thrown 405 with this Allow header.
pub data Answer {ℓ} (R : Type ℓ) : Type ℓ where
  handled : R → Answer R
  not_mine : Answer R
  not_allowed : Bytes → Answer R

abbrev first_allowed : Option Bytes → Bytes → Option Bytes
first_allowed none methods = some methods
first_allowed (some m) methods = some m

-- The base URL is a prefix of the resources, and something is left.
unfoldable pub under_base : List Bytes → List Bytes → Option (List Bytes)
under_base [] [] = none
under_base [] (r ∷ rs) = some (r ∷ rs)
under_base (b ∷ bs) [] = none
under_base (b ∷ bs) (r ∷ rs) = if bytes_eq r b then under_base bs rs else none

-- `url.substr(0, qpos)`.
abbrev pub path_of : Option ℕ → Bytes → Bytes
path_of none url = url
path_of (some qpos) url = take qpos url

module _ {ℓ} {R : Type ℓ} where
  -- The call of the handler, with the queries parsed.
  unfoldable pub call_handler :
      Option ℕ → Bytes → Bytes → List Bytes × (ParsedRoute → R) → Result (Answer R)
  call_handler qpos url methods (captures, handler) = do
    queries ← parse_queries qpos url
    ok (
        handled (
          handler (record {
            captures = captures;
            queries = queries;
            all_but_options_node_methods = methods;
          })))

  -- The end of the loop over the routes.
  unfoldable pub after_routes : Option Bytes → Result (Answer R)
  after_routes none = ok not_mine
  after_routes (some methods) = ok (not_allowed methods)

  -- A round: the route has a handler, or its path matches, or neither.
  abbrev pub route_case :
      Option (List Bytes × (ParsedRoute → R)) × Bool
      → (List Bytes × (ParsedRoute → R) → Result (Answer R))
      → Result (Answer R)
      → Result (Answer R)
      → Result (Answer R)
  route_case (some handle, path_matched) call matched skipped = call handle
  route_case (none, true) call matched skipped = matched
  route_case (none, false) call matched skipped = skipped

  -- The loop over the routes, with `allowed_methods`.
  unfoldable pub route_loop :
      Option ℕ
      → Bytes
      → Bytes
      → List Bytes
      → Option Bytes
      → List (Route (ParsedRoute → R))
      → Result (Answer R)
  route_loop qpos url method resources allowed [] = after_routes allowed
  route_loop qpos url method resources allowed (rt ∷ rts) =
      let found = route_handler resources method rt in
      let skipped = route_loop qpos url method resources allowed rts in
      let matched =
        route_loop qpos url method resources (first_allowed allowed rt.m_all_methods) rts in
      route_case found (call_handler qpos url rt.m_all_methods) matched skipped

  unfoldable pub create_handler :
      List Bytes → List (Route (ParsedRoute → R)) → Bytes → Bytes → Result (Answer R)
  create_handler m_base_url m_routes url method =
      let qpos = find b'?' url in
      elim (under_base m_base_url (split (path_of qpos url) b'/' npos)) [
        | none ↦ ok not_mine
        | some resources ↦ route_loop qpos url method resources none m_routes
      ]

-- The constructor: the parts of the base URL.
unfoldable pub base_url_parts : Bytes → List Bytes
base_url_parts base_url = split base_url b'/' npos
