-- ===== src/Restful/Tests.antt =====
-- A router with the routes "customers/{id}" and "customers/{id}/licenses".
use dracon.Prelude.{◌≡◌, refl, arith, true, false, List, [], ◌∷◌, ◌++◌, Bytes, codes, ok}
use dracon.Restful.{
  ParsedRoute, Route, handled, not_mine, not_allowed, create_handler, create_route,
  parse_route_parts, parse_parts, new_route, is_route, same_parts, set_method_handler, add_to_all,
  find_method, route_handler, match_parts, route_loop, after_routes, call_handler, parse_queries,
  query_pairs, under_base, npos,
}
use dracon.Restful.Choice.{first_serving}
use dracon.Restful.Dispatch.{fill, create_handler-fill}
use dracon.Restful.Routes.{IsListed, comma_joined, register, last_registered, register-IsListed}
use dracon.Utils.Split.{split, split_loop, cut, nonempty, split-cut}
use dracon.Utils.Split.Join.{slashed, split-slashed}
use dracon.Utils.UnescapeUrl.{unescape_url, from_hex}

-- A handler that answers with all it is given.
abbrev everything : ParsedRoute → ParsedRoute
everything p = p

abbrev regs : List (Bytes × (ParsedRoute → ParsedRoute))
regs = (codes "GET", everything) ∷ (codes "OPTIONS", everything) ∷ (codes "PUT", everything) ∷ []

abbrev bare : Route (ParsedRoute → ParsedRoute)
bare = record {
  m_route_parts = (false, codes "customers") ∷ (true, codes "id") ∷ [];
  m_methods = [];
  m_all_methods = [];
}

bare-declared : new_route {H = ParsedRoute → ParsedRoute} (codes "customers/{id}") ≡ ok bare
unfolding new_route parse_route_parts parse_parts split split_loop
bare-declared = refl

abbrev customer : Route (ParsedRoute → ParsedRoute)
customer = record {
  m_route_parts = (false, codes "customers") ∷ (true, codes "id") ∷ [];
  m_methods = regs;
  m_all_methods = codes "GET, PUT";
}

registered : register regs bare ≡ customer
unfolding register set_method_handler add_to_all find_method
registered = refl

bare-IsListed : IsListed bare
unfolding comma_joined
bare-IsListed = record { allow = refl; named = tt; once = tt }

register-IsListed_example :
    IsListed (register regs bare)
    × ((k : Bytes)
        → find_method k (register regs bare).m_methods
          ≡ last_registered k regs (find_method k bare.m_methods))
register-IsListed_example = register-IsListed regs bare (refl, (refl, (refl, tt))) bare-IsListed

-- The answers of a router under "api/v1".
abbrev base : List Bytes
base = codes "api" ∷ codes "v1" ∷ []

answers :
    (create_handler base (customer ∷ []) (codes "/api/v1/customers/7?a=b%3D=&c") (codes "GET")
      ≡ ok (
          handled (record {
            captures = codes "7" ∷ [];
            queries = (codes "a", codes "b==") ∷ (codes "c", []) ∷ [];
            all_but_options_node_methods = codes "GET, PUT";
          })))
    × (create_handler base (customer ∷ []) (codes "/api/v1/customers/7") (codes "POST")
        ≡ ok (not_allowed (codes "GET, PUT")))
    × (create_handler base (customer ∷ []) (codes "/api/v1/customers") (codes "GET") ≡ ok not_mine)
unfolding create_handler split split_loop under_base route_loop route_handler match_parts
    find_method call_handler parse_queries query_pairs unescape_url from_hex after_routes
answers = (refl, refl, refl)

filled : fill customer.m_route_parts (codes "7" ∷ []) ≡ codes "customers" ∷ codes "7" ∷ []
unfolding fill
filled = refl

create_handler-fill_example :
    create_handler base
      ([] ++ (customer ∷ []))
      (slashed b'/' (base ++ fill customer.m_route_parts (codes "7" ∷ [])))
      (codes "PUT")
    ≡ ok (
        handled (
          everything (record {
            captures = codes "7" ∷ [];
            queries = [];
            all_but_options_node_methods = customer.m_all_methods;
          })))
unfolding fill find_method first_serving
create_handler-fill_example =
    create_handler-fill base (codes "7" ∷ []) [] [] customer (codes "PUT") everything tt refl
      ((refl, refl), ((refl, refl), ((refl, refl), ((refl, refl), tt))))
      ((refl, refl), ((refl, refl), ((refl, refl), ((refl, refl), tt)))) (omega arith) refl refl

-- A capture of another name makes another route.
abbrev items : Route (ParsedRoute → ParsedRoute)
items = record {
  m_route_parts = (false, codes "items") ∷ (true, codes "id") ∷ [];
  m_methods = [];
  m_all_methods = [];
}

abbrev items_again : Route (ParsedRoute → ParsedRoute)
items_again = record items { m_route_parts = (false, codes "items") ∷ (true, codes "item_id") ∷ [] }

two_routes : create_route (codes "items/{item_id}") (items ∷ []) ≡ ok (items ∷ items_again ∷ [], 1)
unfolding create_route is_route new_route parse_route_parts parse_parts split split_loop same_parts
two_routes = refl

split-cut_example : split (codes "a=b=c") b'=' 1 ≡ nonempty (cut b'=' 1 (codes "a=b=c"))
split-cut_example = split-cut (codes "a=b=c") b'=' 1

split-slashed_example :
    split (slashed b'/' (codes "api" ∷ codes "v1" ∷ [])) b'/' npos ≡ codes "api" ∷ codes "v1" ∷ []
split-slashed_example =
    split-slashed b'/' npos (codes "api" ∷ codes "v1" ∷ []) ((refl, refl), ((refl, refl), tt))
      (omega arith)
