-- ===== src/Server/Tests.antt =====
-- The counts of a server, where connections come and go.
use dracon.Prelude.{
  ◌+◌, ◌*◌, ℕ, zero, suc, ◌≡◌, ◌≤◌, ◌<◌, arith, List, [], ◌∷◌, none, some, bytes_eq, if◌then◌else◌,
  true, false, codes, refl, Bytes,
}
use dracon.Http.Request.{Request, fresh_request}
use dracon.Server.Choice.{
  ServerPlugin, service_for, IsChosen, service_for-IsChosen, best_loop, best_loop-IsLeast,
}
use dracon.Server.Status.{split_uptime, split_uptime-bounds}
use dracon.Server.Properties.{
  Ptree, node, no_children, child, merged_properties, leaves, properties_of, IsKeyed,
  merged_properties-leaves,
}
use dracon.Server.{
  Server, connections, set_connections, erase_address, is_active, erase_session,
  server_session_created, disconnect, server_session_deleted, accept_connection, no_sessions,
  Reachable, starts, accepts, ends,
}
use dracon.Server.Counts.{IsCounted, most_sessions, Reachable-IsCounted}

abbrev peer : Bytes
peer = codes "192.0.2.1"

-- One session stays, the constructor of a second one throws, a third one ends.
abbrev one : Server
one = (accept_connection 2 true 1 peer no_sessions).1

abbrev thrown_out : Server
thrown_out = (accept_connection 2 false 2 peer one).1

abbrev two : Server
two = (accept_connection 2 true 3 peer thrown_out).1

abbrev last : Server
last = server_session_deleted 1 two

last-Reachable : Reachable 2 last
unfolding accept_connection server_session_created server_session_deleted disconnect connections
    set_connections erase_address is_active erase_session
last-Reachable =
    ends 1 two
      (accepts true 3 peer thrown_out
        (accepts false 2 peer one (accepts true 1 peer no_sessions starts refl) refl) refl)
      refl

Reachable-IsCounted_example :
    IsCounted 2 last × (last.m_peak_sessions ≡ most_sessions 2 last last-Reachable)
Reachable-IsCounted_example = Reachable-IsCounted 2 last last-Reachable

abbrev answers_paths : Bytes → ℕ → ServerPlugin ℕ
answers_paths path order = record {
  create = λ req. if bytes_eq req.m_url path then some order else none;
  m_order = order;
}

abbrev plugins : List (ServerPlugin ℕ)
plugins =
    answers_paths (codes "/a") 1 ∷ answers_paths (codes "/b") 2 ∷ answers_paths (codes "/b") 3 ∷ []

abbrev asks : Request
asks = record fresh_request { m_url = codes "/b" }

second_answers : service_for asks plugins ≡ some 2
unfolding service_for
second_answers = refl

service_for-IsChosen_example : IsChosen asks plugins (service_for asks plugins)
service_for-IsChosen_example =
    service_for-IsChosen asks plugins
      ((omega arith, (omega arith, tt)), ((omega arith, tt), (tt, tt)))

abbrev sessions_of : ℕ → ℕ
sessions_of zero = 7
sessions_of (suc zero) = 4
sessions_of (suc (suc zero)) = 4
sessions_of (suc (suc (suc i))) = 9

best_loop-IsLeast_example :
    (best_loop sessions_of 4 < 4)
    × ((j : ℕ) → j < 4 → sessions_of (best_loop sessions_of 4) ≤ sessions_of j)
    × ((j : ℕ)
        → j < best_loop sessions_of 4
        → sessions_of (best_loop sessions_of 4) < sessions_of j)
best_loop-IsLeast_example = best_loop-IsLeast sessions_of 4 (omega arith)

abbrev logging : Ptree
logging = node [] (
    child (codes "Core")
      (node [] (child (codes "Filter") (node (codes "info") no_children) no_children))
      (child (codes "Sinks") (node (codes "all") no_children) no_children))

logging_merged :
    merged_properties logging []
    ≡ (codes "Core.Filter", codes "info") ∷ (codes "Sinks", codes "all") ∷ []
unfolding merged_properties
logging_merged = refl

logging-IsKeyed : IsKeyed logging
unfolding IsKeyed
logging-IsKeyed = (refl, (refl, tt, tt), (refl, tt, tt))

merged_properties-leaves_example : merged_properties logging [] ≡ properties_of (leaves logging [])
merged_properties-leaves_example = merged_properties-leaves logging logging-IsKeyed

-- A day, two hours, three minutes and four seconds.
split_uptime-bounds_example :
    (1 * (60 * 60 * 24) + 2 * (60 * 60) + 3 * 60 + 4 ≡ 93784) × (2 < 24) × (3 < 60) × (4 < 60)
unfolding split_uptime
split_uptime-bounds_example = split_uptime-bounds 93784
