-- ===== src/Server.antt =====
-- src/server/server.cpp: how class server admits connections and counts its sessions. A session is
-- a number, an address is its text.
pub mod Connections
pub mod Choice
pub mod Counts
pub mod Properties
pub mod Status
mod Tests
use dracon.Prelude.{
  ℕ, ◌+◌, ◌-◌, ◌≡◌, Bool, true, false, List, [], ◌∷◌, Option, none, some, Bytes, bytes_eq, ltb, leb,
  ◌==◌, length, max, if◌then◌else◌,
}

pub record Server : Type 0 where
  pub m_active_sessions : List ℕ
  pub m_active_sessions_count : ℕ
  pub m_peak_sessions : ℕ
  pub m_connections_per_ip : List (Bytes × ℕ)
  -- Of the sessions.
  pub peer_address : ℕ → Bytes

-- `m_connections_per_ip[addr]`, 0 for an address that is not there.
unfoldable pub connections : Bytes → List (Bytes × ℕ) → ℕ
connections addr [] = 0
connections addr ((a, n) ∷ counts) = if bytes_eq a addr then n else connections addr counts

unfoldable pub set_connections : Bytes → ℕ → List (Bytes × ℕ) → List (Bytes × ℕ)
set_connections addr k [] = (addr, k) ∷ []
set_connections addr k ((a, n) ∷ counts) =
    let rest = set_connections addr k counts in
    if bytes_eq a addr then (a, k) ∷ counts else (a, n) ∷ rest

unfoldable pub erase_address : Bytes → List (Bytes × ℕ) → List (Bytes × ℕ)
erase_address addr [] = []
erase_address addr ((a, n) ∷ counts) =
    let rest = erase_address addr counts in if bytes_eq a addr then rest else (a, n) ∷ rest

unfoldable pub is_active : ℕ → List ℕ → Bool
is_active x [] = false
is_active x (y ∷ ys) = if y == x then true else is_active x ys

unfoldable pub erase_session : ℕ → List ℕ → List ℕ
erase_session x [] = []
erase_session x (y ∷ ys) = let rest = erase_session x ys in if y == x then ys else y ∷ rest

abbrev pub with_address : (ℕ → Bytes) → ℕ → Bytes → ℕ → Bytes
with_address peer_address session addr id = if id == session then addr else peer_address id

-- The constructor of a session with its address, which calls server_session_created.
unfoldable pub server_session_created : ℕ → Bytes → Server → Server
unfolding is_active
server_session_created session addr s =
    let sessions =
      if is_active session s.m_active_sessions
      then s.m_active_sessions
      else session ∷ s.m_active_sessions in
    record s {
      m_active_sessions = sessions;
      m_active_sessions_count = length sessions;
      m_peak_sessions =
          if ltb s.m_peak_sessions (length sessions) then length sessions else s.m_peak_sessions;
      peer_address = with_address s.peer_address session addr;
    }

-- What is left of an address when one connection of it is gone.
unfoldable pub disconnect : Bytes → List (Bytes × ℕ) → List (Bytes × ℕ)
unfolding connections set_connections erase_address
disconnect addr counts =
    if connections addr counts - 1 == 0
    then erase_address addr counts
    else set_connections addr (connections addr counts - 1) counts

unfoldable pub server_session_deleted : ℕ → Server → Server
unfolding disconnect erase_session
server_session_deleted session s =
    let sessions = erase_session session s.m_active_sessions in
    record s {
      m_active_sessions = sessions;
      m_active_sessions_count = length sessions;
      m_connections_per_ip = disconnect (s.peer_address session) s.m_connections_per_ip;
    }

-- A connection is accepted: where there are too many of the address it is closed; else its order,
-- and its session, is made. `complete` is whether the constructor of the session does not throw
-- behind its base, whose destructor then counts it out again.
unfoldable pub accept_connection : ℕ → Bool → ℕ → Bytes → Server → Option ℕ × Server
unfolding connections set_connections server_session_created server_session_deleted
accept_connection max_connections_per_ip complete session addr s =
    let order = connections addr s.m_connections_per_ip in
    if leb max_connections_per_ip order
    then (
      none,
      record s { m_connections_per_ip = set_connections addr order s.m_connections_per_ip },
    )
    else (let counted = record s {
      m_connections_per_ip = set_connections addr (order + 1) s.m_connections_per_ip;
    } in
        let created = server_session_created session addr counted in
        (some order, if complete then created else server_session_deleted session created))

abbrev pub no_sessions : Server
no_sessions = record {
  m_active_sessions = [];
  m_active_sessions_count = 0;
  m_peak_sessions = 0;
  m_connections_per_ip = [];
  peer_address = λ _. [];
}

-- The steps of a server: a connection whose session is new, and the end of a session.
pub data Reachable (max_connections_per_ip : ℕ) : Server → Type 0 where
  starts : Reachable max_connections_per_ip no_sessions
  accepts :
      (complete : Bool) (session : ℕ) (addr : Bytes) (s : Server)
      → Reachable max_connections_per_ip s
      → is_active session s.m_active_sessions ≡ false
      → Reachable max_connections_per_ip
          (accept_connection max_connections_per_ip complete session addr s).1
  ends :
      (session : ℕ) (s : Server)
      → Reachable max_connections_per_ip s
      → is_active session s.m_active_sessions ≡ true
      → Reachable max_connections_per_ip (server_session_deleted session s)
