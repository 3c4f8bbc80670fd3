-- ===== src/Server/Counts.antt =====
-- The counts of sessions and of the connections of an address, over all that may happen.
use dracon.Prelude.{
  ℕ, ◌+◌, ◌≤◌, ◌<◌, ◌≡◌, ◌∙◌, refl, sym, max, arith, Bool, true, false, Bytes, bytes_eq, leb,
  length, if◌then◌else◌, Bool-cases, inl, inr, suc, ==_refl,
}
use dracon.Server.{
  Server, connections, set_connections, is_active, erase_session, server_session_created,
  server_session_deleted, accept_connection, no_sessions, Reachable, starts, accepts, ends,
}
use dracon.Server.Connections.{
  connections-set, live, live_with, live-erase_session, connections-disconnect, one_fewer, one_more,
  own_address, peak_above, same_if, still_limited, still_small, length-erase_session, peak_max,
}

-- The counts are exact and within the limit.
pub record IsCounted (max_connections_per_ip : ℕ) (s : Server) : Type 0 where
  pub exact :
      (addr : Bytes)
      → connections addr s.m_connections_per_ip ≡ live addr s.peer_address s.m_active_sessions
  pub limited : (addr : Bytes) → connections addr s.m_connections_per_ip ≤ max_connections_per_ip
  pub counted : s.m_active_sessions_count ≡ length s.m_active_sessions
  pub peaked : length s.m_active_sessions ≤ s.m_peak_sessions

module _ (max_connections_per_ip : ℕ) where
  deleted-IsCounted :
      (session : ℕ) (s : Server)
      → IsCounted max_connections_per_ip s
      → is_active session s.m_active_sessions ≡ true
      → IsCounted max_connections_per_ip (server_session_deleted session s)
  unfolding server_session_deleted
  deleted-IsCounted session s c there =
      let addr = s.peer_address session in
      let less = length-erase_session session s.m_active_sessions in
      record {
        exact = λ b.
            connections-disconnect addr b s.m_connections_per_ip
            ∙ one_fewer addr b s.m_connections_per_ip
                (live b s.peer_address (erase_session session s.m_active_sessions))
                (c.exact b ∙ live-erase_session b s.peer_address session s.m_active_sessions there);
        limited = λ b. rw (connections-disconnect addr b s.m_connections_per_ip) (
            still_limited (bytes_eq addr b) _ _ max_connections_per_ip (c.limited addr)
              (c.limited b));
        counted = refl;
        peaked = omega (arith, less, c.peaked);
      }

  created-IsCounted :
      (session : ℕ) (addr : Bytes) (s : Server)
      → IsCounted max_connections_per_ip s
      → is_active session s.m_active_sessions ≡ false
      → connections addr s.m_connections_per_ip < max_connections_per_ip
      → IsCounted max_connections_per_ip (
          server_session_created session addr (record s {
            m_connections_per_ip =
                set_connections addr
                  (connections addr s.m_connections_per_ip + 1)
                  s.m_connections_per_ip;
          }))
  unfolding server_session_created live
  created-IsCounted session addr s c new room =
      let m = s.m_connections_per_ip in
      let k = connections addr m + 1 in
      rw (new, server_session_created)
        (record {
          exact = λ b.
              connections-set addr b k m
              ∙ rw
                  (
                    own_address s.peer_address session addr,
                    live_with addr b s.peer_address session s.m_active_sessions new,
                  )
                  (one_more addr b m _ (c.exact b));
          limited = λ b. rw (connections-set addr b k m) (
              still_small (bytes_eq addr b) k (connections b m) max_connections_per_ip
                (omega (arith, room)) (c.limited b));
          counted = refl;
          peaked = peak_above s.m_peak_sessions (suc (length s.m_active_sessions));
        })

  closed-IsCounted :
      (addr : Bytes) (s : Server)
      → IsCounted max_connections_per_ip s
      → IsCounted max_connections_per_ip (record s {
        m_connections_per_ip =
            set_connections addr (connections addr s.m_connections_per_ip) s.m_connections_per_ip;
      })
  closed-IsCounted addr s c =
      let m = s.m_connections_per_ip in
      let same : (b : Bytes)
          → connections b (set_connections addr (connections addr m) m) ≡ connections b m =
        λ b. connections-set addr b (connections addr m) m ∙ same_if addr b m in
      record {
        exact = λ b. same b ∙ c.exact b;
        limited = λ b. rw (same b) (c.limited b);
        counted = c.counted;
        peaked = c.peaked;
      }

  is_active-created :
      (session : ℕ) (addr : Bytes) (s : Server)
      → is_active session (server_session_created session addr s).m_active_sessions ≡ true
  unfolding server_session_created is_active
  is_active-created session addr s = elim (Bool-cases (is_active session s.m_active_sessions)) [
    | inl there ↦ rw (there, is_active) there
    | inr absent ↦ rw (absent, ==_refl session, is_active) refl
  ]

  if_complete :
      (complete : Bool) (session : ℕ) (s : Server)
      → IsCounted max_connections_per_ip s
      → is_active session s.m_active_sessions ≡ true
      → IsCounted max_connections_per_ip (if complete then s else server_session_deleted session s)
  if_complete true session s c there = c
  if_complete false session s c there = deleted-IsCounted session s c there

  no_sessions-IsCounted : IsCounted max_connections_per_ip no_sessions
  unfolding connections live
  no_sessions-IsCounted = record {
    exact = λ b. refl;
    limited = λ b. omega arith;
    counted = refl;
    peaked = omega arith;
  }

  accepted-IsCounted :
      (complete : Bool) (session : ℕ) (addr : Bytes) (s : Server)
      → IsCounted max_connections_per_ip s
      → is_active session s.m_active_sessions ≡ false
      → IsCounted max_connections_per_ip
          (accept_connection max_connections_per_ip complete session addr s).1
  unfolding accept_connection
  accepted-IsCounted complete session addr s c new =
      let order = connections addr s.m_connections_per_ip in
      elim (Bool-cases (leb max_connections_per_ip order)) [
        | inl full ↦ rw (full, accept_connection) (closed-IsCounted addr s c)
        | inr room ↦
            let counted : Server = record s {
              m_connections_per_ip = set_connections addr (order + 1) s.m_connections_per_ip;
            } in
            let created = created-IsCounted session addr s c new (ground (arith, room)) in
            rw (room, accept_connection)
              (if_complete complete session _ created (is_active-created session addr counted))
      ]

  -- How many sessions a server has had at once at most, over its history; a session whose
  -- constructor throws was there.
  abbrev pub most_sessions : (s : Server) → Reachable max_connections_per_ip s → ℕ
  most_sessions _ starts = 0
  most_sessions _ (accepts complete session addr s r new) =
      max (most_sessions s r)
        (length (accept_connection max_connections_per_ip true session addr s).1.m_active_sessions)
  most_sessions _ (ends session s r there) =
      max (most_sessions s r) (length (server_session_deleted session s).m_active_sessions)

  accepted_peak :
      (complete : Bool) (session : ℕ) (addr : Bytes) (s : Server)
      → IsCounted max_connections_per_ip s
      → is_active session s.m_active_sessions ≡ false
      → (accept_connection max_connections_per_ip complete session addr s).1.m_peak_sessions
        ≡ max s.m_peak_sessions (
            length
              (accept_connection max_connections_per_ip true session addr s).1.m_active_sessions)
  unfolding accept_connection server_session_created server_session_deleted
  accepted_peak complete session addr s c new =
      elim (Bool-cases (leb max_connections_per_ip (connections addr s.m_connections_per_ip))) [
        | inl full ↦ rw (full, accept_connection) (omega (arith, c.peaked))
        | inr room ↦ elim (Bool-cases complete) [
          | inl e ↦
              rw (room, accept_connection, e, new, server_session_created)
                (peak_max s.m_peak_sessions (suc (length s.m_active_sessions)))
          | inr e ↦
              rw (room, accept_connection, e, new, server_session_created, server_session_deleted)
                (peak_max s.m_peak_sessions (suc (length s.m_active_sessions)))
        ]
      ]

  deleted_peak :
      (session : ℕ) (s : Server) (most : ℕ)
      → IsCounted max_connections_per_ip s
      → s.m_peak_sessions ≡ most
      → (server_session_deleted session s).m_peak_sessions
        ≡ max most (length (server_session_deleted session s).m_active_sessions)
  unfolding server_session_deleted
  deleted_peak session s most c peak =
      let fewer = length-erase_session session s.m_active_sessions in
      omega (arith, fewer, c.peaked, peak)

  Reachable-peak :
      (s : Server)
      → (r : Reachable max_connections_per_ip s)
      → IsCounted max_connections_per_ip s × (s.m_peak_sessions ≡ most_sessions s r)
  Reachable-peak _ starts = (no_sessions-IsCounted, refl)
  Reachable-peak _ (accepts complete session addr s r new) =
      let (c, peak) = Reachable-peak s r in
      (
        accepted-IsCounted complete session addr s c new,
        rw (sym peak) (accepted_peak complete session addr s c new),
      )
  Reachable-peak _ (ends session s r there) =
      let (c, peak) = Reachable-peak s r in
      let c' = deleted-IsCounted session s c there in
      (c', deleted_peak session s (most_sessions s r) c peak)

  -- Whatever connections come and go: the connections that are counted for an address are exactly
  -- its sessions, and no more than the limit; the number of sessions is right, and the peak is
  -- exactly the most sessions that there ever were at once, those included whose constructor threw.
  pub Reachable-IsCounted :
      (s : Server)
      → (r : Reachable max_connections_per_ip s)
      → IsCounted max_connections_per_ip s × (s.m_peak_sessions ≡ most_sessions s r)
  Reachable-IsCounted s r = Reachable-peak s r
