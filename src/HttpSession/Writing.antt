-- ===== src/HttpSession/Writing.antt =====
-- src/server/streams.cpp: the two `write` of basic_http_session, and what the TLS session offers of
-- several buffers. The peer gets `out`; what the socket and the event loop answer is a list.
pub mod Offer
pub mod Vectored
use dracon.Prelude.{
  ℕ, suc, ◌-◌, ◌^◌, ltb, min, Bool, List, [], ◌∷◌, ◌++◌, Bytes, leb, ◌==◌, ◌||◌, is_empty, length,
  take, drop, flatten, if◌then◌else◌,
}

-- An answer of `write_some`, and of `m_yield` where it wrote nothing: up to so many bytes and one
-- more, an error, nothing until the session is resumed, or nothing and then an error.
pub data WriteEvent : Type 0 where
  wrote : ℕ → WriteEvent
  write_failed : ℕ → WriteEvent
  write_resumed : WriteEvent
  write_resumed_with : ℕ → WriteEvent

-- How a write ends: by returning, with the events that are left; waiting when the events are over,
-- with the bytes still to write; or with an error code. Always with the bytes that went out.
pub data Written : Type 0 where
  returned : Bytes → List WriteEvent → Written
  waiting : Bytes → Bytes → Written
  write_threw : Bytes → ℕ → Written

-- `write` of one buffer.
unfoldable pub write_loop : List WriteEvent → Bytes → Bytes → Written
write_loop es out [] = returned out es
write_loop [] out (b ∷ bs) = waiting out (b ∷ bs)
write_loop (wrote k ∷ es) out (b ∷ bs) =
    let written = min (suc k) (length (b ∷ bs)) in
    write_loop es (out ++ take written (b ∷ bs)) (drop written (b ∷ bs))
write_loop (write_failed ec ∷ es) out (b ∷ bs) = write_threw out ec
write_loop (write_resumed ∷ es) out (b ∷ bs) = write_loop es out (b ∷ bs)
write_loop (write_resumed_with ec ∷ es) out (b ∷ bs) = write_threw out ec

-- The buffers that are left when so many bytes went out: those that went out completely are
-- dropped, and the one that went out half way is shortened.
unfoldable pub advance : ℕ → List Bytes → List Bytes
advance written [] = []
advance written (front ∷ pending) =
    let more = advance (written - length front) pending in
    if leb (length front) written then more else drop written front ∷ pending

-- The loop of the vectored `write`.
unfoldable pub write_pending : List WriteEvent → Bytes → List Bytes → Written
write_pending es out [] = returned out es
write_pending [] out (front ∷ pending) = waiting out (flatten (front ∷ pending))
write_pending (wrote k ∷ es) out (front ∷ pending) =
    let written = min (suc k) (length (flatten (front ∷ pending))) in
    write_pending es (out ++ take written (flatten (front ∷ pending)))
      (advance written (front ∷ pending))
write_pending (write_failed ec ∷ es) out (front ∷ pending) = write_threw out ec
write_pending (write_resumed ∷ es) out (front ∷ pending) = write_pending es out (front ∷ pending)
write_pending (write_resumed_with ec ∷ es) out (front ∷ pending) = write_threw out ec

-- The total length of the buffers, as the source adds it up.
unfoldable pub write_buffers : List WriteEvent → Bytes → List Bytes → Written
write_buffers es out buffers =
    if length (flatten buffers) == 0 then returned out es else write_pending es out buffers

-- ssl_socket_session::write_some of several buffers: what it hands to SSL_write, where the flat
-- buffer has `room` bytes.
unfoldable pub gather : ℕ → List Bytes → Bytes
gather room [] = []
gather room (front ∷ pending) = take room front ++ gather (room - length front) pending

-- INT_MAX.
abbrev pub int_max : ℕ
int_max = 2 ^ 31 - 1

-- write_some of one buffer: what it hands to SSL_write, whose length is an int.
unfoldable pub ssl_write_some : Bytes → Bytes
ssl_write_some buff = if ltb (length buff) int_max then buff else take int_max buff

unfoldable pub ssl_offer : ℕ → ℕ → List Bytes → Bytes
unfolding ssl_write_some
ssl_offer socket_size flat_size [] = []
ssl_offer socket_size flat_size (front ∷ pending) =
    if is_empty pending || leb socket_size (length front)
    then ssl_write_some front
    else ssl_write_some (gather (min flat_size socket_size) (front ∷ pending))
