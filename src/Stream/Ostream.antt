-- ===== src/Stream/Ostream.antt =====
-- include/dracon/stream.h: class ostream_buffer. What it hands to its stream is kept as the list of
-- the contents of the writes; a write is taken to succeed. `capacity_of k n` is the capacity that the
-- k-th `reserve(n)` of the buffer leaves, which is up to the standard library.
pub mod Keeps
use dracon.Prelude.{
  ℕ, zero, suc, ◌+◌, ◌-◌, ◌≤◌, ◌<◌, ◌≡◌, ◌∙◌, refl, sym, ap, arith, min, max, Bool, true, false,
  List, [], ◌∷◌, ◌++◌, Option, none, some, Bytes, ltb, leb, ◌==◌, if◌then◌else◌, is_empty, length,
  take, drop, flatten, length-append, length-take, length-drop, append_assoc, append-nil,
  Bool-cases, inl, inr,
}

pub record OstreamBuffer : Type 0 where
  pub writes : List Bytes
  pub m_buffer : Bytes
  pub capacity : ℕ
  pub reserved : ℕ
  pub m_capacity : ℕ

-- A call of the streambuf: a character, several, or a flush.
pub data Output : Type 0 where
  put_char : ℕ → Output
  put_chars : Bytes → Output
  flush : Output

module _ (capacity_of : ℕ → ℕ → ℕ) where
  unfoldable pub reserve_buffer : OstreamBuffer → OstreamBuffer
  reserve_buffer s = record s {
    capacity = capacity_of s.reserved s.m_capacity;
    reserved = s.reserved + 1;
  }

  -- The constructor.
  unfoldable pub open_buffer : ℕ → OstreamBuffer
  unfolding reserve_buffer
  open_buffer socket_write_size = reserve_buffer (record {
    writes = [];
    m_buffer = [];
    capacity = 0;
    reserved = 0;
    m_capacity = max 4096 socket_write_size;
  })

  -- `pending.swap(m_buffer)`, `reserve_buffer()` and the write of `pending` with what follows it.
  unfoldable pub write_out : Bytes → OstreamBuffer → OstreamBuffer
  unfolding reserve_buffer
  write_out behind s =
      let t = reserve_buffer (record s { m_buffer = [] }) in
      record t { writes = t.writes ++ ((s.m_buffer ++ behind) ∷ []) }

  unfoldable pub sync : OstreamBuffer → OstreamBuffer
  unfolding write_out
  sync s = if is_empty s.m_buffer then s else write_out [] s

  sync_full : OstreamBuffer → OstreamBuffer
  unfolding sync
  sync_full s = if leb s.capacity (length s.m_buffer) then sync s else s

  -- `overflow` on a character that is not the end of file.
  unfoldable pub overflow : ℕ → OstreamBuffer → OstreamBuffer
  unfolding sync_full
  overflow c s = let t = sync_full s in record t { m_buffer = t.m_buffer ++ (c ∷ []) }

  -- A string longer than the buffer's capacity goes straight out, behind what is pending.
  unfoldable pub write_through : Bytes → OstreamBuffer → OstreamBuffer
  unfolding write_out
  write_through str s =
      if is_empty s.m_buffer then record s { writes = s.writes ++ (str ∷ []) } else write_out str s

  -- The loop of `xsputn`, with fuel; it returns the number that `xsputn` does.
  unfoldable pub put_loop : ℕ → ℕ → Bytes → OstreamBuffer → Option (OstreamBuffer × ℕ)
  unfolding sync_full write_through
  put_loop zero n str s = none
  put_loop (suc fuel) n str s =
      let t = sync_full s in
      let len = min (length str) (t.capacity - length t.m_buffer) in
      let rest =
        put_loop fuel n (drop len str) (record t { m_buffer = t.m_buffer ++ take len str }) in
      if length str == 0
      then some (s, n)
      else if ltb s.capacity (length str)
      then some (write_through str s, length str)
      else rest

  unfoldable pub xsputn : Bytes → OstreamBuffer → Option (OstreamBuffer × ℕ)
  unfolding put_loop
  xsputn str s = put_loop (suc (length str)) (length str) str s

  unfoldable pub output : Output → OstreamBuffer → Option OstreamBuffer
  output (put_char c) s = some (overflow c s)
  output (put_chars str) s = elim (xsputn str s) [ none ↦ none | some (t, n) ↦ some t ]
  output flush s = some (sync s)

  -- The calls on a buffer, and its destructor: what was written at the end.
  unfoldable pub output_all : List Output → OstreamBuffer → Option (List Bytes)
  output_all [] s = some (sync s).writes
  output_all (o ∷ os) s = elim (output o s) [ none ↦ none | some t ↦ output_all os t ]
