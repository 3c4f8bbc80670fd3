-- ===== src/Utils/Buffer.antt =====
-- include/dracon/utils.h: class buffer of characters, where both of its pointers are into the
-- allocation: from the first reset, resize or assignment on.
pub mod Reading
use dracon.Prelude.{
  ℕ, zero, suc, ◌+◌, ◌-◌, ◌≤◌, ◌<◌, ◌≡◌, ◌≢◌, ◌∙◌, refl, sym, ap, arith, min, Bool, true, false,
  List, [], ◌∷◌, ◌++◌, Bytes, leb, ltb, ◌==◌, length, take, drop, foldl, if◌then◌else◌, take-append,
  take_all, length-take, length-drop, length-append, drop-drop, append-nil, Bool-cases, inl, inr,
}

-- The allocation, and where the two pointers are in it.
pub record CharBuffer : Type 0 where
  pub m_buffer : Bytes
  pub m_current : ℕ
  pub m_end : ℕ

unfoldable pub zeros : ℕ → Bytes
zeros zero = []
zeros (suc n) = 0 ∷ zeros n

-- Bytes copied to the start of the allocation.
unfoldable pub copy_in : Bytes → Bytes → Bytes
copy_in bytes buffer = bytes ++ drop (length bytes) buffer

unfoldable pub reset : CharBuffer → CharBuffer
reset b = record b { m_current = 0; m_end = length b.m_buffer }

unfoldable pub resize : ℕ → CharBuffer → CharBuffer
unfolding reset copy_in zeros
resize size b =
    if size == length b.m_buffer
    then reset b
    else reset (record b {
      m_buffer = copy_in (take (min size (length b.m_buffer)) b.m_buffer) (zeros size);
    })

unfoldable pub advance_cursor : ℕ → CharBuffer → CharBuffer
advance_cursor size b = record b {
  m_current = if ltb b.m_end (b.m_current + size) then b.m_end else b.m_current + size;
}

unfoldable pub current_size : CharBuffer → ℕ
current_size b = b.m_end - b.m_current

unfoldable pub current_string : CharBuffer → Bytes
unfolding current_size
current_string b = take (current_size b) (drop b.m_current b.m_buffer)

unfoldable pub commit : CharBuffer → CharBuffer
unfolding current_string current_size copy_in
commit b = if b.m_current == 0 then b else record b {
  m_buffer = copy_in (current_string b) b.m_buffer;
  m_current = 0;
  m_end = current_size b;
}

unfoldable pub set_current_size : ℕ → CharBuffer → CharBuffer
set_current_size size b = record b { m_end = b.m_current + size }

-- `operator=`.
unfoldable pub assign : Bytes → CharBuffer → CharBuffer
unfolding resize set_current_size copy_in
assign buff b =
    let b' = resize (length buff) b in
    set_current_size (length buff) (record b' { m_buffer = copy_in buff b'.m_buffer })

-- `operator*=`.
unfoldable pub assign_in_place : Bytes → CharBuffer → CharBuffer
unfolding assign reset copy_in advance_cursor
assign_in_place buff b =
    if leb (length b.m_buffer) (length buff)
    then assign buff b
    else (let b' = reset b in
        advance_cursor (length buff) (record b' { m_buffer = copy_in buff b'.m_buffer }))

-- How ssl_socket_session::write_some fills its flat buffer: as much as fits.
unfoldable pub fill : Bytes → CharBuffer → CharBuffer
unfolding reset copy_in set_current_size
fill bytes b =
    let fitting = take (length b.m_buffer) bytes in
    let b' = reset b in
    set_current_size (length fitting) (record b' { m_buffer = copy_in fitting b'.m_buffer })

-- How a buffer is written and read: by operator=, by the fill of a write, by advance and by commit.
-- The members that only set a pointer, reset, resize, set_current_size and set_current_data, are no
-- such operations on their own, nor is operator*=.
pub data BufferOperation : Type 0 where
  assigns : Bytes → BufferOperation
  fills : Bytes → BufferOperation
  advances : ℕ → BufferOperation
  commits : BufferOperation

unfoldable pub perform_on : CharBuffer → BufferOperation → CharBuffer
unfolding assign fill advance_cursor commit
perform_on b (assigns buff) = assign buff b
perform_on b (fills bytes) = fill bytes b
perform_on b (advances size) = advance_cursor size b
perform_on b commits = commit b
