-- ===== src/Stream/Chunked.antt =====
-- include/dracon/stream.h: class chunked_stream, on a next layer that appends to what was written.
use dracon.Prelude.{
  ℕ, zero, suc, ◌+◌, ◌-◌, ◌/◌, ◌%◌, Bytes, List, [], ◌∷◌, ◌++◌, foldl, length, flatten, ltb, ◌==◌,
  if◌then◌else◌, length-append, ◌≡◌, refl, arith,
}

abbrev pub crlf_string : Bytes
crlf_string = b'\r' ∷ b'\n' ∷ []

abbrev pub end_of_chunked_stream : Bytes
end_of_chunked_stream = b'0' ∷ b'\r' ∷ b'\n' ∷ b'\r' ∷ b'\n' ∷ []

-- The digit that `std::to_chars` writes for a value below 16.
unfoldable pub hex_digit : ℕ → ℕ
hex_digit k = if ltb k 10 then b'0' + k else b'a' + k - 10

-- `std::to_chars(first, last, size, 16)`, for a size of at most so many digits; 16 are enough for
-- a size_t.
unfoldable pub to_chars_hex : ℕ → ℕ → Bytes
unfolding hex_digit
to_chars_hex zero size = []
to_chars_hex (suc digits) size =
    let high = to_chars_hex digits (size / 16) in
    if ltb size 16 then hex_digit size ∷ [] else high ++ (hex_digit (size % 16) ∷ [])

unfoldable pub chunk_header : ℕ → Bytes
unfolding to_chars_hex
chunk_header size = to_chars_hex 16 size ++ crlf_string

-- `write(const_buffer)`.
unfoldable pub write : Bytes → Bytes → Bytes
write out buff =
    if length buff == 0 then out else out ++ (chunk_header (length buff) ++ (buff ++ crlf_string))

sum_lengths : List Bytes → ℕ
sum_lengths [] = 0
sum_lengths (b ∷ bs) = length b + sum_lengths bs

-- `write(std::span<const const_buffer>)`: the buffers become one chunk.
unfoldable pub write_all : Bytes → List Bytes → Bytes
unfolding sum_lengths
write_all out buffers =
    let size = sum_lengths buffers in
    if size == 0 then out else out ++ (chunk_header size ++ (flatten buffers ++ crlf_string))

-- The destructor.
unfoldable pub close : Bytes → Bytes
close out = out ++ end_of_chunked_stream

-- What a scope that holds a chunked_stream writes, by its writes.
unfoldable pub session : Bytes → List Bytes → Bytes
session out parts = close (foldl write out parts)

sum_lengths-length : (bs : List Bytes) → sum_lengths bs ≡ length (flatten bs)
unfolding sum_lengths
sum_lengths-length [] = refl
sum_lengths-length (b ∷ bs) = omega (arith, sum_lengths-length bs, length-append b (flatten bs))

-- Buffers written together are one chunk, that of their contents one after the other.
pub write_all-write :
    (out : Bytes) (buffers : List Bytes) → write_all out buffers ≡ write out (flatten buffers)
unfolding write_all write
write_all-write out buffers = rw (sum_lengths-length buffers)
