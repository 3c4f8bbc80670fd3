-- ===== src/HttpParser/Body.antt =====
-- src/server/http_parser.h: parse_body, parse_chunked and deliver.
pub mod Deliver
pub mod Loop
use Prim.Native.String.{String}
use dracon.Prelude.{
  ℕ, zero, suc, ◌+◌, ◌-◌, ◌*◌, ◌^◌, ◌%◌, min, Bool, true, false, not, ◌&&◌, ◌||◌, List, [], ◌∷◌,
  none, some, Bytes, ltb, ◌==◌, if◌then◌else◌, is_empty, take, drop, get_or, length, Result, ok,
  fail, thrown, out_of_fuel, ◌>>=◌, ◌>>◌, fail_if,
}
use dracon.Http.Request.{Request, set_state, is_completed, processing_body, completed, append_body}
use dracon.HttpParser.Detail.{
  char_table, all_chars, value_char, hex_char, hex_value, trim_ows, Line, next_line,
}
use dracon.HttpParser.State.{
  HttpRequestParser, State, Body, content_length, chunked, Chunk, size, chunk_data, data_end,
  trailers, max_head_size, max_headers_count, max_chunk_line_size,
}
use dracon.Scanner.Defs.{Turn, again, stop, scan}

-- `max && m_received > max` after the addition, which wraps as size_t does.
unfoldable pub deliver : Bytes → State → Result State
deliver part (p, req) = do
  let received = (p.m_received + length part) % 2 ^ 64
  let max_size = req.m_max_body_size
  fail_if (not (max_size == 0) && ltb max_size received) 413 "Request entity too large"
  req' ← append_body part req
  ok (record p { m_received = received }, req')

-- The loop over the digits of a chunk size: how many, their value, and the text behind them.
unfoldable pub hex_digits : ℕ → ℕ → Bytes → Result (ℕ × ℕ × Bytes)
hex_digits digits value [] = ok (digits, value, [])
hex_digits digits value (c ∷ text) =
    if not (char_table c hex_char)
    then ok (digits, value, c ∷ text)
    else if digits == 16
    then fail 400 "Chunk size too large"
    else hex_digits (digits + 1) ((value * 16) % 2 ^ 64 + hex_value c) text

unfoldable pub chunk_size : Bytes → Result ℕ
unfolding hex_digits
chunk_size text = do
  (digits, value, behind) ← hex_digits 0 0 text
  fail_if (digits == 0) 400 "Invalid chunk size"
  let ext = trim_ows behind
  fail_if (not (is_empty ext) && (not (get_or ext 0 0 == b';') || not (all_chars ext value_char)))
      400 "Invalid chunk extension"
  ok value

unfoldable pub size_turn : State → Bytes → Result (Turn State)
size_turn (p, req) rest = elim (next_line rest) [
  | none ↦
      if ltb max_chunk_line_size (length rest)
      then fail 400 "Invalid chunk size"
      else ok (stop (p, req) 0)
  | some line ↦ do
    value ← chunk_size line.text
    let next = if value == 0 then trailers else chunk_data
    ok (again (record p { m_remaining = value; m_chunk = next }, req) line.next)
]

-- After `n` bytes of a chunk.
unfoldable pub chunk_left : ℕ → State → Turn State
chunk_left n (p, req) =
    let left = p.m_remaining - n in
    let next = if left == 0 then data_end else chunk_data in
    again (record p { m_remaining = left; m_chunk = next }, req) n

unfoldable pub data_turn : State → Bytes → Result (Turn State)
unfolding chunk_left
data_turn s rest = do
  let n = min s.0.m_remaining (length rest)
  s' ← deliver (take n rest) s
  ok (chunk_left n s')

-- The CRLF, or the bare LF, after the data of a chunk.
unfoldable pub data_end_turn : State → Bytes → Result (Turn State)
data_end_turn s [] = ok (stop s 0)
data_end_turn (p, req) (c ∷ []) =
    if c == b'\n'
    then ok (again (record p { m_chunk = size }, req) 1)
    else if c == b'\r'
    then ok (stop (p, req) 0)
    else fail 400 "Invalid chunk"
data_end_turn (p, req) (c ∷ d ∷ rest) =
    if c == b'\n'
    then ok (again (record p { m_chunk = size }, req) 1)
    else if c == b'\r' && d == b'\n'
    then ok (again (record p { m_chunk = size }, req) 2)
    else fail 400 "Invalid chunk"

unfoldable pub trailer_line : Line → State → Result (Turn State)
trailer_line line (p, req) =
    if is_empty line.text then ok (stop (p, set_state completed req) line.next) else (do
      fail_if (ltb max_headers_count (p.m_headers + 1)) 431 "Too many trailer fields"
      fail_if (not (all_chars line.text value_char)) 400 "Invalid trailer field"
      ok (again (record p { m_headers = p.m_headers + 1 }, req) line.next))

unfoldable pub trailers_turn : State → Bytes → Result (Turn State)
trailers_turn s rest = elim (next_line rest) [
  | none ↦
      if ltb max_head_size (length rest) then fail 431 "Trailer fields too large" else ok (stop s 0)
  | some line ↦ trailer_line line s
]

unfoldable pub chunk_case : Chunk → State → Bytes → Result (Turn State)
chunk_case size s rest = size_turn s rest
chunk_case chunk_data s rest = data_turn s rest
chunk_case data_end s rest = data_end_turn s rest
chunk_case trailers s rest = trailers_turn s rest

-- One round of the loop of `parse_chunked`, which ends when no byte is left.
unfoldable pub chunked_turn : State → Bytes → Result (Turn State)
chunked_turn s [] = ok (stop s 0)
chunked_turn s (c ∷ rest) = chunk_case s.0.m_chunk s (c ∷ rest)

unfoldable pub parse_chunked : Bytes → State → Result (State × ℕ)
parse_chunked input s = scan chunked_turn (suc (length input)) s 0 input

-- `max && m_remaining > max - m_received`, on size_t.
unfoldable pub too_large : State → Bool
too_large (p, req) =
    not (req.m_max_body_size == 0)
    && ltb ((req.m_max_body_size + 2 ^ 64 - p.m_received) % 2 ^ 64) p.m_remaining

-- The Content-Length branch of `parse_body`.
unfoldable pub parse_sized : Bytes → State → Result (State × ℕ)
parse_sized input s = do
  fail_if (too_large s) 413 "Request entity too large"
  let n = min s.0.m_remaining (length input)
  (p, req) ← if n == 0 then ok s else deliver (take n input) s
  let left = p.m_remaining - n
  ok ((record p { m_remaining = left }, if left == 0 then set_state completed req else req), n)

unfoldable pub parse_body_of : Body → Bytes → State → Result (State × ℕ)
parse_body_of Body.none input s = ok (s, 0)
parse_body_of content_length input (p, req) = parse_sized input (p, set_state processing_body req)
parse_body_of chunked input (p, req) = parse_chunked input (p, set_state processing_body req)

unfoldable pub parse_body : Bytes → State → Result (State × ℕ)
parse_body input s =
    if is_completed s.1.m_state then ok (s, 0) else parse_body_of s.0.m_body input s
