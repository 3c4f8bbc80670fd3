-- ===== src/HttpParser/Head.antt =====
-- src/server/http_parser.h: parse_head and what it calls.
pub mod Bounds
pub mod Fields
pub mod Follows
pub mod Loop
use Prim.Native.String.{String}
use mathlib.Core.Option
use dracon.Prelude.{
  ℕ, zero, suc, ◌+◌, ◌-◌, ◌*◌, ◌^◌, ◌%◌, Bool, true, false, not, ◌&&◌, ◌||◌, List, [], ◌∷◌, foldl,
  Option, none, some, Bytes, codes, leb, ltb, ◌==◌, if◌then◌else◌, is_empty, find, take, drop,
  get_or, last_or, length, bytes_eq, Result, ok, fail, thrown, out_of_fuel, ◌>>=◌, ◌>>◌, fail_if,
}
use dracon.Http.Request.{
  Request, set_state, is_uninitialized, chunked_data, combine, processing_header, headers_completed,
  completed,
}
use dracon.HttpParser.Detail.{
  char_table, all_chars, token_char, target_char, value_char, hex_char, is_digit, is_ows, trim_ows,
  iequals, tokens, canonical_name, Line, next_line,
}
use dracon.HttpParser.State.{
  HttpRequestParser, State, Head, request_line, headers, done, Body, content_length, chunked, size,
  max_head_size, max_headers_count, begin_request,
}
use dracon.Scanner.Defs.{Turn, again, stop, scan}

-- `str.find(ch, pos)`.
abbrev pub find_from : ℕ → ℕ → Bytes → Option ℕ
find_from ch pos str = Option.map (λ i. i + pos) (find ch (drop pos str))

-- `from_chars` into a size_t, base 10: the value, and how many digits were read; none on no digit
-- or a value that does not fit.
digits_from : ℕ → ℕ → Bytes → ℕ × ℕ
digits_from value n [] = (value, n)
digits_from value n (c ∷ str) =
    if is_digit c then digits_from (value * 10 + (c - b'0')) (n + 1) str else (value, n)

unfoldable pub from_chars : Bytes → Option (ℕ × ℕ)
unfolding digits_from
from_chars str =
    let r = digits_from 0 0 str in
    if r.1 == 0 then none else if leb (2 ^ 64) r.0 then none else some r

-- The test of the HTTP-version.
unfoldable pub bad_version : Bytes → Bool
bad_version version =
    not (length version == 8)
    || not (bytes_eq (take 5 version) (codes "HTTP/"))
    || not (get_or version 6 0 == b'.')
    || not (char_table (get_or version 5 0) hex_char)
    || ltb b'9' (get_or version 5 0)
    || not (char_table (get_or version 7 0) hex_char)
    || ltb b'9' (get_or version 7 0)

-- `parse_request_line` once its two spaces are found.
unfoldable pub request_line_parts : Bytes → Bytes → Bytes → State → Result State
request_line_parts method target version (p, req) = do
  fail_if (not (all_chars method token_char)) 400 "Invalid method"
  fail_if (not (all_chars target target_char)) 400 "Invalid request target"
  fail_if (bad_version version) 400 "Invalid HTTP version"
  fail_if (not (get_or version 5 0 == b'1')) 505 "HTTP version not supported"
  ok (
    record p { m_http11 = not (get_or version 7 0 == b'0') },
    record req { m_method = method; m_url = target },
  )

unfoldable pub parse_request_line : Bytes → State → Result State
parse_request_line line s = elim (find b' ' line) [
  | none ↦ fail 400 "Invalid request line"
  | some sp1 ↦
      if sp1 == 0 then fail 400 "Invalid request line" else elim (find_from b' ' (sp1 + 1) line) [
        | none ↦ fail 400 "Invalid request line"
        | some sp2 ↦
            if sp2 == sp1 + 1
            then fail 400 "Invalid request line"
            else request_line_parts (take sp1 line) (take (sp2 - sp1 - 1) (drop (sp1 + 1) line))
                (drop (sp2 + 1) line) s
      ]
]

-- Whether `from_chars` read the whole value, and it is no reserved number.
unfoldable pub content_length_of : Bytes → Result ℕ
content_length_of value = elim (from_chars value) [
  | none ↦ fail 400 "Invalid Content-Length"
  | some (n, read) ↦
      if is_empty value || not (read == length value) || leb chunked_data n
      then fail 400 "Invalid Content-Length"
      else ok n
]

-- The three headers that the parser reads itself. `false` is the `return` on a duplicate.
unfoldable pub content_length_field : Bytes → HttpRequestParser → Result (HttpRequestParser × Bool)
content_length_field value p = do
  n ← content_length_of value
  if p.m_has_content_length
      then (fail_if (not (n == p.m_content_length)) 400 "Conflicting Content-Length"
          >> ok (p, false))
      else ok (record p { m_has_content_length = true; m_content_length = n }, true)

unfoldable pub transfer_encoding_field :
    Bytes → HttpRequestParser → Result (HttpRequestParser × Bool)
transfer_encoding_field value p = do
  let codings = (if p.m_chunked then 1 else 0) + length (tokens value)
  fail_if (not (iequals (last_or [] (tokens value)) (codes "chunked"))) 400
      "Invalid Transfer-Encoding"
  fail_if (not (codings == 1)) 501 "Unsupported transfer coding"
  ok (record p { m_chunked = true }, true)

connection_option : HttpRequestParser → Bytes → HttpRequestParser
connection_option p option =
    if iequals option (codes "close")
    then record p { m_close = true }
    else if iequals option (codes "keep-alive")
    then record p { m_keep_alive = true }
    else p

unfoldable pub connection_field : Bytes → HttpRequestParser → HttpRequestParser
unfolding connection_option
connection_field value p = foldl connection_option p (tokens value)

unfoldable pub known_field : Bytes → Bytes → HttpRequestParser → Result (HttpRequestParser × Bool)
known_field key value p =
    if bytes_eq key (codes "Content-Length")
    then content_length_field value p
    else if bytes_eq key (codes "Transfer-Encoding")
    then transfer_encoding_field value p
    else if bytes_eq key (codes "Connection")
    then ok (connection_field value p, true)
    else ok (p, true)

-- `parse_header_field` from the found colon on.
unfoldable pub header_field_parts : Bytes → Bytes → State → Result State
header_field_parts name value (p, req) = do
  fail_if (not (all_chars name token_char)) 400 "Invalid header field name"
  fail_if (not (all_chars value value_char)) 400 "Invalid header field value"
  (p', stored) ← known_field (canonical_name name) value p
  if stored
      then ok (p', record req { fields = combine (canonical_name name) value req.fields })
      else ok (p', req)

unfoldable pub parse_header_field : Bytes → State → Result State
parse_header_field text (p, req) =
    let p' = record p { m_headers = p.m_headers + 1 } in
    if ltb max_headers_count p'.m_headers
    then fail 431 "Too many header fields"
    else if is_ows (get_or text 0 0)
    then fail 400 "Obsolete line folding is not supported"
    else elim (find b':' text) [
      | none ↦ fail 400 "Invalid header field"
      | some colon ↦
          if colon == 0
          then fail 400 "Invalid header field"
          else header_field_parts (take colon text) (trim_ows (drop (colon + 1) text)) (p', req)
    ]

-- The body that the headers announce.
unfoldable pub announce_body : State → State
announce_body (p, req) =
    if p.m_chunked
    then (record p { m_body = chunked; m_remaining = 0 }, set_state headers_completed req)
    else if not (p.m_content_length == 0)
    then (
      record p { m_body = content_length; m_remaining = p.m_content_length },
      set_state headers_completed req,
    )
    else (record p { m_body = Body.none }, set_state completed req)

unfoldable pub finalize_head : State → Result State
finalize_head (p, req) = do
  fail_if (p.m_has_content_length && p.m_chunked) 400
      "Content-Length and Transfer-Encoding are mutually exclusive"
  let keep = if p.m_http11 then not p.m_close else p.m_keep_alive && not p.m_close
  ok (
      announce_body
        (record p { m_received = 0; m_chunk = size }, record req { m_keep_alive = keep }))

-- The model adds to `m_head_seen` at each turn, where the source adds `pos` at the end: between
-- turns it stands for the source's `m_head_seen + pos`. A thrown response drops the parser.
abbrev pub seen : ℕ → State → State
seen n (p, req) = (record p { m_head_seen = p.m_head_seen + n }, req)

abbrev pub over_limit : ℕ → HttpRequestParser → Bool
over_limit n p = ltb max_head_size (p.m_head_seen + n)

-- No whole line is left: wait for more, within the limit.
unfoldable pub incomplete_line : State → Bytes → Result (Turn State)
incomplete_line s rest =
    if over_limit (length rest) s.0
    then fail 431 "Request header fields too large"
    else ok (stop s 0)

-- A line where the request line is due; empty ones are skipped.
unfoldable pub request_line_turn : Line → State → Result (Turn State)
request_line_turn line s =
    if is_empty line.text then ok (again (seen line.next s) line.next) else (do
      (p, req) ← parse_request_line line.text s
      fail_if (over_limit line.next p) 431 "Request header fields too large"
      ok (
          again (seen line.next (record p { m_head = headers }, set_state processing_header req))
            line.next))

-- A line among the headers; the empty one ends them.
unfoldable pub header_turn : Line → State → Result (Turn State)
header_turn line s =
    if over_limit line.next s.0
    then fail 431 "Request header fields too large"
    else if is_empty line.text
    then (do
      (p, req) ← finalize_head s
      ok (stop (seen line.next (record p { m_head = done }, req)) line.next))
    else (do s' ← parse_header_field line.text s; ok (again (seen line.next s') line.next))

unfoldable pub line_turn : Head → State → Line → Result (Turn State)
line_turn request_line s line = request_line_turn line s
line_turn headers s line = header_turn line s
line_turn done s line = ok (stop s 0)

-- One round of the loops of `parse_head`.
unfoldable pub head_turn : State → Bytes → Result (Turn State)
head_turn s rest = elim (next_line rest) [
  | none ↦ incomplete_line s rest
  | some line ↦ line_turn s.0.m_head s line
]

abbrev pub is_done : Head → Bool
is_done done = true
is_done _ = false

-- A fresh request restarts the parser.
unfoldable pub restart : State → State
restart s = if is_uninitialized s.1.m_state then begin_request s else s

-- `parse_head` behind the restart: the state and the number of bytes consumed.
unfoldable pub head_from : Bytes → State → Result (State × ℕ)
head_from input s =
    if is_done s.0.m_head then ok (s, 0) else scan head_turn (suc (length input)) s 0 input

unfoldable pub parse_head : Bytes → State → Result (State × ℕ)
parse_head input s = head_from input (restart s)
