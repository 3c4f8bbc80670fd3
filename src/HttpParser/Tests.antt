-- ===== src/HttpParser/Tests.antt =====
-- Runs of the parser on concrete requests, and the theorems at these runs.
use dracon.Prelude.{
  ℕ, true, false, ◌≡◌, ◌≢◌, refl, codes, fail, Bytes, List, [], ◌∷◌, ◌++◌, Result, ok, some, drop,
  take, length, flatten, out_of_fuel, thrown, arith, min,
}
use dracon.Http.Request.{
  fresh_request, append_body_callback, append_body, combine, is_completed, head_parsed,
}
use dracon.HttpParser.Detail.{
  next_line, strip_cr, hex_value, char_table, iequals, canonical_name, trim_ows, tokens,
}
use dracon.HttpParser.State.{State, initial, begin_request, size}
use dracon.HttpParser.Head.{
  parse_head, head_from, restart, head_turn, incomplete_line, line_turn, request_line_turn,
  header_turn, finalize_head, announce_body, parse_header_field, header_field_parts, known_field,
  connection_field, transfer_encoding_field, content_length_field, content_length_of, from_chars,
  parse_request_line, request_line_parts, bad_version, is_done,
}
use dracon.HttpParser.Body.{
  parse_body, parse_body_of, parse_chunked, chunked_turn, chunk_case, size_turn, chunk_size,
  data_turn, data_end_turn, trailers_turn, trailer_line, deliver,
}
use dracon.HttpParser.Body.Deliver.{Accepts}
use dracon.HttpParser.Incremental.{Ready, Returns, parse_head-append, parse_head-final}
use dracon.HttpParser.Limits.{IsLimited, parse_head-IsLimited}
use dracon.HttpParser.Announced.{IsFramedByFields, parse_head-IsFramedByFields}
use dracon.HttpParser.Framing.{parse_head-Chunking, parse_head-Sizing}
use dracon.HttpParser.Chunked.{
  Chunking, ChunkParsed, parse_body-ChunkParsed, parse_body-append, parse_body-session,
}
use dracon.HttpParser.Sized.{Sizing, taken, parse_body-taken, parse_body-too_large}
use dracon.Stream.Chunked.{session}
use dracon.HttpParser.Output.{parse_body-output}
use dracon.Stream.Ostream.{Output, put_char, put_chars, flush, output_all, open_buffer}
use dracon.Stream.Ostream.Keeps.{contents}
use dracon.Stream.Encode.{finish}
use dracon.Scanner.Defs.{scan}
use dracon.Scanner.Append.{moved}

abbrev or_else : {A : Type 0} → A → Result A → A
or_else d (ok a) = a
or_else d (fail _ _) = d
or_else d (thrown _) = d
or_else d out_of_fuel = d

abbrev start : State
start = (initial, fresh_request)

-- A call of `parse_head`, or of `parse_body`, that is expected to return.
abbrev head_run : Bytes → State × ℕ
head_run input = or_else (start, 0) (parse_head input start)

abbrev body_run : Bytes → State → State × ℕ
body_run input s = or_else (start, 0) (parse_body input s)

-- A request whose head is cut within a header's name.
abbrev head_1 : Bytes
head_1 = codes "GET /a?b HTTP/1.1\r\nhost: x\r\ntransf"

abbrev head_2 : Bytes
head_2 = codes "er-encoding: chunked\r\n\r\n"

abbrev whole_head : Bytes
whole_head = head_1 ++ head_2

abbrev sized_head : Bytes
sized_head = codes "POST / HTTP/1.1\r\nContent-Length: 5\r\n\r\n"

head_runs :
    (parse_head head_1 start ≡ ok ((head_run head_1).0, (head_run head_1).1))
    × (is_done (head_run head_1).0.0.m_head ≡ false)
    × (parse_head whole_head start ≡ ok ((head_run whole_head).0, (head_run whole_head).1))
    × (is_done (head_run whole_head).0.0.m_head ≡ true)
    × ((head_run whole_head).0.0.m_chunked ≡ true)
    × ((head_run whole_head).0.0.m_chunk ≡ size)
    × (is_done (restart start).0.m_head ≡ false)
unfolding parse_head head_from restart begin_request scan head_turn incomplete_line line_turn
    request_line_turn header_turn finalize_head announce_body parse_header_field header_field_parts
    known_field connection_field transfer_encoding_field content_length_field content_length_of
    from_chars parse_request_line request_line_parts bad_version combine tokens canonical_name
    trim_ows next_line strip_cr char_table iequals
head_runs = (refl, refl, refl, refl, refl, refl, refl)

sized_runs :
    (parse_head sized_head start ≡ ok ((head_run sized_head).0, (head_run sized_head).1))
    × (is_done (head_run sized_head).0.0.m_head ≡ true)
    × ((head_run sized_head).0.0.m_chunked ≡ false)
    × ((head_run sized_head).0.0.m_content_length ≡ 5)
    × ((head_run sized_head).0.0.m_remaining ≡ 5)
    × (head_parsed (head_run sized_head).0.1.m_state ≡ true)
unfolding parse_head head_from restart begin_request scan head_turn incomplete_line line_turn
    request_line_turn header_turn finalize_head announce_body parse_header_field header_field_parts
    known_field connection_field transfer_encoding_field content_length_field content_length_of
    from_chars parse_request_line request_line_parts bad_version combine tokens canonical_name
    trim_ows next_line strip_cr char_table iequals
sized_runs = (refl, refl, refl, refl, refl, refl)

start-Ready : Ready start
start-Ready = record {
  few = omega arith;
  short = omega arith;
  small = omega arith;
  agrees = λ x. cc;
}

parse_head-IsLimited_example :
    Returns (λ r. IsLimited head_1 r.0 r.1) (parse_head head_1 (initial, fresh_request))
parse_head-IsLimited_example = parse_head-IsLimited head_1 initial

parse_head-append_example :
    parse_head (head_1 ++ head_2) start
    ≡ moved
        (head_run head_1).1
        (parse_head (drop (head_run head_1).1 head_1 ++ head_2) (head_run head_1).0)
parse_head-append_example =
    parse_head-append head_1 head_2 start (head_run head_1).0 (head_run head_1).1 start-Ready
      head_runs.0 head_runs.1

parse_head-final_example :
    parse_head (whole_head ++ codes "4\r\nab") start
    ≡ ok ((head_run whole_head).0, (head_run whole_head).1)
parse_head-final_example =
    parse_head-final whole_head (codes "4\r\nab") start (head_run whole_head).0
      (head_run whole_head).1 start-Ready head_runs.2 head_runs.3

parse_head-IsFramedByFields_example : IsFramedByFields (head_run sized_head).0
parse_head-IsFramedByFields_example =
    parse_head-IsFramedByFields sized_head initial (head_run sized_head).0 (head_run sized_head).1
      sized_runs.0 sized_runs.5

-- The state in which a body of chunks begins, with room for 10 bytes.
abbrev chunks_due : State
chunks_due = ((head_run whole_head).0.0, append_body_callback 10 (head_run whole_head).0.1)

abbrev sized_due : State
sized_due = ((head_run sized_head).0.0, append_body_callback 10 (head_run sized_head).0.1)

sized_due-nonzero : (head_run sized_head).0.0.m_content_length ≢ 0
sized_due-nonzero = omega (arith, sized_runs.3)

-- The body of that request, cut within the data of its first chunk.
abbrev body_1 : Bytes
body_1 = codes "4;x\r\nab"

abbrev body_2 : Bytes
body_2 = codes "cd\r\n0\r\n\r\n"

abbrev whole_body : Bytes
whole_body = body_1 ++ body_2

body_runs :
    (parse_body body_1 chunks_due
      ≡ ok ((body_run body_1 chunks_due).0, (body_run body_1 chunks_due).1))
    × (is_completed (body_run body_1 chunks_due).0.1.m_state ≡ false)
    × (parse_body whole_body chunks_due
        ≡ ok ((body_run whole_body chunks_due).0, (body_run whole_body chunks_due).1))
    × (is_completed (body_run whole_body chunks_due).0.1.m_state ≡ true)
    × ((body_run whole_body chunks_due).0.1.body ≡ codes "abcd")
unfolding parse_head head_from restart begin_request scan head_turn incomplete_line line_turn
    request_line_turn header_turn finalize_head announce_body parse_header_field header_field_parts
    known_field connection_field transfer_encoding_field content_length_field content_length_of
    from_chars parse_request_line request_line_parts bad_version combine tokens canonical_name
    trim_ows next_line strip_cr char_table iequals append_body_callback parse_body parse_body_of
    parse_chunked chunked_turn chunk_case size_turn chunk_size data_turn data_end_turn trailers_turn
    trailer_line deliver append_body hex_value
body_runs = (refl, refl, refl, refl, refl)

chunks_due-Chunking : Chunking chunks_due
chunks_due-Chunking =
    parse_head-Chunking whole_head start (head_run whole_head).0 (head_run whole_head).1 start-Ready
      head_runs.2 head_runs.6 head_runs.3 10 head_runs.4

sized_due-Sizing : Sizing sized_due
sized_due-Sizing =
    parse_head-Sizing sized_head start (head_run sized_head).0 (head_run sized_head).1 start-Ready
      sized_runs.0 head_runs.6 sized_runs.1 10 (omega arith) sized_runs.2 sized_due-nonzero

parse_body-ChunkParsed_example :
    Returns (λ r. ChunkParsed (length body_1) r.0 r.1) (parse_body body_1 chunks_due)
parse_body-ChunkParsed_example = parse_body-ChunkParsed body_1 chunks_due chunks_due-Chunking

parse_body-append_example :
    parse_body (body_1 ++ body_2) chunks_due
    ≡ moved (body_run body_1 chunks_due).1 (
        parse_body
          (drop (body_run body_1 chunks_due).1 body_1 ++ body_2)
          (body_run body_1 chunks_due).0)
parse_body-append_example =
    parse_body-append body_1 body_2 chunks_due (body_run body_1 chunks_due).0
      (body_run body_1 chunks_due).1 chunks_due-Chunking body_runs.0 body_runs.1

abbrev parts : List Bytes
parts = codes "abc" ∷ [] ∷ codes "de" ∷ []

chunks_due-facts :
    (chunks_due.1.has_callback ≡ true)
    × (chunks_due.1.m_max_body_size ≡ 10)
    × (chunks_due.0.m_received ≡ 0)
    × (sized_due.1.has_callback ≡ true)
    × (sized_due.1.m_max_body_size ≡ 10)
    × (sized_due.0.m_content_length ≡ 5)
unfolding parse_head head_from restart begin_request scan head_turn incomplete_line line_turn
    request_line_turn header_turn finalize_head announce_body parse_header_field header_field_parts
    known_field connection_field transfer_encoding_field content_length_field content_length_of
    from_chars parse_request_line request_line_parts bad_version combine tokens canonical_name
    trim_ows next_line strip_cr char_table iequals append_body_callback
chunks_due-facts = (refl, refl, refl, refl, refl, refl)

chunks_due-Accepts : Accepts chunks_due (length (flatten parts))
chunks_due-Accepts = record {
  callback = chunks_due-facts.0;
  room = omega (arith, chunks_due-facts.2);
  allowed = λ _. omega (arith, chunks_due-facts.1, chunks_due-facts.2);
}

parse_body-session_example :
    parse_body (session [] parts ++ codes "GET") chunks_due
    ≡ ok (finish (flatten parts) chunks_due, length (session [] parts))
parse_body-session_example =
    parse_body-session chunks_due parts (codes "GET") chunks_due-Chunking head_runs.5
      chunks_due-Accepts

parse_body-taken_example :
    parse_body (codes "hel") sized_due
    ≡ ok (
      taken (take sized_due.0.m_remaining (codes "hel")) sized_due,
      min sized_due.0.m_remaining (length (codes "hel")),
    )
parse_body-taken_example =
    parse_body-taken (codes "hel") sized_due sized_due-Sizing chunks_due-facts.3
      (λ _. omega (arith, chunks_due-facts.4, chunks_due-facts.5))

-- The same request for a session that takes 3 bytes.
abbrev sized_small : State
sized_small = ((head_run sized_head).0.0, append_body_callback 3 (head_run sized_head).0.1)

sized_small-limit : sized_small.1.m_max_body_size ≡ 3
unfolding append_body_callback
sized_small-limit = refl

sized_small-Sizing : Sizing sized_small
sized_small-Sizing =
    parse_head-Sizing sized_head start (head_run sized_head).0 (head_run sized_head).1 start-Ready
      sized_runs.0 head_runs.6 sized_runs.1 3 (omega arith) sized_runs.2 sized_due-nonzero

sized_small-limited : sized_small.1.m_max_body_size ≢ 0
sized_small-limited = omega (arith, sized_small-limit)

parse_body-too_large_example :
    parse_body (codes "hel") sized_small ≡ fail 413 "Request entity too large"
parse_body-too_large_example =
    parse_body-too_large (codes "hel") sized_small sized_small-Sizing sized_small-limited
      (omega (arith, sized_small-limit, sized_runs.3))

abbrev outputs_4 : List Output
outputs_4 = put_chars (codes "abc") ∷ flush ∷ put_char b'd' ∷ []

chunks_due-Accepts_4 : Accepts chunks_due (length (contents outputs_4))
chunks_due-Accepts_4 = record {
  callback = chunks_due-facts.0;
  room = omega (arith, chunks_due-facts.2);
  allowed = λ _. omega (arith, chunks_due-facts.1, chunks_due-facts.2);
}

parse_body-output_example :
    (ws : List Bytes) × (output_all (λ k n. n) outputs_4 (open_buffer (λ k n. n) 0) ≡ some ws)
    × (parse_body (session [] ws ++ codes "GET") chunks_due
        ≡ ok (finish (contents outputs_4) chunks_due, length (session [] ws)))
parse_body-output_example =
    parse_body-output (λ k n. n) (λ k n. omega arith) outputs_4 0 chunks_due (codes "GET")
      chunks_due-Chunking head_runs.5 chunks_due-Accepts_4
