-- ===== src/HttpSession/Tests.antt =====
-- The theorems on sessions, where the bytes of a request arrive in pieces.
use dracon.Http.Response.{pos}
use dracon.Scanner.Defs.{scan}
use dracon.Prelude.{
  ℕ, true, false, ◌≡◌, ◌≢◌, refl, codes, Bytes, List, [], ◌∷◌, ◌++◌, Result, ok, fail, thrown,
  out_of_fuel, arith, flatten, inr,
}
use dracon.Http.Request.{fresh_request, append_body_callback, combine, head_parsed, is_completed}
use dracon.HttpParser.Detail.{
  next_line, strip_cr, char_table, iequals, canonical_name, trim_ows, tokens,
}
use dracon.HttpParser.State.{State, initial, begin_request}
use dracon.HttpParser.Head.{
  parse_head, head_from, restart, head_turn, incomplete_line, line_turn, request_line_turn,
  header_turn, finalize_head, announce_body, parse_header_field, header_field_parts, known_field,
  connection_field, transfer_encoding_field, content_length_field, content_length_of, from_chars,
  parse_request_line, request_line_parts, bad_version, is_done,
}
use dracon.HttpParser.Body.{parse_body}
use dracon.HttpParser.Incremental.{Ready}
use dracon.HttpParser.Framing.{parse_head-Sizing}
use dracon.HttpParser.Sized.{Sizing}
use dracon.HttpSession.{Event, received, resumed, HttpSession, read_headers, read}
use dracon.HttpSession.Feeding.{arrived, AsOneCall}
use dracon.HttpSession.Reading.{read_headers-AsOneCall}
use dracon.HttpSession.Body.{read-AsOneCall}
use dracon.HttpSession.Writing.{
  WriteEvent, wrote, write_resumed, write_failed, returned, write_loop, write_buffers, ssl_offer,
}
use dracon.HttpSession.Writing.Vectored.{
  Goes, write_buffers-write_loop, write_buffers-Goes, write_buffers-returned,
}
use dracon.HttpSession.Writing.Offer.{Offers, ssl_offer-Offers}

abbrev new_session : HttpSession
new_session = record {
  m_parser = initial;
  m_pending = [];
  m_can_write_error = false;
  m_keep_alive = pos 0;
}

new_session-Ready : Ready (initial, fresh_request)
new_session-Ready = record {
  few = omega arith;
  short = omega arith;
  small = omega arith;
  agrees = λ x. cc;
}

-- A request in three pieces, with a wait in between; the last piece has a byte of the next one.
abbrev arrivals : List Event
arrivals =
    received b'P' (codes "OST / HT")
    ∷ resumed
    ∷ received b'T' (codes "P/1.1\r\nContent-Length: 5\r")
    ∷ received b'\n' (codes "\r\nG")
    ∷ []

read_headers-AsOneCall_example :
    AsOneCall parse_head head_parsed
      ([] ++ arrived arrivals)
      (initial, fresh_request)
      (read_headers arrivals new_session)
read_headers-AsOneCall_example = read_headers-AsOneCall arrivals new_session tt

abbrev start : State
start = (initial, fresh_request)

abbrev sized_head : Bytes
sized_head = codes "POST / HTTP/1.1\r\nContent-Length: 5\r\n\r\n"

abbrev or_start : Result (State × ℕ) → State × ℕ
or_start (ok r) = r
or_start (fail _ _) = (start, 0)
or_start (thrown _) = (start, 0)
or_start out_of_fuel = (start, 0)

abbrev head_run : State × ℕ
head_run = or_start (parse_head sized_head start)

sized_runs :
    (parse_head sized_head start ≡ ok (head_run.0, head_run.1))
    × (is_done head_run.0.0.m_head ≡ true)
    × (head_run.0.0.m_chunked ≡ false)
    × (head_run.0.0.m_content_length ≡ 5)
    × (is_done (restart start).0.m_head ≡ false)
unfolding parse_head head_from restart begin_request scan head_turn incomplete_line line_turn
    request_line_turn header_turn finalize_head announce_body parse_header_field header_field_parts
    known_field connection_field transfer_encoding_field content_length_field content_length_of
    from_chars parse_request_line request_line_parts bad_version combine tokens canonical_name
    trim_ows next_line strip_cr char_table iequals
sized_runs = (refl, refl, refl, refl, refl)

nonzero : head_run.0.0.m_content_length ≢ 0
nonzero = omega (arith, sized_runs.3)

sized_due : Sizing (head_run.0.0, append_body_callback 10 head_run.0.1)
sized_due =
    parse_head-Sizing sized_head start head_run.0 head_run.1 new_session-Ready sized_runs.0
      sized_runs.4 sized_runs.1 10 (omega arith) sized_runs.2 nonzero

abbrev body_session : HttpSession
body_session = record new_session { m_parser = head_run.0.0; m_pending = codes "ab" }

abbrev body_arrivals : List Event
body_arrivals = received b'c' [] ∷ resumed ∷ received b'd' (codes "eGET") ∷ []

read-AsOneCall_example :
    AsOneCall parse_body is_completed
      (codes "ab" ++ arrived body_arrivals)
      (head_run.0.0, append_body_callback 10 head_run.0.1)
      (read body_arrivals body_session (append_body_callback 10 head_run.0.1))
read-AsOneCall_example =
    read-AsOneCall body_arrivals body_session (append_body_callback 10 head_run.0.1) (inr sized_due)
      tt

abbrev buffers : List Bytes
buffers = codes "ab" ∷ [] ∷ codes "cde" ∷ []

abbrev answers : List WriteEvent
answers = wrote 2 ∷ write_resumed ∷ wrote 0 ∷ wrote 9 ∷ wrote 0 ∷ wrote 0 ∷ []

write_buffers-write_loop_example :
    write_buffers answers [] buffers ≡ write_loop answers [] (flatten buffers)
write_buffers-write_loop_example = write_buffers-write_loop answers [] buffers

write_buffers-Goes_example :
    Goes ([] ++ flatten buffers) (write_buffers (wrote 2 ∷ write_failed 32 ∷ []) [] buffers)
write_buffers-Goes_example = write_buffers-Goes (wrote 2 ∷ write_failed 32 ∷ []) [] buffers

write_buffers-returned_example :
    (rest : List WriteEvent) × (write_buffers answers [] buffers
      ≡ returned ([] ++ flatten buffers) rest)
write_buffers-returned_example = write_buffers-returned answers [] buffers tt

ssl_offer-Offers_example : Offers (ssl_offer 4 16 buffers) (flatten buffers)
ssl_offer-Offers_example =
    ssl_offer-Offers 4 16 (omega arith) (codes "ab") ([] ∷ codes "cde" ∷ []) (omega arith)
