-- ===== src/HttpParser/Head/Bounds.antt =====
-- What a round of `parse_head` keeps: the limits on the header fields and on the head's size.
use dracon.Prelude.{
  ℕ, ◌+◌, ◌≤◌, ◌<◌, ◌≡◌, ◌≢◌, arith, Bytes, Bool, true, false, List, [], ◌∷◌, ◌⊎◌, ◌&&◌, foldl, ok,
  Bool-cases, Option-cases, Result-cases, is_empty, find, take, drop, inl, inr,
}
use dracon.Http.Request.{chunked_data, headers_completed, completed, is_uninitialized, head_parsed}
use dracon.HttpParser.Detail.{trim_ows, tokens, Line}
use dracon.HttpParser.State.{
  HttpRequestParser, State, request_line, headers, done, Body, chunked, content_length, size,
  max_head_size, max_headers_count,
}
use dracon.Scanner.Defs.{again, stop}
use dracon.HttpParser.Head.{
  connection_option, connection_field, content_length_of, content_length_field,
  transfer_encoding_field, known_field, header_field_parts, parse_header_field, request_line_parts,
  parse_request_line, announce_body, finalize_head, request_line_turn, header_turn, is_done,
}

-- The members that only `parse_head` itself changes.
pub record SameHead (p q : HttpRequestParser) : Type 0 where
  pub same_head : q.m_head ≡ p.m_head
  pub same_seen : q.m_head_seen ≡ p.m_head_seen
  pub same_headers : q.m_headers ≡ p.m_headers
  pub length_known : (q.m_content_length ≡ p.m_content_length) ⊎ (q.m_content_length < chunked_data)

connection_option-SameHead :
    (p : HttpRequestParser) (o : Bytes) → SameHead p (connection_option p o)
unfolding connection_option
connection_option-SameHead p o = ground arith

fold-SameHead :
    (p : HttpRequestParser) (os : List Bytes) → SameHead p (foldl connection_option p os)
fold-SameHead p [] = ground arith
fold-SameHead p (o ∷ os) =
    ground (arith, connection_option-SameHead p o, fold-SameHead (connection_option p o) os)

known_field-SameHead :
    (key value : Bytes) (p : HttpRequestParser) (r : HttpRequestParser × Bool)
    → known_field key value p ≡ ok r
    → SameHead p r.0
unfolding known_field content_length_field content_length_of transfer_encoding_field
    connection_field
known_field-SameHead key value p r e = ground (arith, fold-SameHead p (tokens value))

header_field_parts-SameHead :
    (name value : Bytes) (s s' : State)
    → header_field_parts name value s ≡ ok s'
    → SameHead s.0 s'.0 × (s'.1.m_state ≡ s.1.m_state)
unfolding header_field_parts
header_field_parts-SameHead name value (p, req) s' e = grind (arith, known_field-SameHead)

pub parse_header_field-SameHead :
    (text : Bytes) (s s' : State)
    → parse_header_field text s ≡ ok s'
    → (s'.0.m_head ≡ s.0.m_head)
      × (s'.0.m_head_seen ≡ s.0.m_head_seen)
      × (s'.0.m_headers ≡ s.0.m_headers + 1)
      × (s'.0.m_headers ≤ max_headers_count)
      × ((s'.0.m_content_length ≡ s.0.m_content_length) ⊎ (s'.0.m_content_length < chunked_data))
      × (s'.1.m_state ≡ s.1.m_state)
unfolding parse_header_field
parse_header_field-SameHead text s s' e = elim (Option-cases (find b':' text)) [
  | inl e' ↦ ground arith
  | inr (colon, e') ↦ ground (
    arith,
    header_field_parts-SameHead (take colon text) (trim_ows (drop (colon + 1) text))
        (record s.0 { m_headers = s.0.m_headers + 1 }, s.1) s',
  )
]

parse_request_line-SameHead :
    (text : Bytes) (s s' : State)
    → parse_request_line text s ≡ ok s'
    → SameHead s.0 s'.0 × (s'.1.m_state ≡ s.1.m_state)
unfolding parse_request_line request_line_parts
parse_request_line-SameHead text s s' e = ground arith

-- The framing of the body, once the head is complete: never both a length and chunks; chunks,
-- from the start; a length that is not 0, all of it expected; or no body, and a complete request.
pub record Framed (s : State) : Type 0 where
  pub exclusive : (s.0.m_has_content_length && s.0.m_chunked) ≡ false
  pub unread : s.0.m_received ≡ 0
  pub chunked_body :
      s.0.m_chunked ≡ true
      → (s.0.m_body ≡ chunked) × (s.0.m_chunk ≡ size) × (s.1.m_state ≡ headers_completed)
  pub sized_body :
      s.0.m_chunked ≡ false
      → s.0.m_content_length ≢ 0
      → (s.0.m_body ≡ content_length)
        × (s.0.m_remaining ≡ s.0.m_content_length)
        × (s.1.m_state ≡ headers_completed)
  pub no_body :
      s.0.m_chunked ≡ false
      → s.0.m_content_length ≡ 0
      → (s.0.m_body ≡ Body.none) × (s.1.m_state ≡ completed)

finalize_head-SameHead :
    (s s' : State)
    → finalize_head s ≡ ok s'
    → SameHead s.0 s'.0
      × (is_uninitialized s'.1.m_state ≡ false)
      × (head_parsed s'.1.m_state ≡ true)
      × Framed s'
unfolding finalize_head announce_body
finalize_head-SameHead s s' e = ground arith

-- Between rounds: no more fields than allowed; and once the request line is read, no longer a
-- head than allowed.
pub record HeadInv (s : State) : Type 0 where
  pub few : s.0.m_headers ≤ max_headers_count
  pub short : s.0.m_head ≢ request_line → s.0.m_head_seen ≤ max_head_size
  pub begun : is_uninitialized s.1.m_state ≡ false
  pub unparsed : head_parsed s.1.m_state ≡ false
  pub small : s.0.m_content_length < chunked_data
  pub going : is_done s.0.m_head ≡ false

-- At the end of a call: what was read of the head, and what waits unread behind it while the head
-- is not complete, is no more than allowed.
pub record HeadPost (s : State) (unread : ℕ) : Type 0 where
  pub few : s.0.m_headers ≤ max_headers_count
  pub begun : is_uninitialized s.1.m_state ≡ false
  pub agrees : head_parsed s.1.m_state ≡ is_done s.0.m_head
  pub small : s.0.m_content_length < chunked_data
  pub framed : s.0.m_head ≡ done → Framed s
  pub seen_bound : s.0.m_head_seen ≤ max_head_size
  pub unread_bound : s.0.m_head ≢ done → s.0.m_head_seen + unread ≤ max_head_size

pub request_line_turn-again :
    (l : Line) (s s' : State) (n : ℕ)
    → HeadInv s
    → s.0.m_head ≡ request_line
    → request_line_turn l s ≡ ok (again s' n)
    → (n ≡ l.next) × HeadInv s'
unfolding request_line_turn
request_line_turn-again l s s' n inv at_line e = grind (arith, parse_request_line-SameHead)

pub header_turn-again :
    (l : Line) (s s' : State) (n : ℕ)
    → HeadInv s
    → s.0.m_head ≡ headers
    → header_turn l s ≡ ok (again s' n)
    → (n ≡ l.next) × HeadInv s'
unfolding header_turn
header_turn-again l s s' n inv at_headers e = elim (Bool-cases (is_empty l.text)) [
  | inl blank ↦ absurd (ground arith)
  | inr other ↦ elim (Result-cases (parse_header_field l.text s)) [
    | inl (s1, e1) ↦ ground (arith, parse_header_field-SameHead l.text s s1 e1)
    | inr nope ↦ grind arith
  ]
]

pub header_turn-stop :
    (l : Line) (s s' : State) (n unread : ℕ)
    → HeadInv s
    → s.0.m_head ≡ headers
    → header_turn l s ≡ ok (stop s' n)
    → (n ≡ l.next) × HeadPost s' unread × (s'.0.m_head ≡ done)
unfolding header_turn
header_turn-stop l s s' n unread inv at_headers e = elim (Bool-cases (is_empty l.text)) [
  | inl blank ↦ elim (Result-cases (finalize_head s)) [
    | inl (s1, e1) ↦ ground (arith, finalize_head-SameHead s s1)
    | inr nope ↦ grind arith
  ]
  | inr other ↦ ground arith
]
