-- ===== src/Stream/Encode.antt =====
-- The output of a chunked_stream, chunk by chunk, and the theorem that parse_chunked reads it back.
use dracon.Prelude.{
  ℕ, ◌+◌, ◌<◌, ◌≡◌, ◌∙◌, refl, ap, arith, Bytes, List, [], ◌∷◌, ◌++◌, length, flatten,
  length-append, append_assoc, append-nil, false, ok, ◌==◌,
}
use dracon.Http.Request.{completed, set_state}
use dracon.HttpParser.State.{State, size, trailers}
use dracon.HttpParser.Body.{chunked_turn, chunk_case, trailers_turn, trailer_line, parse_chunked}
use dracon.HttpParser.Body.Loop.{Underway, ChunkInv, ChunkPost, chunked_turn-IsScanner}
use dracon.HttpParser.Body.Deliver.{Accepts}
use dracon.HttpParser.Detail.{next_line}
use dracon.Scanner.Defs.{scan, stop}
use dracon.Scanner.Fuel.{scan_stop}
use dracon.Stream.Chunked.{
  chunk_header, to_chars_hex, write, close, session, crlf_string, end_of_chunked_stream,
}
use dracon.Stream.RoundTrip.{size_turn-header}
use dracon.Stream.Decode.{chunk, fed, one_chunk, round, header_pos}

encode : List Bytes → Bytes
encode [] = end_of_chunked_stream
encode ([] ∷ parts) = encode parts
encode ((x ∷ part) ∷ parts) = chunk (x ∷ part) ++ encode parts

nonzero_length : (x : ℕ) (part : Bytes) → (length (x ∷ part) == 0) ≡ false
nonzero_length x part = ground arith

session-encode : (out : Bytes) (parts : List Bytes) → session out parts ≡ out ++ encode parts
unfolding session close write encode
session-encode out [] = refl
session-encode out ([] ∷ parts) = session-encode out parts
session-encode out ((x ∷ part) ∷ parts) = rw (nonzero_length x part) (
    session-encode (out ++ chunk (x ∷ part)) parts
    ∙ append_assoc out (chunk (x ∷ part)) (encode parts))

-- The state after the whole body.
abbrev pub finish : Bytes → State → State
finish total (p, req) = (
  record p { m_remaining = 0; m_chunk = trailers; m_received = p.m_received + length total },
  record req { body = req.body ++ total; m_state = completed },
)

-- The same with nothing handed over.
abbrev at_end : State → State
at_end (p, req) = (record p { m_remaining = 0; m_chunk = trailers }, set_state completed req)

finish-nil : (s : State) → at_end s ≡ finish [] s
finish-nil s =
    let none_more : s.0.m_received + 0 ≡ s.0.m_received = omega arith in rw (none_more, append-nil)

trailers_crlf :
    (s : State) (rest : Bytes)
    → s.0.m_chunk ≡ trailers
    → chunked_turn s (crlf_string ++ rest) ≡ ok (stop (s.0, set_state completed s.1) 2)
unfolding chunked_turn chunk_case trailers_turn trailer_line next_line
trailers_crlf s rest at = ap (λ c. chunk_case c s (crlf_string ++ rest)) at

last_chunk :
    (g : ℕ) (s : State) (pos : ℕ) (rest : Bytes)
    → s.0.m_chunk ≡ size
    → Underway s
    → length (end_of_chunked_stream ++ rest) < g
    → scan chunked_turn g s pos (end_of_chunked_stream ++ rest) ≡ ok (finish [] s, pos + 5)
unfolding chunk_case chunk_header to_chars_hex
last_chunk g s pos rest at going h =
    let s1 : State = (record s.0 { m_remaining = 0; m_chunk = trailers }, s.1) in
    round g size s pos (b'0' ∷ crlf_string) (crlf_string ++ rest) s1 at
      (record { expects = λ e. cc; underway = going }) h (omega arith)
      (size_turn-header 0 s.0 s.1 (crlf_string ++ rest) (omega arith))
    ∙ scan_stop chunked_turn ChunkInv ChunkPost chunked_turn-IsScanner g s1 (pos + 3)
        (crlf_string ++ rest) (at_end s) 2 (omega (arith, h)) (trailers_crlf s1 rest refl)
    ∙ ap (λ t. ok (t, pos + 3 + 2)) (finish-nil s)
    ∙ ap (λ k. ok (finish [] s, k)) (omega arith)

Accepts-part :
    (s : State) (part more : Bytes) → Accepts s (length (part ++ more)) → Accepts s (length part)
Accepts-part s part more a = record {
  callback = a.callback;
  room = omega (arith, a.room, length-append part more);
  allowed = λ nz. omega (arith, a.allowed nz, length-append part more);
}

Accepts-fed :
    (s : State) (part more : Bytes)
    → Accepts s (length (part ++ more))
    → Accepts (fed part s) (length more)
Accepts-fed s part more a = record {
  callback = a.callback;
  room = omega (arith, a.room, length-append part more);
  allowed = λ nz. omega (arith, a.allowed nz, length-append part more);
}

finish-fed : (s : State) (part more : Bytes) → finish more (fed part s) ≡ finish (part ++ more) s
finish-fed s part more =
    let sum : s.0.m_received + length part + length more ≡ s.0.m_received + length (part ++ more) =
      omega (arith, length-append part more) in
    rw (sum, append_assoc)

scan-encode :
    (g : ℕ) (s : State) (pos : ℕ) (parts : List Bytes) (rest : Bytes)
    → s.0.m_chunk ≡ size
    → Underway s
    → Accepts s (length (flatten parts))
    → length (encode parts ++ rest) < g
    → scan chunked_turn g s pos (encode parts ++ rest)
      ≡ ok (finish (flatten parts) s, pos + length (encode parts))
unfolding encode
scan-encode g s pos [] rest at going a h = last_chunk g s pos rest at going h
scan-encode g s pos ([] ∷ parts) rest at going a h = scan-encode g s pos parts rest at going a h
scan-encode g s pos ((x ∷ part) ∷ parts) rest at going a h =
    let b = x ∷ part in
    let l = length-append (chunk b) (encode parts) in
    let l2 = length-append (chunk b) (encode parts ++ rest) in
    let l3 = length-append (encode parts) rest in
    let l4 = length-append (chunk b ++ encode parts) rest in
    let total : pos + length (chunk b) + length (encode parts)
        ≡ pos + length (chunk b ++ encode parts) =
      omega (arith, l) in
    rw (append_assoc (chunk b) (encode parts) rest) (
      one_chunk g s pos b (encode parts ++ rest) at going (omega arith)
        (Accepts-part s b (flatten parts) a) (omega (arith, l, l2, l3, l4))
      ∙ scan-encode g (fed b s) (pos + length (chunk b)) parts rest refl going
          (Accepts-fed s b (flatten parts) a) (omega (arith, l, l2, l3, l4, header_pos (length b)))
      ∙ ap (λ t. ok (t, pos + length (chunk b) + length (encode parts)))
          (finish-fed s b (flatten parts))
      ∙ ap (λ k. ok (finish (b ++ flatten parts) s, k)) total)

-- Whatever a session writes through a chunked_stream, in whatever pieces, a parser at the start
-- of a chunked body reads back: it hands over exactly the bytes that were written, consumes exactly the
-- bytes of the stream, and completes the request. It needs a callback, room in size_t and a limit
-- on the body that allows so many bytes.
pub parse_chunked-session :
    (s : State) (parts : List Bytes) (rest : Bytes)
    → s.0.m_chunk ≡ size
    → Underway s
    → Accepts s (length (flatten parts))
    → parse_chunked (session [] parts ++ rest) s
      ≡ ok (finish (flatten parts) s, length (session [] parts))
unfolding parse_chunked
parse_chunked-session s parts rest at going a = rw (session-encode [] parts) (
    scan-encode _ s 0 parts rest at going a (omega arith)
    ∙ ap (λ k. ok (finish (flatten parts) s, k)) (omega arith))
