-- ===== src/HttpParser/Announced.antt =====
-- How the fields of a request frame its body, once parse_head has read them.
use dracon.Prelude.{
  ℕ, ◌≡◌, ◌≢◌, ◌∙◌, refl, sym, ap, Bytes, Bool, true, false, ◌&&◌, Option, none, some, length, ok,
  Bool-cases, inl, inr, not_both,
}
use dracon.Http.ContentLength.{find_field}
use dracon.Http.Request.{fresh_request, head_parsed, headers_completed, completed}
use dracon.HttpParser.State.{
  HttpRequestParser, State, Body, chunked, content_length, size, initial, begin_request,
}
use dracon.HttpParser.Head.{parse_head, restart, content_length_of}
use dracon.HttpParser.Head.Bounds.{Framed}
use dracon.HttpParser.Head.Fields.{Announced, is_there, length_name, encoding_name}
use dracon.HttpParser.Incremental.{Parsed, parse_head-Parsed}
use dracon.HttpParser.Framing.{parse_head-Framed}
use dracon.HttpParser.Limits.{new_request-Ready, parse_head-Follows}

-- The body is framed as the fields say.
pub record IsFramedByFields (s : State) : Type 0 where
  pub unread : s.0.m_received ≡ 0
  pub exclusive :
      is_there (find_field encoding_name s.1.fields) ≡ true
      → find_field length_name s.1.fields ≡ none
  pub by_chunks :
      is_there (find_field encoding_name s.1.fields) ≡ true
      → (s.0.m_body ≡ chunked) × (s.0.m_chunk ≡ size) × (s.1.m_state ≡ headers_completed)
  pub by_length :
      (v : Bytes)
      → find_field length_name s.1.fields ≡ some v
      → (n : ℕ) × (content_length_of v ≡ ok n)
        × (n ≢ 0
            → (s.0.m_body ≡ content_length)
              × (s.0.m_remaining ≡ n)
              × (s.1.m_state ≡ headers_completed))
        × (n ≡ 0 → (s.0.m_body ≡ Body.none) × (s.1.m_state ≡ completed))
  pub without :
      find_field encoding_name s.1.fields ≡ none
      → find_field length_name s.1.fields ≡ none
      → (s.0.m_body ≡ Body.none) × (s.1.m_state ≡ completed)

not_also : (a b : Bool) → (a && b) ≡ false → b ≡ true → a ≡ false
not_also false b e f = refl
not_also true b e f = absurd (not_both (sym f ∙ e))

absent : (o : Option Bytes) → is_there o ≡ false → o ≡ none
absent none e = refl
absent (some v) e = cc

Framed-fields : (s : State) → Framed s → Announced s.0 s.1.fields → IsFramedByFields s
Framed-fields s f a = record {
  unread = f.unread;
  exclusive = λ there.
      absent (find_field length_name s.1.fields)
        (sym a.length_there ∙ not_also _ _ f.exclusive (a.chunked_there ∙ there));
  by_chunks = λ there. f.chunked_body (a.chunked_there ∙ there);
  by_length = λ v e.
      let has : s.0.m_has_content_length ≡ true = a.length_there ∙ ap is_there e in
      let not_chunked : s.0.m_chunked ≡ false = elim (Bool-cases s.0.m_chunked) [
        | inl both ↦ absurd (not_both (sym has ∙ not_also _ _ f.exclusive both))
        | inr single ↦ single
      ] in
      (
        s.0.m_content_length,
        a.value_of v e,
        λ nz. f.sized_body not_chunked nz,
        λ z. f.no_body not_chunked z,
      );
  without = λ no_encoding no_length.
      f.no_body (a.chunked_there ∙ ap is_there no_encoding)
        (a.unset (a.length_there ∙ ap is_there no_length));
}

same_start :
    (input : Bytes) (p : HttpRequestParser)
    → parse_head input (initial, fresh_request) ≡ parse_head input (p, fresh_request)
unfolding parse_head restart begin_request
same_start input p = refl

-- Where `parse_head` completes the head of a new request, whatever was left in the parser, its
-- fields frame the body in one way only. A request with a Transfer-Encoding has no Content-Length,
-- and its body is read by chunks from the first one on. A Content-Length is a valid number, and
-- where it is not 0 a body of just that length is expected; where it is 0, or there is neither
-- field, there is no body and the request is complete.
pub parse_head-IsFramedByFields :
    (input : Bytes) (p : HttpRequestParser) (s1 : State) (n : ℕ)
    → parse_head input (p, fresh_request) ≡ ok (s1, n)
    → head_parsed s1.1.m_state ≡ true
    → IsFramedByFields s1
unfolding restart begin_request
parse_head-IsFramedByFields input p s1 n e over =
    let e' : parse_head input (initial, fresh_request) ≡ ok (s1, n) = same_start input p ∙ e in
    let parsed : Parsed (length input) s1 n =
      unfold parse_head in
      rw e' at (parse_head-Parsed input (initial, fresh_request) new_request-Ready) in
    Framed-fields s1
      (parse_head-Framed input (initial, fresh_request) s1 n new_request-Ready e' refl
        (sym (parsed.ready.agrees parsed.begun) ∙ over))
      (parse_head-Follows input p s1 n e).announced
