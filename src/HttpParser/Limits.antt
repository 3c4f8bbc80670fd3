-- ===== src/HttpParser/Limits.antt =====
-- The limits of `parse_head` on a whole head, in the bytes that the client sent and the fields that
-- the request has.
use dracon.Prelude.{
  ℕ, suc, ◌≤◌, ◌≡◌, ◌∙◌, refl, sym, arith, Bytes, false, length, Result, ok, fail, thrown,
  out_of_fuel,
}
use dracon.Http.Request.{fresh_request, head_parsed}
use dracon.HttpParser.State.{
  HttpRequestParser, State, initial, begin_request, max_head_size, max_headers_count,
}
use dracon.HttpParser.Head.{parse_head, restart}
use dracon.HttpParser.Head.Fields.{initial-Announced}
use dracon.HttpParser.Head.Follows.{Follows, scan-Follows}
use dracon.HttpParser.Incremental.{Ready, Returns, parse_head-Parsed, head_from_going}

-- What a call on a new request returned is within the limits.
pub record IsLimited (input : Bytes) (s : State) (n : ℕ) : Type 0 where
  pub within : n ≤ length input
  pub few_fields : length s.1.fields ≤ max_headers_count
  pub short_head : n ≤ max_head_size
  pub short_wait : head_parsed s.1.m_state ≡ false → length input ≤ max_head_size

pub new_request-Ready : Ready (initial, fresh_request)
new_request-Ready = record {
  few = omega arith;
  short = omega arith;
  small = omega arith;
  agrees = λ x. cc;
}

pub parse_head-Follows :
    (input : Bytes) (p : HttpRequestParser) (s1 : State) (n : ℕ)
    → parse_head input (p, fresh_request) ≡ ok (s1, n)
    → Follows n s1
unfolding parse_head restart begin_request
parse_head-Follows input p s1 n e =
    let s = begin_request (p, fresh_request) in
    scan-Follows (suc (length input)) s 0 input s1 n
      (record { counted = refl; few = omega arith; announced = initial-Announced })
      (sym (head_from_going input s refl) ∙ e)

Returns-with :
    {P Q : State × ℕ → Type 0} (m : Result (State × ℕ))
    → ((r : State × ℕ) → m ≡ ok r → P r → Q r)
    → Returns P m
    → Returns Q m
Returns-with (ok r) f h = f r refl h
Returns-with (fail _ _) f h = tt
Returns-with (thrown _) f h = tt
Returns-with out_of_fuel f h = h

-- `parse_head` on a new request, whatever was left in the parser, ends by itself. Where it throws
-- nothing, it consumed no more than it was handed and at most max_head_size bytes, and the request
-- has at most max_headers_count fields; and where the head is not complete, it was handed at most
-- max_head_size bytes, so that a client cannot make it wait behind that.
pub parse_head-IsLimited :
    (input : Bytes) (p : HttpRequestParser)
    → Returns (λ r. IsLimited input r.0 r.1) (parse_head input (p, fresh_request))
unfolding parse_head restart begin_request
parse_head-IsLimited input p =
    Returns-with (parse_head input (p, fresh_request))
      (λ r e parsed.
        let f = parse_head-Follows input p r.0 r.1 e in
        let few = f.few in
        let few' = parsed.ready.few in
        let counted = f.counted in
        let short = parsed.ready.short in
        record {
          within = parsed.within;
          few_fields = omega (arith, few, few');
          short_head = omega (arith, counted, short);
          short_wait = λ w.
              let waits = parsed.buffered (sym (parsed.ready.agrees parsed.begun) ∙ w) in
              omega (arith, counted, waits, parsed.within);
        })
      (parse_head-Parsed input (initial, fresh_request) new_request-Ready)
