-- ===== src/HttpParser/Head/Follows.antt =====
-- What the loop of `parse_head` keeps of the bytes that it consumed and of the fields that it read.
use dracon.Prelude.{
  ℕ, zero, suc, ◌+◌, ◌≤◌, ◌≡◌, ◌∙◌, refl, ap, subst, arith, Bytes, length, drop, find, take, ok,
  Bool-cases, Option-cases, Result-cases, inl, inr, is_empty, >>=-not-ok,
}
use dracon.HttpParser.Detail.{Line, next_line, trim_ows}
use dracon.HttpParser.State.{HttpRequestParser, State, Head, request_line, headers, done}
use dracon.HttpParser.Head.{
  request_line_parts, parse_request_line, parse_header_field, announce_body, finalize_head,
  incomplete_line, request_line_turn, seen, header_field_parts, header_turn, line_turn, head_turn,
}
use dracon.HttpParser.Head.Bounds.{parse_header_field-SameHead}
use dracon.Http.Request.{set_state, processing_header}
use dracon.HttpParser.Head.Fields.{
  Announced, SameFraming, same-Announced, header_field_parts-Announced,
}
use dracon.Scanner.Defs.{Turn, again, stop, scan}

-- Behind `pos` bytes: they were all counted, no field is without a count, and the members that
-- frame the body are those that the fields call for.
pub record Follows (pos : ℕ) (s : State) : Type 0 where
  pub counted : s.0.m_head_seen ≡ pos
  pub few : length s.1.fields ≤ s.0.m_headers
  pub announced : Announced s.0 s.1.fields

abbrev FollowsTurn : ℕ → Turn State → Type 0
FollowsTurn pos (again s n) = Follows (pos + n) s
FollowsTurn pos (stop s n) = Follows (pos + n) s

-- What a request line or the end of the head leaves alone.
record SameFields (s s' : State) : Type 0 where
  same_seen : s'.0.m_head_seen ≡ s.0.m_head_seen
  same_count : s'.0.m_headers ≡ s.0.m_headers
  same_fields : s'.1.fields ≡ s.1.fields
  same_framing : SameFraming s.0 s'.0

parse_request_line-SameFields :
    (text : Bytes) (s s' : State) → parse_request_line text s ≡ ok s' → SameFields s s'
unfolding parse_request_line request_line_parts
parse_request_line-SameFields text s s' e = ground arith

finalize_head-SameFields : (s s' : State) → finalize_head s ≡ ok s' → SameFields s s'
unfolding finalize_head announce_body
finalize_head-SameFields s s' e = ground arith

framing_refl : (p : HttpRequestParser) → SameFraming p p
framing_refl p = record { same_chunked = refl; same_has = refl; same_length = refl }

through :
    (p q r : HttpRequestParser)
    → SameFraming p q
    → r.m_chunked ≡ q.m_chunked
    → r.m_has_content_length ≡ q.m_has_content_length
    → r.m_content_length ≡ q.m_content_length
    → SameFraming p r
through p q r s chunked has size = record {
  same_chunked = chunked ∙ s.same_chunked;
  same_has = has ∙ s.same_has;
  same_length = size ∙ s.same_length;
}

-- A step of n bytes that leaves the fields alone.
same-Follows :
    (pos n : ℕ) (s s' : State)
    → s'.0.m_head_seen ≡ s.0.m_head_seen + n
    → s'.0.m_headers ≡ s.0.m_headers
    → s'.1.fields ≡ s.1.fields
    → SameFraming s.0 s'.0
    → Follows pos s
    → Follows (pos + n) s'
same-Follows pos n s s' seen count fields framing f = record {
  counted = omega (arith, seen, f.counted);
  few = rw (fields, count) f.few;
  announced = rw fields (same-Announced s.0 s'.0 s.1.fields framing f.announced);
}

request_line_turn-Follows :
    (pos : ℕ) (l : Line) (s : State) (t : Turn State)
    → Follows pos s
    → request_line_turn l s ≡ ok t
    → FollowsTurn pos t
unfolding request_line_turn
request_line_turn-Follows pos l s t f e = elim (Bool-cases (is_empty l.text)) [
  | inl blank ↦
      let skipped : State = seen l.next s in
      let same : t ≡ again skipped l.next = ground (arith, e, blank) in
      rw same (
        same-Follows pos l.next s skipped refl refl refl
          (through s.0 s.0 skipped.0 (framing_refl s.0) refl refl refl) f)
  | inr other ↦ elim (Result-cases (parse_request_line l.text s)) [
    | inl (s1, e1) ↦
        let same_1 = parse_request_line-SameFields l.text s s1 e1 in
        let s2 : State =
          seen l.next (record s1.0 { m_head = headers }, set_state processing_header s1.1) in
        let same : t ≡ again s2 l.next = ground (arith, e, other, e1) in
        rw same (
          same-Follows pos l.next s s2 (ap (λ k. k + l.next) same_1.same_seen) same_1.same_count
            same_1.same_fields (through s.0 s1.0 s2.0 same_1.same_framing refl refl refl) f)
    | inr nope ↦ absurd (grind arith)
  ]
]

-- A field line is counted, and adds a field at most.
parse_header_field-Follows :
    (pos n : ℕ) (text : Bytes) (s s' : State)
    → Follows pos s
    → parse_header_field text s ≡ ok s'
    → Follows (pos + n) (seen n s')
unfolding parse_header_field
parse_header_field-Follows pos n text s s' f e =
    let (head, kept, one_more, within, known, state) = parse_header_field-SameHead text s s' e in
    elim (Option-cases (find b':' text)) [
      | inl e' ↦ absurd (ground arith)
      | inr (colon, e') ↦
          let p : HttpRequestParser = record s.0 { m_headers = s.0.m_headers + 1 } in
          let parts : header_field_parts (take colon text) (trim_ows (drop (colon + 1) text))
                (p, s.1)
              ≡ ok s' =
            ground (arith, e, e') in
          let framed : Announced p s.1.fields =
            same-Announced s.0 p s.1.fields
              (record { same_chunked = refl; same_has = refl; same_length = refl }) f.announced in
          let r = header_field_parts-Announced _ _ (p, s.1) s' framed parts in
          record {
            counted = omega (arith, kept, f.counted);
            few = omega (arith, one_more, r.1, f.few);
            announced =
                same-Announced s'.0 (seen n s').0 s'.1.fields
                  (through s'.0 s'.0 (seen n s').0 (framing_refl s'.0) refl refl refl) r.0;
          }
    ]

header_turn-Follows :
    (pos : ℕ) (l : Line) (s : State) (t : Turn State)
    → Follows pos s
    → header_turn l s ≡ ok t
    → FollowsTurn pos t
unfolding header_turn
header_turn-Follows pos l s t f e = elim (Bool-cases (is_empty l.text)) [
  | inl blank ↦ elim (Result-cases (finalize_head s)) [
    | inl (s1, e1) ↦
        let same_1 = finalize_head-SameFields s s1 e1 in
        let s2 : State = seen l.next (record s1.0 { m_head = done }, s1.1) in
        let same : t ≡ stop s2 l.next = ground (arith, e, blank, e1) in
        rw same (
          same-Follows pos l.next s s2 (ap (λ k. k + l.next) same_1.same_seen) same_1.same_count
            same_1.same_fields (through s.0 s1.0 s2.0 same_1.same_framing refl refl refl) f)
    | inr nope ↦ absurd (grind arith)
  ]
  | inr other ↦ elim (Result-cases (parse_header_field l.text s)) [
    | inl (s1, e1) ↦
        let same : t ≡ again (seen l.next s1) l.next = ground (arith, e, other, e1) in
        rw same (parse_header_field-Follows pos l.next l.text s s1 f e1)
    | inr nope ↦ absurd (grind arith)
  ]
]

none_taken : (pos : ℕ) (s : State) → Follows pos s → Follows (pos + 0) s
none_taken pos s f = let same : pos ≡ pos + 0 = omega arith in subst (λ k. Follows k s) same f

line_turn-Follows :
    (h : Head) (pos : ℕ) (l : Line) (s : State) (t : Turn State)
    → Follows pos s
    → line_turn h s l ≡ ok t
    → FollowsTurn pos t
unfolding line_turn
line_turn-Follows request_line pos l s t f e = request_line_turn-Follows pos l s t f e
line_turn-Follows headers pos l s t f e = header_turn-Follows pos l s t f e
line_turn-Follows done pos l s t f e =
    let same : t ≡ stop s 0 = ground (arith, e) in rw same (none_taken pos s f)

head_turn-Follows :
    (pos : ℕ) (rest : Bytes) (s : State) (t : Turn State)
    → Follows pos s
    → head_turn s rest ≡ ok t
    → FollowsTurn pos t
unfolding head_turn incomplete_line
head_turn-Follows pos rest s t f e = elim (Option-cases (next_line rest)) [
  | inl e' ↦ let same : t ≡ stop s 0 = ground (arith, e, e') in rw same (none_taken pos s f)
  | inr (l, e') ↦ line_turn-Follows s.0.m_head pos l s t f (rw (e', head_turn) at e)
]

pub scan-Follows :
    (f : ℕ) (s : State) (pos : ℕ) (rest : Bytes) (s1 : State) (n1 : ℕ)
    → Follows pos s
    → scan head_turn f s pos rest ≡ ok (s1, n1)
    → Follows n1 s1
unfolding scan
scan-Follows zero s pos rest s1 n1 o e = cc
scan-Follows (suc f) s pos rest s1 n1 o e = elim (Result-cases (head_turn s rest)) [
  | inl (again s' n, e') ↦
      scan-Follows f s' (pos + n) (drop n rest) s1 n1
        (head_turn-Follows pos rest s (again s' n) o e') (rw e' at e)
  | inl (stop s' n, e') ↦
      let e'' : ok (s', pos + n) ≡ ok (s1, n1) = rw e' at e in
      let same : ◌≡◌ {A = State × ℕ} (s', pos + n) (s1, n1) = ground (arith, e'') in
      subst (λ r. Follows r.1 r.0) same (head_turn-Follows pos rest s (stop s' n) o e')
  | inr none ↦ absurd (>>=-not-ok (head_turn s rest) _ none e)
]
