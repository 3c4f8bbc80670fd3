-- ===== src/HttpParser/Head/Loop.antt =====
-- The loop of `parse_head`: it ends, within its limits, and it can be stopped and resumed anywhere.
use dracon.Prelude.{
  ℕ, ◌-◌, ◌≡◌, ◌≢◌, refl, arith, Bytes, Bool, length, ok, out_of_fuel, Option-cases, inl, inr, true,
  ◌<◌,
}
use dracon.HttpParser.Detail.{Line, next_line, canonical_name}
use dracon.HttpParser.State.{HttpRequestParser, State, Head, request_line, headers, done}
use dracon.HttpParser.Lines.{next_line_bounds, next_line-append}
use dracon.HttpParser.Head.{
  content_length_of, content_length_field, transfer_encoding_field, known_field, header_field_parts,
  parse_header_field, request_line_parts, parse_request_line, finalize_head, request_line_turn,
  header_turn, incomplete_line, line_turn, head_turn, is_done,
}
use dracon.HttpParser.Head.Bounds.{
  HeadInv, HeadPost, request_line_turn-again, header_turn-again, header_turn-stop,
}
use dracon.Scanner.Defs.{again, stop}
use dracon.Scanner.Fuel.{IsScanner}
use dracon.Scanner.Append.{IsResumable}

known_field-ne : (key value : Bytes) (p : HttpRequestParser) → known_field key value p ≢ out_of_fuel
unfolding known_field content_length_field content_length_of transfer_encoding_field
known_field-ne key value p = ground arith

header_field_parts-ne :
    (name value : Bytes) (s : State) → header_field_parts name value s ≢ out_of_fuel
unfolding header_field_parts
header_field_parts-ne name value s = ground (arith, known_field-ne (canonical_name name) value s.0)

parse_header_field-ne : (text : Bytes) (s : State) → parse_header_field text s ≢ out_of_fuel
unfolding parse_header_field
parse_header_field-ne text s = grind (arith, header_field_parts-ne)

parse_request_line-ne : (text : Bytes) (s : State) → parse_request_line text s ≢ out_of_fuel
unfolding parse_request_line request_line_parts
parse_request_line-ne text s = ground arith

finalize_head-ne : (s : State) → finalize_head s ≢ out_of_fuel
unfolding finalize_head
finalize_head-ne s = ground arith

line_turn-ne : (h : Head) (s : State) (l : Line) → line_turn h s l ≢ out_of_fuel
unfolding line_turn request_line_turn header_turn
line_turn-ne request_line s l = ground (arith, parse_request_line-ne l.text s)
line_turn-ne headers s l = ground (arith, parse_header_field-ne l.text s, finalize_head-ne s)
line_turn-ne done s l = ground arith

line_turn-again :
    (h : Head) (s : State) (l : Line) (s' : State) (n : ℕ)
    → s.0.m_head ≡ h
    → HeadInv s
    → line_turn h s l ≡ ok (again s' n)
    → (n ≡ l.next) × HeadInv s'
unfolding line_turn
line_turn-again request_line s l s' n at inv e = request_line_turn-again l s s' n inv at e
line_turn-again headers s l s' n at inv e = header_turn-again l s s' n inv at e
line_turn-again done s l s' n at inv e = cc

line_turn-stop :
    (h : Head) (s : State) (l : Line) (s' : State) (n unread : ℕ)
    → s.0.m_head ≡ h
    → HeadInv s
    → line_turn h s l ≡ ok (stop s' n)
    → (n ≡ l.next) × HeadPost s' unread × (s'.0.m_head ≡ done)
unfolding line_turn request_line_turn
line_turn-stop request_line s l s' n unread at inv e = absurd (ground arith)
line_turn-stop headers s l s' n unread at inv e =
    let r = header_turn-stop l s s' n unread inv at e in (r.0, r.1, r.2)
line_turn-stop done s l s' n unread at inv e = absurd (ground arith)

pub head_turn-IsScanner : IsScanner head_turn HeadInv HeadPost
unfolding head_turn incomplete_line
head_turn-IsScanner = record {
  progress = λ s rest s' n inv e. elim (Option-cases (next_line rest)) [
    | inl e' ↦ ground arith
    | inr (l, e') ↦
        ground (arith, next_line_bounds rest l e', line_turn-again s.0.m_head s l s' n refl inv)
  ];
  ends = λ s rest s' n inv e. elim (Option-cases (next_line rest)) [
    | inl e' ↦ ground arith
    | inr (l, e') ↦ ground (
      arith,
      next_line_bounds rest l e',
      line_turn-stop s.0.m_head s l s' n (length rest - n) refl inv,
    )
  ];
  defined = λ s rest. elim (Option-cases (next_line rest)) [
    | inl e' ↦ ground arith
    | inr (l, e') ↦ ground (arith, line_turn-ne s.0.m_head s l)
  ];
}

abbrev pub finished : State → Bool
finished s = is_done s.0.m_head

pub head_turn-IsResumable : IsResumable head_turn HeadInv finished
unfolding head_turn incomplete_line
head_turn-IsResumable = record {
  more_again = λ s r1 r2 s' n inv e. elim (Option-cases (next_line r1)) [
    | inl e' ↦ ground arith
    | inr (l, e') ↦ inl (ground (arith, next_line-append r1 r2 l e'))
  ];
  more_stop = λ s r1 s' n inv e nf. elim (Option-cases (next_line r1)) [
    | inl e' ↦ ground arith
    | inr (l, e') ↦ ground (arith, line_turn-stop s.0.m_head s l s' n 0 refl inv)
  ];
  final = λ s r1 r2 s' n inv e fin. elim (Option-cases (next_line r1)) [
    | inl e' ↦ ground arith
    | inr (l, e') ↦
        ground (arith, next_line-append r1 r2 l e', line_turn-stop s.0.m_head s l s' n 0 refl inv)
  ];
}

-- A round that completes the head takes a byte at least.
pub head_turn-stop :
    (s : State) (rest : Bytes) (s' : State) (n : ℕ)
    → HeadInv s
    → head_turn s rest ≡ ok (stop s' n)
    → finished s' ≡ true
    → 0 < n
unfolding head_turn incomplete_line
head_turn-stop s rest s' n inv e fin = elim (Option-cases (next_line rest)) [
  | inl e' ↦ absurd (ground (arith, inv.going))
  | inr (l, e') ↦
      ground (arith, next_line_bounds rest l e', line_turn-stop s.0.m_head s l s' n 0 refl inv)
]
