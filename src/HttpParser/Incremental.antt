-- ===== src/HttpParser/Incremental.antt =====
-- The theorems on `parse_head` as a whole.
use dracon.Prelude.{
  ℕ, suc, ◌+◌, ◌-◌, ◌≤◌, ◌<◌, ◌≡◌, ◌≢◌, ◌∙◌, refl, subst, arith, Bytes, true, false, ◌++◌, length,
  drop, Result, ok, fail, thrown, out_of_fuel, Bool-cases, inl, inr, zero_plus,
}
use dracon.Http.Request.{is_uninitialized, head_parsed, chunked_data}
use dracon.HttpParser.State.{
  State, Head, begin_request, request_line, headers, done, max_head_size, max_headers_count,
}
use dracon.HttpParser.Head.{head_turn, is_done, restart, head_from, parse_head}
use dracon.HttpParser.Head.Bounds.{HeadInv, HeadPost}
use dracon.HttpParser.Head.Loop.{head_turn-IsScanner, head_turn-IsResumable, finished}
use dracon.Scanner.Defs.{scan}
use dracon.Scanner.Fuel.{scan-EndsWithin, EndsWithin}
use dracon.Scanner.Append.{scan-append, scan-final, moved}

-- What holds between two calls: nothing was parsed yet, or the limits hold, and the request says
-- that its head is parsed exactly when the parser is done with it.
pub record Ready (s : State) : Type 0 where
  pub few : s.0.m_headers ≤ max_headers_count
  pub short : s.0.m_head_seen ≤ max_head_size
  pub small : s.0.m_content_length < chunked_data
  pub agrees : is_uninitialized s.1.m_state ≡ false → head_parsed s.1.m_state ≡ is_done s.0.m_head

-- What the caller finds after a call that was handed `size` bytes and consumed `n` of them.
pub record Parsed (size : ℕ) (s : State) (n : ℕ) : Type 0 where
  pub within : n ≤ size
  pub ready : Ready s
  pub begun : is_uninitialized s.1.m_state ≡ false
  pub buffered : is_done s.0.m_head ≡ false → s.0.m_head_seen + (size - n) ≤ max_head_size

abbrev pub Returns {ℓ} : {A : Type ℓ} → (A → Type 0) → Result A → Type 0
Returns P (ok a) = P a
Returns P (fail _ _) = Unit
Returns P (thrown _) = Unit
Returns P out_of_fuel = ⊥

pub restart-HeadInv :
    (s : State) → Ready s → is_done (restart s).0.m_head ≡ false → HeadInv (restart s)
unfolding restart begin_request
restart-HeadInv s r g = elim (Bool-cases (is_uninitialized s.1.m_state)) [
  | inl fresh ↦ ground arith
  | inr old ↦ ground arith
]

is_done→eq : (h : Head) → is_done h ≡ false → h ≢ done
is_done→eq request_line e = λ x. cc
is_done→eq headers e = λ x. cc
is_done→eq done e = λ x. cc

pub done→is_done : (h : Head) → is_done h ≡ true → h ≡ done
done→is_done done e = refl
done→is_done request_line e = cc
done→is_done headers e = cc

HeadPost-Parsed : (size n : ℕ) (s : State) → n ≤ size → HeadPost s (size - n) → Parsed size s n
HeadPost-Parsed size n s le p = record {
  within = le;
  ready = record { few = p.few; short = p.seen_bound; small = p.small; agrees = λ _. p.agrees };
  begun = p.begun;
  buffered = λ e. p.unread_bound (is_done→eq s.0.m_head e);
}

Parsed-done :
    (size : ℕ) (s : State)
    → Ready s
    → is_done (restart s).0.m_head ≡ true
    → Parsed size (restart s) 0
unfolding restart begin_request
Parsed-done size s r over = elim (Bool-cases (is_uninitialized s.1.m_state)) [
  | inl fresh ↦ ground arith
  | inr old ↦ ground arith
]

Parsed-HeadInv : (size n : ℕ) (s : State) → Parsed size s n → is_done s.0.m_head ≡ false → HeadInv s
Parsed-HeadInv size n s p g = record {
  few = p.ready.few;
  short = λ _. p.ready.short;
  small = p.ready.small;
  begun = p.begun;
  unparsed = p.ready.agrees p.begun ∙ g;
  going = g;
}

Returns-of-EndsWithin :
    (input : Bytes) (m : Result (State × ℕ))
    → EndsWithin head_turn HeadInv HeadPost head_turn-IsScanner 0 (length input) m
    → Returns (λ r. Parsed (length input) r.0 r.1) m
Returns-of-EndsWithin input (ok (s, n)) h = HeadPost-Parsed (length input) n s h.1 h.2
Returns-of-EndsWithin input (fail _ _) h = tt
Returns-of-EndsWithin input (thrown _) h = tt
Returns-of-EndsWithin input out_of_fuel h = h

-- `parse_head` ends by itself. If it throws nothing it consumed no more than it was handed, and
-- the fields and the bytes of the head that it has read, with those that it left for the next
-- call while the head is not complete, are within the limits.
pub parse_head-Parsed :
    (input : Bytes) (s : State)
    → Ready s
    → Returns (λ r. Parsed (length input) r.0 r.1) (parse_head input s)
unfolding parse_head head_from
parse_head-Parsed input s r = elim (Bool-cases (is_done (restart s).0.m_head)) [
  | inl over ↦ rw (over, head_from) (Parsed-done (length input) s r over)
  | inr going ↦
      rw (going, head_from)
        (Returns-of-EndsWithin input _ (
          subst
            (λ k.
              EndsWithin head_turn HeadInv HeadPost head_turn-IsScanner 0 k
                (scan head_turn (suc (length input)) (restart s) 0 input))
            (zero_plus (length input))
            (scan-EndsWithin head_turn HeadInv HeadPost head_turn-IsScanner (suc (length input))
              (restart s) 0 input (restart-HeadInv s r going) (omega arith))))
]

pub head_from_going :
    (input : Bytes) (s : State)
    → is_done s.0.m_head ≡ false
    → head_from input s ≡ scan head_turn (suc (length input)) s 0 input
unfolding head_from
head_from_going input s e = rw e

restart_begun : (s : State) → is_uninitialized s.1.m_state ≡ false → restart s ≡ s
unfolding restart
restart_begun s e = rw e

-- An unfinished call did not find the head complete.
going_before :
    (input : Bytes) (s s1 : State) (n1 : ℕ)
    → head_from input s ≡ ok (s1, n1)
    → is_done s1.0.m_head ≡ false
    → is_done s.0.m_head ≡ false
unfolding head_from
going_before input s s1 n1 e nf = ground arith

module _ (input more : Bytes) (s s1 : State) (n1 : ℕ) where
  -- A head that arrives in two pieces: if the first call does not complete the head, a call on
  -- both pieces does what a second call does on the bytes left over and the second piece; the
  -- consumed bytes add up.
  pub parse_head-append :
      Ready s
      → parse_head input s ≡ ok (s1, n1)
      → is_done s1.0.m_head ≡ false
      → parse_head (input ++ more) s ≡ moved n1 (parse_head (drop n1 input ++ more) s1)
  unfolding parse_head
  parse_head-append r e nf =
      let p : Parsed (length input) s1 n1 =
        unfold parse_head in rw e at (parse_head-Parsed input s r) in
      let going = going_before input (restart s) s1 n1 e nf in
      rw
        (
          restart_begun s1 p.begun,
          head_from_going (input ++ more) (restart s) going,
          head_from_going (drop n1 input ++ more) s1 nf,
        )
        (scan-append head_turn HeadInv HeadPost finished head_turn-IsScanner head_turn-IsResumable
          (suc (length input)) _ _ (restart s) s1 n1 input more (restart-HeadInv s r going)
          (Parsed-HeadInv _ _ s1 p nf) (omega arith) (omega arith)
          (rw (head_from_going input (restart s) going) at e) nf)

  -- Bytes behind a complete head change nothing: they are left for the body and the next request.
  pub parse_head-final :
      Ready s
      → parse_head input s ≡ ok (s1, n1)
      → is_done s1.0.m_head ≡ true
      → parse_head (input ++ more) s ≡ ok (s1, n1)
  unfolding parse_head head_from
  parse_head-final r e fin = elim (Bool-cases (is_done (restart s).0.m_head)) [
    | inl over ↦ rw (over, head_from) (rw (over, head_from) at e)
    | inr going ↦ rw (head_from_going (input ++ more) (restart s) going) (
        scan-final head_turn HeadInv HeadPost finished head_turn-IsScanner head_turn-IsResumable
          (suc (length input)) _ (restart s) s1 n1 input more (restart-HeadInv s r going)
          (omega arith) (rw (head_from_going input (restart s) going) at e) fin)
  ]
