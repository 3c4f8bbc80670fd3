-- ===== src/HttpParser/Sized.antt =====
-- The theorems on `parse_body` for a body of a known length.
pub mod Append
use dracon.Prelude.{
  ℕ, ◌+◌, ◌-◌, ◌^◌, ◌≤◌, ◌<◌, ◌≡◌, ◌≢◌, ◌∙◌, sym, take_all, ap, arith, min, Bytes, true, false, [],
  ◌∷◌, ◌++◌, length, take, ltb, leb, ◌==◌, if◌then◌else◌, append-nil, length-take, ok, fail,
  Bool-cases, inl, inr,
}
use dracon.Http.Request.{is_completed, set_state, processing_body, completed}
use dracon.HttpParser.State.{State, content_length}
use dracon.HttpParser.Body.{deliver, too_large, parse_sized, parse_body_of, parse_body}
use dracon.HttpParser.Body.Deliver.{Accepts, delivered, deliver_accepted}

-- A body of a known length is being read: what was received and what is still expected make up
-- the announced length, and nothing over the limit was received.
pub record Sizing (s : State) : Type 0 where
  pub framed : s.0.m_body ≡ content_length
  pub adds_up : s.0.m_received + s.0.m_remaining ≡ s.0.m_content_length
  pub fits : s.0.m_content_length < 2 ^ 64
  pub limit_fits : s.1.m_max_body_size < 2 ^ 64
  pub kept : s.1.m_max_body_size ≢ 0 → s.0.m_received ≤ s.1.m_max_body_size
  pub expects : 0 < s.0.m_remaining
  pub open_yet : is_completed s.1.m_state ≡ false

-- The state after `n` bytes of such a body.
abbrev pub taken : Bytes → State → State
taken part (p, req) =
    let left = p.m_remaining - length part in
    (
      record p { m_received = p.m_received + length part; m_remaining = left },
      record req {
        body = req.body ++ part;
        m_state = if left == 0 then completed else processing_body;
      },
    )

unfoldable pub begun : State → State
begun (p, req) = (p, set_state processing_body req)

pub parse_body-sized :
    (input : Bytes) (s : State) → Sizing s → parse_body input s ≡ parse_sized input (begun s)
unfolding parse_body parse_body_of begun
parse_body-sized input s z =
    rw (z.open_yet, parse_body) (ap (λ b. parse_body_of b input s) z.framed)

pub too_large_lem :
    (s : State)
    → Sizing s
    → too_large (begun s)
      ≡ (if s.1.m_max_body_size == 0 then false else ltb s.1.m_max_body_size s.0.m_content_length)
unfolding too_large begun
too_large_lem s z = elim (Bool-cases (s.1.m_max_body_size == 0)) [
  | inl zero ↦ rw zero
  | inr some ↦ let le = z.kept (ground arith) in ground (arith, le, z.adds_up, z.fits, z.limit_fits)
]

deliver_or_skip :
    (part : Bytes) (s : State)
    → Accepts s (length part)
    → (if length part == 0 then ok s else deliver part s) ≡ ok (delivered part s)
deliver_or_skip [] s a =
    let none_more : s.0.m_received + 0 ≡ s.0.m_received = omega arith in rw (none_more, append-nil)
deliver_or_skip (x ∷ part) s a =
    let some_part : (length (x ∷ part) == 0) ≡ false = ground arith in
    rw some_part (deliver_accepted (x ∷ part) s a)

pub take-min : (n : ℕ) (xs : Bytes) → take (min n (length xs)) xs ≡ take n xs
take-min n xs = elim (Bool-cases (leb n (length xs))) [
  | inl le ↦ let e : min n (length xs) ≡ n = ground arith in rw e
  | inr gt ↦
      let e : min n (length xs) ≡ length xs = ground arith in
      rw e (take_all (length xs) xs (omega arith) ∙ sym (take_all n xs (ground arith)))
]

-- The end of `parse_sized`, on what `deliver` returned.
settled :
    (part : Bytes) (s : State) (left : ℕ)
    → left ≡ s.0.m_remaining - length part
    → (
      record (delivered part (begun s)).0 { m_remaining = left },
      if left == 0
          then set_state completed (delivered part (begun s)).1
          else (delivered part (begun s)).1,
    )
      ≡ taken part s
unfolding begun
settled part s left e = elim (Bool-cases (left == 0)) [
  | inl zero ↦ rw (← e, zero)
  | inr more ↦ rw (← e, more)
]

-- A piece of the body: as much of it as is expected is handed over and consumed, and the request
-- is complete exactly when nothing more is expected.
pub parse_body-taken :
    (input : Bytes) (s : State)
    → Sizing s
    → s.1.has_callback ≡ true
    → (s.1.m_max_body_size ≢ 0 → s.0.m_content_length ≤ s.1.m_max_body_size)
    → parse_body input s
      ≡ ok (taken (take s.0.m_remaining input) s, min s.0.m_remaining (length input))
unfolding parse_sized begun
parse_body-taken input s z callback allowed =
    let fine : too_large (begun s) ≡ false = too_large_lem s z ∙ ground arith in
    let part = take s.0.m_remaining input in
    let len : length part ≡ min s.0.m_remaining (length input) =
      length-take s.0.m_remaining input in
    let accepts : Accepts (begun s) (length part) = record {
      callback = callback;
      room = omega (arith, len, z.adds_up, z.fits);
      allowed = λ nz. omega (arith, len, z.adds_up, allowed nz);
    } in
    let whole : (if min s.0.m_remaining (length input) == 0
          then ok (begun s)
          else deliver (take (min s.0.m_remaining (length input)) input) (begun s))
        ≡ ok (delivered part (begun s)) =
      rw (take-min s.0.m_remaining input, ← len) (deliver_or_skip part (begun s) accepts) in
    parse_body-sized input s z
    ∙ rw (fine, whole)
        (ap (λ t. ok (t, min s.0.m_remaining (length input)))
          (settled part s (s.0.m_remaining - min s.0.m_remaining (length input))
            (omega (arith, len))))

-- A body whose announced length is over the limit is refused before any of it is handed over.
pub parse_body-too_large :
    (input : Bytes) (s : State)
    → Sizing s
    → s.1.m_max_body_size ≢ 0
    → s.1.m_max_body_size < s.0.m_content_length
    → parse_body input s ≡ fail 413 "Request entity too large"
unfolding parse_sized
parse_body-too_large input s z limited over =
    let too : too_large (begun s) ≡ true = too_large_lem s z ∙ ground arith in
    parse_body-sized input s z ∙ rw too
