-- ===== src/HttpParser/Body/Deliver.antt =====
-- `deliver`: pieces handed over one after the other are handed over as one, and the limit holds.
use dracon.Prelude.{
  ℕ, ◌+◌, ◌^◌, ◌%◌, ◌≤◌, ◌<◌, ◌≡◌, ◌≢◌, true, arith, Bytes, ◌++◌, length, length-append,
  append_assoc, ok, out_of_fuel,
}
use dracon.Http.Request.{append_body}
use dracon.HttpParser.State.{State}
use dracon.HttpParser.Body.{deliver}

-- What a delivered piece changes, and what it does not.
pub record Delivered (part : Bytes) (s s' : State) : Type 0 where
  pub is_body : s'.1.body ≡ s.1.body ++ part
  pub is_received : s'.0.m_received ≡ (s.0.m_received + length part) % 2 ^ 64
  pub is_remaining : s'.0.m_remaining ≡ s.0.m_remaining
  pub is_framing : s'.0.m_body ≡ s.0.m_body
  pub is_chunk : s'.0.m_chunk ≡ s.0.m_chunk
  pub is_state : s'.1.m_state ≡ s.1.m_state
  pub is_max : s'.1.m_max_body_size ≡ s.1.m_max_body_size
  pub is_allowed : s.1.m_max_body_size ≢ 0 → s'.0.m_received ≤ s.1.m_max_body_size

pub deliver-Delivered : (part : Bytes) (s s' : State) → deliver part s ≡ ok s' → Delivered part s s'
unfolding deliver append_body
deliver-Delivered part s s' e = ground arith

pub deliver-ne : (part : Bytes) (s : State) → deliver part s ≢ out_of_fuel
unfolding deliver append_body
deliver-ne part s = ground arith

received_twice : (r a b : ℕ) → ((r + a) % 2 ^ 64 + b) % 2 ^ 64 ≡ (r + (a + b)) % 2 ^ 64
received_twice r a b = omega arith

pub deliver-append :
    (a b : Bytes) (s s1 : State) → deliver a s ≡ ok s1 → deliver (a ++ b) s ≡ deliver b s1
unfolding deliver append_body
deliver-append a b s s1 e = ground (
  arith,
  length-append a b,
  append_assoc s.1.body a b,
  received_twice s.0.m_received (length a) (length b),
)

-- A session that takes so many more bytes.
pub record Accepts (s : State) (total : ℕ) : Type 0 where
  pub callback : s.1.has_callback ≡ true
  pub room : s.0.m_received + total < 2 ^ 64
  pub allowed : s.1.m_max_body_size ≢ 0 → s.0.m_received + total ≤ s.1.m_max_body_size

abbrev pub delivered : Bytes → State → State
delivered part (p, req) =
    (record p { m_received = p.m_received + length part }, record req { body = req.body ++ part })

pub deliver_accepted :
    (part : Bytes) (s : State) → Accepts s (length part) → deliver part s ≡ ok (delivered part s)
unfolding deliver append_body
deliver_accepted part s a =
    let sum : (s.0.m_received + length part) % 2 ^ 64 ≡ s.0.m_received + length part =
      omega (arith, a.room) in
    rw (sum, deliver) (ground (arith, a.callback, a.allowed))
