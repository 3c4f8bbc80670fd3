-- ===== src/HttpSession/IoLoop/Alike.antt =====
-- What a session does to a connection whose bytes are still to come, against one where they are
-- all pending.
use dracon.Prelude.{
  ◌≡◌, ◌∙◌, inl, inr, refl, sym, Bool, [], ◌++◌, Bytes, Bool-cases, append-nil, append_assoc,
}
use dracon.Http.Request.{Request}
use dracon.Http.Response.{Response}
use dracon.HttpSession.{Ended, complete, blocked, threw, read_headers, read}
use dracon.HttpSession.Connection.{
  Connection, Ran, done, waits, throws, write_out_bytes, send, after_read, receive,
  continue_response, expects_continue, refuses_length,
}
use dracon.HttpSession.Feeding.{AreCalm}
use dracon.HttpSession.IoLoop.Once.{
  at_once, EndAlike, Readable, read_headers-EndAlike, read-EndAlike,
}

-- The connection with all that is to come pending.
abbrev pub gathered : Bool → Connection → Connection
gathered flag c = record c { session = at_once flag c.session c.events; events = [] }

pub record Extends (xs ys : Bytes) : Type 0 where
  pub more : Bytes
  pub is_appended : ys ≡ xs ++ more

pub same-Extends : {xs ys : Bytes} → ys ≡ xs → Extends xs ys
same-Extends {xs} e = record { more = []; is_appended = e ∙ sym (append-nil xs) }

pub Extends-trans : {xs ys zs : Bytes} → Extends xs ys → Extends ys zs → Extends xs zs
Extends-trans {xs} f g = record {
  more = f.more ++ g.more;
  is_appended = rw f.is_appended at g.is_appended ∙ append_assoc xs f.more g.more;
}

abbrev pub ran_out : {A : Type 0} → Ran A → Bytes
ran_out (done a c) = c.out
ran_out (waits c) = c.out
ran_out (throws failure c) = c.out

-- The second run has done at once what the first one did; where the first one throws, the second
-- has written that much at least.
abbrev pub RanAlike : {A : Type 0} → Ran A → Ran A → Type 0
RanAlike (done a c) r = AreCalm c.events × ((flag : Bool) × (r ≡ done a (gathered flag c)))
RanAlike (waits c) r = (c' : Connection) × (r ≡ waits c') × (c'.out ≡ c.out)
RanAlike (throws failure c) r = Extends c.out (ran_out r)

after_read-out : (c : Connection) (e : Ended) → ran_out (after_read c e) ≡ c.out
after_read-out c (complete se req es) = refl
after_read-out c (blocked se req) = refl
after_read-out c (threw failure se) = refl

pub after_read-Extends : (c : Connection) (e : Ended) → Extends c.out (ran_out (after_read c e))
after_read-Extends c e = same-Extends (after_read-out c e)

after_read-RanAlike :
    (flag : Bool) (c : Connection) (e e' : Ended)
    → EndAlike e e'
    → RanAlike (after_read c e) (after_read (gathered flag c) e')
after_read-RanAlike flag c (complete se req es) e' (calm, (flag', same)) =
    (calm, (flag', rw same refl))
after_read-RanAlike flag c (blocked se req) e' (se', req', same) =
    (record (gathered flag c) { session = se'; events = [] }, rw same refl, refl)
after_read-RanAlike flag c (threw failure se) e' h =
    same-Extends (after_read-out (gathered flag c) e')

pub headers-RanAlike :
    (flag : Bool) (c : Connection)
    → AreCalm c.events
    → RanAlike
        (after_read c (read_headers c.events c.session))
        (after_read (gathered flag c) (read_headers [] (gathered flag c).session))
headers-RanAlike flag c calm =
    after_read-RanAlike flag c _ _ (read_headers-EndAlike flag c.events c.session calm)

-- A response is sent alike.
pub send-gathered :
    (res : Response) (flag : Bool) (c : Connection)
    → (flag' : Bool) × (send res (gathered flag c) ≡ gathered flag' (send res c))
unfolding send write_out_bytes
send-gathered res flag c = (_, refl)

pub send-Extends : (res : Response) (c : Connection) → Extends c.out ((send res c).out)
unfolding send write_out_bytes
send-Extends res c = record { more = _; is_appended = refl }

abbrev CanRead : Request → Connection → Type 0
CanRead req c = Readable (c.session.m_parser, req)

reading-RanAlike :
    (flag : Bool) (req : Request) (c : Connection)
    → AreCalm c.events
    → CanRead req c
    → RanAlike
        (after_read c (read c.events c.session req))
        (after_read (gathered flag c) (read [] (gathered flag c).session req))
reading-RanAlike flag req c calm can =
    after_read-RanAlike flag c _ _ (read-EndAlike flag c.events c.session req calm can)

pub receive-Extends : (req : Request) (c : Connection) → Extends c.out (ran_out (receive req c))
unfolding receive
receive-Extends req c = elim (Bool-cases (expects_continue req)) [
  | inl expected ↦ elim (Bool-cases (refuses_length req)) [
    | inl refused ↦ rw (expected, refused) (same-Extends refl)
    | inr fits ↦
        rw (expected, fits)
          (Extends-trans (send-Extends continue_response c)
            (after_read-Extends (send continue_response c) _))
  ]
  | inr plain ↦ rw plain (after_read-Extends c _)
]

pub receive-RanAlike :
    (flag : Bool) (req : Request) (c : Connection)
    → AreCalm c.events
    → CanRead req c
    → RanAlike (receive req c) (receive req (gathered flag c))
unfolding receive send write_out_bytes
receive-RanAlike flag req c calm can = elim (Bool-cases (expects_continue req)) [
  | inl expected ↦ elim (Bool-cases (refuses_length req)) [
    | inl refused ↦ rw (expected, refused) (same-Extends refl)
    | inr fits ↦ rw (expected, fits) (reading-RanAlike _ req (send continue_response c) calm can)
  ]
  | inr plain ↦ rw plain (reading-RanAlike flag req c calm can)
]
