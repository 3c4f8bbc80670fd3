-- ===== src/HttpParser/Framing.antt =====
-- From the head to the body: how a complete head frames the body, and that reading it may begin.
use dracon.Prelude.{ℕ, suc, ◌+◌, ◌-◌, ◌^◌, ◌<◌, ◌≡◌, ◌≢◌, arith, Bytes, true, false, length, ok}
use dracon.Http.Request.{append_body_callback}
use dracon.HttpParser.State.{State}
use dracon.HttpParser.Head.{head_turn, is_done, restart, parse_head}
use dracon.HttpParser.Head.Bounds.{HeadInv, HeadPost, Framed}
use dracon.HttpParser.Head.Loop.{head_turn-IsScanner}
use dracon.HttpParser.Incremental.{Ready, restart-HeadInv, done→is_done, head_from_going}
use dracon.HttpParser.Chunked.{Chunking}
use dracon.HttpParser.Sized.{Sizing}
use dracon.Scanner.Fuel.{scan-EndsWithin, EndsWithin}

-- The request is read up to the end of its head by this call.
module _ (input : Bytes) (s s1 : State) (n1 : ℕ) (r : Ready s)
    (e : parse_head input s ≡ ok (s1, n1)) (going : is_done (restart s).0.m_head ≡ false)
    (over : is_done s1.0.m_head ≡ true) where
  post : HeadPost s1 (0 + length input - n1)
  unfolding parse_head
  post =
      let ended : EndsWithin head_turn HeadInv HeadPost head_turn-IsScanner 0 (0 + length input)
          (ok (s1, n1)) =
        rw (rw (head_from_going input (restart s) going) at e) at (
          scan-EndsWithin head_turn HeadInv HeadPost head_turn-IsScanner (suc (length input))
            (restart s) 0 input (restart-HeadInv s r going) (omega arith)) in
      ended.2

  -- The call that completes the head leaves the body framed in one way only: by chunks, by a
  -- length, or as absent, with the request complete; never by a length and by chunks.
  pub parse_head-Framed : Framed s1
  parse_head-Framed = post.framed (done→is_done s1.0.m_head over)

  -- A chunked body can be read right behind the head, with any callback.
  pub parse_head-Chunking :
      (max_size : ℕ) → s1.0.m_chunked ≡ true → Chunking (s1.0, append_body_callback max_size s1.1)
  unfolding append_body_callback
  parse_head-Chunking max_size c =
      let (b, k, st) = parse_head-Framed.chunked_body c in
      record { framed = b; expects = λ x. cc; open_yet = ground (arith, st) }

  -- And so can a body of a length.
  pub parse_head-Sizing :
      (max_size : ℕ)
      → max_size < 2 ^ 64
      → s1.0.m_chunked ≡ false
      → s1.0.m_content_length ≢ 0
      → Sizing (s1.0, append_body_callback max_size s1.1)
  unfolding append_body_callback
  parse_head-Sizing max_size fits c nz =
      let (b, rem, st) = parse_head-Framed.sized_body c nz in
      let none_yet = parse_head-Framed.unread in
      record {
        framed = b;
        adds_up = omega (arith, rem, none_yet);
        fits = omega (arith, post.small);
        limit_fits = fits;
        kept = λ _. omega (arith, none_yet);
        expects = omega (arith, rem, nz);
        open_yet = ground (arith, st);
      }
