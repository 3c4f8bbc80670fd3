-- ===== src/HttpParser/Chunked.antt =====
-- The theorems on `parse_body` for a chunked body.
use dracon.Prelude.{
  ℕ, suc, ◌≤◌, ◌<◌, ◌≡◌, ◌∙◌, refl, sym, ap, subst, arith, Bytes, true, false, ◌++◌, length, drop,
  List, [], flatten, Result, ok, fail, thrown, out_of_fuel, zero_plus,
}
use dracon.Http.Request.{is_completed, set_state, processing_body}
use dracon.HttpParser.State.{State, chunked, chunk_data, size}
use dracon.HttpParser.Body.{chunked_turn, parse_chunked, parse_body_of, parse_body}
use dracon.HttpParser.Body.Loop.{
  ChunkInv, ChunkPost, finished, chunked_turn-IsScanner, chunked_turn-IsResumable,
}
use dracon.HttpParser.Body.Deliver.{Accepts}
use dracon.HttpParser.Incremental.{Returns}
use dracon.Scanner.Defs.{scan}
use dracon.Scanner.Fuel.{scan-EndsWithin, EndsWithin}
use dracon.Scanner.Append.{scan-append, scan-final, moved}
use dracon.Stream.Chunked.{session}
use dracon.Stream.Encode.{finish, parse_chunked-session}

-- A chunked body is due, or being read.
pub record Chunking (s : State) : Type 0 where
  pub framed : s.0.m_body ≡ chunked
  pub expects : s.0.m_chunk ≡ chunk_data → 0 < s.0.m_remaining
  pub open_yet : is_completed s.1.m_state ≡ false

-- The state as `parse_body` hands it on.
abbrev begun : State → State
begun (p, req) = (p, set_state processing_body req)

begun-ChunkInv : (s : State) → Chunking s → ChunkInv (begun s)
begun-ChunkInv s c = record { expects = c.expects; underway = (c.framed, refl) }

parse_body-chunked :
    (input : Bytes) (s : State) → Chunking s → parse_body input s ≡ parse_chunked input (begun s)
unfolding parse_body parse_body_of
parse_body-chunked input s c =
    rw (c.open_yet, parse_body) (ap (λ b. parse_body_of b input s) c.framed)

-- What the caller finds after a call that was handed `total` bytes.
pub record ChunkParsed (total : ℕ) (s : State) (n : ℕ) : Type 0 where
  pub within : n ≤ total
  pub resumes : is_completed s.1.m_state ≡ false → ChunkInv s

pub ChunkInv-Chunking : (s : State) → ChunkInv s → Chunking s
ChunkInv-Chunking s inv = record {
  framed = inv.underway.0;
  expects = inv.expects;
  open_yet = ground (arith, inv.underway.1);
}

begun_already : (s : State) → s.1.m_state ≡ processing_body → begun s ≡ s
begun_already s e = λ i. (s.0, record s.1 { m_state = sym e i })

ends→Returns :
    (input : Bytes) (m : Result (State × ℕ))
    → EndsWithin chunked_turn ChunkInv ChunkPost chunked_turn-IsScanner 0 (length input) m
    → Returns (λ r. ChunkParsed (length input) r.0 r.1) m
ends→Returns input (ok (s, n)) h = record { within = h.1; resumes = h.2 }
ends→Returns input (fail _ _) h = tt
ends→Returns input (thrown _) h = tt
ends→Returns input out_of_fuel h = h

-- The loop over chunks ends by itself. If nothing is thrown, the call consumed no more than it was
-- handed, and the request is complete, or a further call can go on.
pub parse_body-ChunkParsed :
    (input : Bytes) (s : State)
    → Chunking s
    → Returns (λ r. ChunkParsed (length input) r.0 r.1) (parse_body input s)
unfolding parse_chunked
parse_body-ChunkParsed input s c = rw (parse_body-chunked input s c) (
    ends→Returns input _ (
      subst
        (λ k.
          EndsWithin chunked_turn ChunkInv ChunkPost chunked_turn-IsScanner 0 k
            (scan chunked_turn (suc (length input)) (begun s) 0 input))
        (zero_plus (length input))
        (scan-EndsWithin chunked_turn ChunkInv ChunkPost chunked_turn-IsScanner (suc (length input))
          (begun s) 0 input (begun-ChunkInv s c) (omega arith))))

module _ (input more : Bytes) (s s1 : State) (n1 : ℕ) where
  -- A chunked body that arrives in two pieces, cut anywhere: if the first call does not complete
  -- the request, a call on both pieces does what a second call does on the bytes left over and the
  -- second piece: the same body in all, the same end, the same error; the consumed bytes add up.
  pub parse_body-append :
      Chunking s
      → parse_body input s ≡ ok (s1, n1)
      → is_completed s1.1.m_state ≡ false
      → parse_body (input ++ more) s ≡ moved n1 (parse_body (drop n1 input ++ more) s1)
  unfolding parse_chunked
  parse_body-append c e nf =
      let p : ChunkParsed (length input) s1 n1 = rw e at (parse_body-ChunkParsed input s c) in
      let inv = p.resumes nf in
      rw
        (
          parse_body-chunked (input ++ more) s c,
          parse_body-chunked (drop n1 input ++ more) s1 (ChunkInv-Chunking s1 inv),
          begun_already s1 inv.underway.1,
        )
        (scan-append chunked_turn ChunkInv ChunkPost finished chunked_turn-IsScanner
          chunked_turn-IsResumable (suc (length input)) _ _ (begun s) s1 n1 input more
          (begun-ChunkInv s c) inv (omega arith) (omega arith)
          (rw (parse_body-chunked input s c) at e) nf)

  -- Bytes behind a complete body are left for the next request.
  pub parse_body-final :
      Chunking s
      → parse_body input s ≡ ok (s1, n1)
      → is_completed s1.1.m_state ≡ true
      → parse_body (input ++ more) s ≡ ok (s1, n1)
  unfolding parse_chunked
  parse_body-final c e fin = rw (parse_body-chunked (input ++ more) s c) (
      scan-final chunked_turn ChunkInv ChunkPost finished chunked_turn-IsScanner
        chunked_turn-IsResumable (suc (length input)) _ (begun s) s1 n1 input more
        (begun-ChunkInv s c) (omega arith) (rw (parse_body-chunked input s c) at e) fin)

-- Whatever a session writes through a chunked_stream, in whatever pieces, `parse_body` at the
-- start of a chunked body reads back: it hands over exactly the bytes that were written, consumes
-- exactly the bytes of the stream whatever stands behind them, and completes the request. It needs
-- a callback, room in size_t, and a limit on the body that allows so many bytes.
pub parse_body-session :
    (s : State) (parts : List Bytes) (rest : Bytes)
    → Chunking s
    → s.0.m_chunk ≡ size
    → Accepts s (length (flatten parts))
    → parse_body (session [] parts ++ rest) s
      ≡ ok (finish (flatten parts) s, length (session [] parts))
parse_body-session s parts rest c at a =
    parse_body-chunked (session [] parts ++ rest) s c
    ∙ parse_chunked-session (begun s) parts rest at (c.framed, refl)
        (record { callback = a.callback; room = a.room; allowed = a.allowed })
