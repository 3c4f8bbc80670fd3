-- ===== src/HttpSession/Body.antt =====
-- `read`, where the bytes of a body arrive in pieces.
use dracon.Prelude.{
  ℕ, ◌≡◌, ◌≢◌, ◌⊎◌, inl, inr, refl, arith, Bytes, ◌++◌, List, Result, ok, fail, thrown, out_of_fuel,
  false, true,
}
use dracon.Http.Request.{Request, is_completed, append_body}
use dracon.HttpParser.State.{State}
use dracon.HttpParser.Body.{deliver, parse_sized, parse_body}
use dracon.HttpParser.Incremental.{Returns}
use dracon.HttpParser.Chunked.{
  Chunking, ChunkInv-Chunking, parse_body-ChunkParsed, parse_body-append, parse_body-final,
}
use dracon.HttpParser.Sized.{Sizing, begun, parse_body-sized}
use dracon.HttpParser.Sized.Append.{parse_body-Piece}
use dracon.HttpSession.{
  Event, HttpSession, Ended, complete, blocked, threw, keep_alive_guard, response_error, exception,
  error_code, unfinished, read, thrown_response, status_error, unknown_error,
}
use dracon.HttpSession.Feeding.{IsIncremental, arrived, AreCalm, AsOneCall}
use dracon.HttpSession.Feeding.Rounds.{read_loop-AsOneCall}
use dracon.HttpSession.Reading.{Returns-map}

-- A body is due: in chunks, or of a known length.
abbrev pub BodyDue : State → Type 0
BodyDue s = Chunking s ⊎ Sizing s

Returns-by :
    {P : State × ℕ → Type 0} (m : Result (State × ℕ))
    → m ≢ out_of_fuel
    → ((r : State × ℕ) → m ≡ ok r → P r)
    → Returns P m
Returns-by (ok r) ne f = f r refl
Returns-by (fail _ _) ne f = tt
Returns-by (thrown _) ne f = tt
Returns-by out_of_fuel ne f = ne refl

parse_sized-ne : (input : Bytes) (s : State) → parse_sized input s ≢ out_of_fuel
unfolding parse_sized deliver append_body
parse_sized-ne input s = ground arith

pub parse_body-IsIncremental : IsIncremental parse_body is_completed BodyDue
parse_body-IsIncremental = record {
  returns = λ input s due. elim due [
    | inl c ↦
        Returns-map (parse_body input s)
          (λ r p. (p.within, λ open_yet. inl (ChunkInv-Chunking r.0 (p.resumes open_yet))))
          (parse_body-ChunkParsed input s c)
    | inr z ↦
        Returns-by (parse_body input s)
          (rw (parse_body-sized input s z) (parse_sized-ne input (begun s)))
          (λ r e.
            let p = parse_body-Piece input s r.0 r.1 z e in
            (p.within, λ open_yet. inr (p.resumes open_yet)))
  ];
  goes_on = λ input more s s1 n due e nf. elim due [
    | inl c ↦ parse_body-append input more s s1 n c e nf
    | inr z ↦ (parse_body-Piece input s s1 n z e).cut more nf
  ];
  ended = λ input more s s1 n due e fin. elim due [
    | inl c ↦ parse_body-final input more s s1 n c e fin
    | inr z ↦ (parse_body-Piece input s s1 n z e).final more fin
  ];
}

guard-AsOneCall :
    (all : Bytes) (s : State) (e : Ended)
    → AsOneCall parse_body is_completed all s e
    → AsOneCall parse_body is_completed all s (keep_alive_guard e)
unfolding keep_alive_guard
guard-AsOneCall all s (complete se req rest) h = h
guard-AsOneCall all s (blocked se req) h = h
guard-AsOneCall all s (threw (response_error status reason) se) h = h
guard-AsOneCall all s (threw (exception what) se) h = h
guard-AsOneCall all s (threw (thrown_response res) se) h = h
guard-AsOneCall all s (threw (status_error status) se) h = h
guard-AsOneCall all s (threw unknown_error se) h = h
guard-AsOneCall all s (threw (error_code ec) se) h = h
guard-AsOneCall all s (threw unfinished se) h = h

pub open_due : (s : State) → BodyDue s → is_completed s.1.m_state ≡ false
open_due s (inl c) = c.open_yet
open_due s (inr z) = z.open_yet

-- read, where a body in chunks or of a known length is due and no call of the system fails:
-- however the bytes of the body are cut into pieces and whatever waits are in between, it does what
-- one call of parse_body does on what was pending and all that arrives: the same request, and the
-- bytes behind the body pending for the next one; where it throws, a call on what arrived so far
-- throws the same.
pub read-AsOneCall :
    (es : List Event) (se : HttpSession) (req : Request)
    → BodyDue (se.m_parser, req)
    → AreCalm es
    → AsOneCall parse_body is_completed
        (se.m_pending ++ arrived es)
        (se.m_parser, req)
        (read es se req)
unfolding read
read-AsOneCall es se req due calm = rw (open_due (se.m_parser, req) due) (
    guard-AsOneCall (se.m_pending ++ arrived es) (se.m_parser, req) _
      (read_loop-AsOneCall parse_body is_completed BodyDue parse_body-IsIncremental es
        (record se { m_can_write_error = true }) req due calm))
