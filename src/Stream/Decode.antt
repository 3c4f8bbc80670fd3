-- ===== src/Stream/Decode.antt =====
-- The whole of a chunked_stream's output, read by parse_chunked.
use dracon.Prelude.{
  ℕ, ◌+◌, ◌-◌, ◌^◌, ◌<◌, ◌≡◌, ◌∙◌, refl, ap, arith, Bytes, [], ◌∷◌, ◌++◌, length, length-append,
  append_assoc, false, ok, ◌==◌, drop-length, take-length, min,
}
use dracon.HttpParser.State.{State, Chunk, size, chunk_data, data_end}
use dracon.HttpParser.Body.{data_turn, data_end_turn, chunk_case, chunked_turn}
use dracon.HttpParser.Body.Loop.{Underway, ChunkInv, ChunkPost, chunked_turn-IsScanner}
use dracon.HttpParser.Body.Deliver.{Accepts, delivered, deliver_accepted}
use dracon.Scanner.Defs.{scan, again}
use dracon.Scanner.Fuel.{scan_again}
use dracon.Stream.Chunked.{to_chars_hex, chunk_header, crlf_string}
use dracon.Stream.RoundTrip.{size_turn-header}

chunked_turn-on :
    (c : Chunk) (s : State) (xs : Bytes)
    → s.0.m_chunk ≡ c
    → 0 < length xs
    → chunked_turn s xs ≡ chunk_case c s xs
unfolding chunked_turn
chunked_turn-on c s [] at h = absurd (omega arith)
chunked_turn-on c s (x ∷ xs) at h = ap (λ c. chunk_case c s (x ∷ xs)) at

-- A round from a state that is in the given part of the chunk.
pub round :
    (g : ℕ) (c : Chunk) (s : State) (pos : ℕ) (a b : Bytes) (s' : State)
    → s.0.m_chunk ≡ c
    → ChunkInv s
    → length (a ++ b) < g
    → 0 < length a
    → chunk_case c s (a ++ b) ≡ ok (again s' (length a))
    → scan chunked_turn g s pos (a ++ b) ≡ scan chunked_turn g s' (pos + length a) b
round g c s pos a b s' at inv h ne e =
    let whole : 0 < length (a ++ b) = omega (arith, length-append a b) in
    scan_again chunked_turn ChunkInv ChunkPost chunked_turn-IsScanner g s pos (a ++ b) s' (length a)
      inv h (chunked_turn-on c s (a ++ b) at whole ∙ e)
    ∙ ap (λ r. scan chunked_turn g s' (pos + length a) r) (drop-length a b)

data_turn_exact :
    (s : State) (part rest : Bytes)
    → s.0.m_remaining ≡ length part
    → Accepts s (length part)
    → data_turn s (part ++ rest)
      ≡ ok (
          again
            (
              record (delivered part s).0 { m_remaining = 0; m_chunk = data_end },
              (delivered part s).1,
            )
            (length part))
unfolding data_turn
data_turn_exact s part rest n a =
    let all_of : min s.0.m_remaining (length (part ++ rest)) ≡ length part =
      omega (arith, n, length-append part rest) in
    let left : s.0.m_remaining - length part ≡ 0 = omega (arith, n) in
    rw (all_of, take-length part rest, deliver_accepted part s a, left)

-- The state after a chunk.
abbrev pub fed : Bytes → State → State
fed part (p, req) = (
  record p { m_remaining = 0; m_chunk = size; m_received = p.m_received + length part },
  record req { body = req.body ++ part },
)

abbrev pub chunk : Bytes → Bytes
chunk part = chunk_header (length part) ++ (part ++ crlf_string)

pub header_pos : (n : ℕ) → 0 < length (chunk_header n)
unfolding chunk_header
header_pos n = omega (arith, length-append (to_chars_hex 16 n) crlf_string)

-- The bytes of a chunk and of what stands behind it, grouped by rounds.
chunk_grouped :
    (part rest : Bytes)
    → chunk part ++ rest ≡ chunk_header (length part) ++ (part ++ (crlf_string ++ rest))
chunk_grouped part rest = simp append_assoc

length-chunk :
    (part : Bytes) → length (chunk part) ≡ length (chunk_header (length part)) + length part + 2
length-chunk part = omega (
  arith,
  length-append (chunk_header (length part)) (part ++ crlf_string),
  length-append part crlf_string,
)

module _ (g : ℕ) (s : State) (pos : ℕ) (part rest : Bytes) (at : s.0.m_chunk ≡ size)
    (going : Underway s) (ne : 0 < length part) (a : Accepts s (length part)) where
  abbrev in_chunk : State
  in_chunk = (record s.0 { m_remaining = length part; m_chunk = chunk_data }, s.1)

  abbrev behind_chunk : State
  behind_chunk =
      (record (delivered part s).0 { m_remaining = 0; m_chunk = data_end }, (delivered part s).1)

  read_header :
      (more : Bytes)
      → length (chunk_header (length part) ++ more) < g
      → scan chunked_turn g s pos (chunk_header (length part) ++ more)
        ≡ scan chunked_turn g in_chunk (pos + length (chunk_header (length part))) more
  unfolding chunk_case
  read_header more h =
      let nonzero : (length part == 0) ≡ false = ground arith in
      let room : length part < 2 ^ 64 = omega (arith, a.room) in
      round g size s pos (chunk_header (length part)) more in_chunk at
        (record { expects = λ e. cc; underway = going }) h (header_pos (length part))
        (rw nonzero at (size_turn-header (length part) s.0 s.1 more room))

  read_data :
      (k : ℕ) (more : Bytes)
      → length (part ++ more) < g
      → scan chunked_turn g in_chunk k (part ++ more)
        ≡ scan chunked_turn g behind_chunk (k + length part) more
  unfolding chunk_case
  read_data k more h =
      round g chunk_data in_chunk k part more behind_chunk refl
        (record { expects = λ _. ne; underway = going }) h ne
        (data_turn_exact in_chunk part more refl
          (record { callback = a.callback; room = a.room; allowed = a.allowed }))

  read_crlf :
      (k : ℕ)
      → length (crlf_string ++ rest) < g
      → scan chunked_turn g behind_chunk k (crlf_string ++ rest)
        ≡ scan chunked_turn g (fed part s) (k + 2) rest
  unfolding chunk_case data_end_turn
  read_crlf k h =
      round g data_end behind_chunk k crlf_string rest (fed part s) refl
        (record { expects = λ e. cc; underway = going }) h (omega arith) refl

  pub one_chunk :
      length (chunk part ++ rest) < g
      → scan chunked_turn g s pos (chunk part ++ rest)
        ≡ scan chunked_turn g (fed part s) (pos + length (chunk part)) rest
  one_chunk h =
      let n = length (chunk_header (length part)) in
      let l1 = length-append (chunk part) rest in
      let l2 = length-append (chunk_header (length part)) (part ++ (crlf_string ++ rest)) in
      let l3 = length-append part (crlf_string ++ rest) in
      let total : pos + n + length part + 2 ≡ pos + length (chunk part) =
        omega (arith, length-chunk part) in
      rw (chunk_grouped part rest) (
        read_header (part ++ (crlf_string ++ rest)) (omega (arith, l1, l2, l3, length-chunk part))
        ∙ read_data (pos + n) (crlf_string ++ rest) (omega (arith, l1, l2, l3, length-chunk part))
        ∙ read_crlf (pos + n + length part) (omega (arith, l1, l3, length-chunk part))
        ∙ ap (λ k. scan chunked_turn g (fed part s) k rest) total)
