-- ===== src/HttpParser/Output.antt =====
-- A response body that is produced by formatting, through an ostream_buffer on a chunked_stream, as a
-- parser of a chunked body reads it.
use dracon.Prelude.{ℕ, ◌≤◌, ◌≡◌, ◌∙◌, ap, subst, sym, Bytes, List, [], ◌++◌, some, ok, length}
use dracon.HttpParser.State.{State, size}
use dracon.HttpParser.Body.{parse_body}
use dracon.HttpParser.Body.Deliver.{Accepts}
use dracon.HttpParser.Chunked.{Chunking, parse_body-session}
use dracon.Stream.Chunked.{session}
use dracon.Stream.Encode.{finish}
use dracon.Stream.Ostream.{Output, output_all, open_buffer}
use dracon.Stream.Ostream.Keeps.{contents, output_all-contents}

module _ (capacity_of : ℕ → ℕ → ℕ) (reserves : (k n : ℕ) → n ≤ capacity_of k n) where
  -- What is put through a new ostream_buffer on a chunked_stream, by characters, strings and flushes,
  -- is read back by parse_body at the start of a chunked body, however the buffer cuts it into
  -- chunks: the same bytes, the whole stream consumed, and the request complete. It needs a
  -- callback, room in size_t, and a limit on the body that allows so many bytes.
  pub parse_body-output :
      (os : List Output) (socket_write_size : ℕ) (s : State) (rest : Bytes)
      → Chunking s
      → s.0.m_chunk ≡ size
      → Accepts s (length (contents os))
      → (ws : List Bytes) × (output_all capacity_of os (open_buffer capacity_of socket_write_size)
          ≡ some ws)
        × (parse_body (session [] ws ++ rest) s
            ≡ ok (finish (contents os) s, length (session [] ws)))
  parse_body-output os socket_write_size s rest c at a =
      let (ws, e, all_there) = output_all-contents capacity_of reserves os socket_write_size in
      (
        ws,
        e,
        parse_body-session s ws rest c at (subst (λ t. Accepts s (length t)) (sym all_there) a)
            ∙ ap (λ t. ok (finish t s, length (session [] ws))) all_there,
      )
