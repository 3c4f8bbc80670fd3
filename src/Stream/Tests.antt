-- ===== src/Stream/Tests.antt =====
-- What a chunked_stream writes for concrete buffers.
use dracon.Prelude.{some, arith, ◌≡◌, refl, codes, Bytes, List, [], ◌∷◌, flatten}
use dracon.Stream.Ostream.{Output, put_char, put_chars, flush, output_all, open_buffer}
use dracon.Stream.Ostream.Keeps.{contents, output_all-contents}
use dracon.Stream.Chunked.{write, close, session, chunk_header}

abbrev buffers : List Bytes
buffers = codes "hello" ∷ [] ∷ codes " world!" ∷ []

session_written : session [] buffers ≡ codes "5\r\nhello\r\n7\r\n world!\r\n0\r\n\r\n"
unfolding session close write chunk_header
session_written = refl

abbrev outputs : List Output
outputs = put_chars (codes "took ") ∷ put_char 51 ∷ flush ∷ put_chars (codes "s") ∷ []

output_all-contents_example :
    (ws : List Bytes) × (output_all (λ k n. n) outputs (open_buffer (λ k n. n) 0) ≡ some ws)
    × (flatten ws ≡ contents outputs)
output_all-contents_example = output_all-contents (λ k n. n) (λ k n. omega arith) outputs 0
