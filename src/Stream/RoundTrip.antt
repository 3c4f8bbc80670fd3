-- ===== src/Stream/RoundTrip.antt =====
-- What a chunked_stream writes, parse_chunked reads.
use dracon.Prelude.{
  ℕ, zero, suc, ◌+◌, ◌/◌, ◌%◌, ◌^◌, ◌<◌, ◌≡◌, ◌∙◌, sym, refl, ap, arith, Bytes, [], ◌++◌, length,
  length-append, append_assoc, append-nil, false, ltb, Bool-cases, inl, inr, ok, ◌==◌, none, some,
  find, if◌then◌else◌,
}
use dracon.Http.Request.{Request}
use dracon.HttpParser.Detail.{next_line, trim_ows}
use dracon.HttpParser.State.{HttpRequestParser, chunk_data, trailers}
use dracon.HttpParser.Lines.{next_line_crlf, find-append_none}
use dracon.HttpParser.Body.{hex_digits, chunk_size, size_turn}
use dracon.Scanner.Defs.{again}
use dracon.Stream.Chunked.{hex_digit, to_chars_hex, chunk_header, crlf_string}
use dracon.Stream.Hex.{to_chars_hex-read}

-- No digit is a line feed.
hex_digit-ne-lf : (k : ℕ) → (hex_digit k == b'\n') ≡ false
unfolding hex_digit
hex_digit-ne-lf k = ground arith

to_chars_hex-no-lf : (f n : ℕ) → find b'\n' (to_chars_hex f n) ≡ none
unfolding to_chars_hex
to_chars_hex-no-lf zero n = refl
to_chars_hex-no-lf (suc f) n = elim (Bool-cases (ltb n 16)) [
  | inl small ↦ rw (small, hex_digit-ne-lf n)
  | inr large ↦ rw large (
      find-append_none b'\n' (to_chars_hex f (n / 16)) _ (to_chars_hex-no-lf f (n / 16))
        (rw (hex_digit-ne-lf (n % 16))))
]

chunk_size-to_chars : (n : ℕ) → n < 2 ^ 64 → chunk_size (to_chars_hex 16 n) ≡ ok n
unfolding chunk_size hex_digits trim_ows
chunk_size-to_chars n h =
    let (eq, pos, le) = to_chars_hex-read 15 n [] h (omega arith) h in
    let some_digits : (length (to_chars_hex 16 n) == 0) ≡ false = ground arith in
    let read : hex_digits 0 0 (to_chars_hex 16 n) ≡ ok (length (to_chars_hex 16 n), n, []) =
      ap (hex_digits 0 0) (sym (append-nil _)) ∙ eq in
    rw (read, chunk_size, some_digits)

header_line :
    (n : ℕ) (rest : Bytes)
    → next_line (chunk_header n ++ rest)
      ≡ some (record { text = to_chars_hex 16 n; next = length (chunk_header n) })
unfolding chunk_header
header_line n rest =
    let len : length (to_chars_hex 16 n ++ crlf_string) ≡ length (to_chars_hex 16 n) + 2 =
      length-append _ _ in
    rw (append_assoc, len) (next_line_crlf (to_chars_hex 16 n) rest (to_chars_hex-no-lf 16 n))

pub size_turn-header :
    (n : ℕ) (p : HttpRequestParser) (req : Request) (rest : Bytes)
    → n < 2 ^ 64
    → size_turn (p, req) (chunk_header n ++ rest)
      ≡ ok (
          again
            (record p { m_remaining = n; m_chunk = if n == 0 then trailers else chunk_data }, req)
            (length (chunk_header n)))
unfolding size_turn
size_turn-header n p req rest h = rw (header_line n rest, size_turn, chunk_size-to_chars n h)
