-- ===== src/Utils/Tests.antt =====
-- Runs of a cache of numbers.
use dracon.Utils.Buffer.Reading.{view, IsOrdered, unread_after, perform_on-view}
use dracon.Utils.Buffer.{
  CharBuffer, copy_in, reset, resize, advance_cursor, current_size, current_string, commit,
  set_current_size, assign, fill, BufferOperation, assigns, fills, advances, commits, perform_on,
}
use native.Mathlib.Decide.{ℕ_discrete}
use dracon.Prelude.{ℕ, arith, ◌≡◌, refl, false, List, [], ◌∷◌, some, take, ok, codes, Bytes, foldl}
use dracon.Utils.UnescapeUrl.{
  from_hex, unescape_url, Piece, literal, plus, percent, AreEscaped, escaped, unescape_url-escaped,
  Decodes, unescape_url-Decodes,
}
use dracon.Utils.LruCache.{empty_cache}
use dracon.Utils.LruCache.History.{
  Call, put_call, read, exists_call, nothing, found, present, perform_all, model_all, model,
  perform_all-model, reference_call, walk, erase_call, size_call, range_error, listed, counted,
}
use dracon.Utils.LruCache.Reads.{has_value}

abbrev four_bytes : CharBuffer
four_bytes = record { m_buffer = codes "abcd"; m_current = 1; m_end = 3 }

abbrev buffer_uses : List BufferOperation
buffer_uses =
    advances 1 ∷ commits ∷ fills (codes "uvwxyz") ∷ advances 3 ∷ commits ∷ assigns (codes "ab") ∷ []

buffer_read : view (foldl perform_on four_bytes (take 5 buffer_uses)) ≡ (4, codes "x")
unfolding perform_on assign fill advance_cursor commit current_string current_size copy_in reset
    resize set_current_size
buffer_read = refl

perform_on-view_example :
    IsOrdered (foldl perform_on four_bytes buffer_uses)
    × (view (foldl perform_on four_bytes buffer_uses)
        ≡ foldl unread_after (view four_bytes) buffer_uses)
perform_on-view_example =
    perform_on-view buffer_uses four_bytes (record { ordered = omega arith; within = omega arith })

-- 1 is used after 2, so that 3 takes the place of 2; then 1 is erased.
abbrev calls : List (Call ℕ ℕ)
calls =
    put_call 1 10
    ∷ put_call 2 20
    ∷ read 0 1
    ∷ put_call 3 30
    ∷ exists_call 2
    ∷ reference_call 2
    ∷ reference_call 1
    ∷ walk
    ∷ erase_call 1
    ∷ size_call
    ∷ []

calls_answered :
    model_all ℕ_discrete calls (2, [])
    ≡ nothing
      ∷ nothing
      ∷ found 10
      ∷ nothing
      ∷ present false
      ∷ range_error
      ∷ found 10
      ∷ listed ((1, 10) ∷ (3, 30) ∷ [])
      ∷ nothing
      ∷ counted 1
      ∷ []
unfolding model_all model ℕ_discrete has_value
calls_answered = refl

perform_all-model_example :
    perform_all ℕ_discrete calls (empty_cache 2) ≡ some (model_all ℕ_discrete calls (2, []))
perform_all-model_example = perform_all-model ℕ_discrete 2 calls

abbrev query : List Piece
query = literal b'a' ∷ percent b'2' b'f' ∷ plus ∷ percent b'C' b'3' ∷ []

abbrev query_text : Bytes
query_text = b'a' ∷ b'/' ∷ b' ' ∷ 195 ∷ []

query-AreEscaped : AreEscaped query query_text
unfolding from_hex
query-AreEscaped =
    ((refl, refl, refl), ((2, 15, refl, refl, refl), (refl, ((12, 3, refl, refl, refl), tt))))

query-escaped : escaped query ≡ codes "a%2f+%C3"
query-escaped = refl

unescape_url-escaped_example : unescape_url (escaped query) ≡ ok query_text
unescape_url-escaped_example = unescape_url-escaped query query_text query-AreEscaped

query_decoded : unescape_url (codes "a%2f") ≡ ok (codes "a/")
unfolding unescape_url from_hex
query_decoded = refl

unescape_url-Decodes_example : Decodes (codes "a%2f") (codes "a/")
unescape_url-Decodes_example = unescape_url-Decodes (codes "a%2f") (codes "a/") query_decoded
