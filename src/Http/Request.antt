-- ===== src/Http/Request.antt =====
-- include/dracon/http.h: the header fields, and class request.
use dracon.Prelude.{
  ℕ, ◌-◌, ◌^◌, Bool, true, false, List, [], ◌∷◌, ◌++◌, Bytes, bytes_eq, if◌then◌else◌, Result, ok,
  fail,
}

-- `chunked_data`, the greatest size_t.
abbrev pub chunked_data : ℕ
chunked_data = 2 ^ 64 - 1

-- `fields`: a hash map, as its entries in the order of insertion. No order of iteration is
-- promised by the program.
abbrev pub Fields : Type 0
Fields = List (Bytes × Bytes)

-- `try_emplace`, and `it->second += ", " + value` where the key is there already.
unfoldable pub combine : Bytes → Bytes → Fields → Fields
combine key value [] = (key, value) ∷ []
combine key value ((k, v) ∷ flds) =
    if bytes_eq k key
    then (k, v ++ (b',' ∷ b' ' ∷ value)) ∷ flds
    else (k, v) ∷ combine key value flds

pub data ParseState : Type 0 where
  uninitialized processing_url processing_header headers_completed : ParseState
  processing_body completed : ParseState

abbrev pub is_uninitialized : ParseState → Bool
is_uninitialized uninitialized = true
is_uninitialized _ = false

abbrev pub is_completed : ParseState → Bool
is_completed completed = true
is_completed _ = false

-- `head_parsed` of `read_headers` (src/server/streams.cpp).
abbrev pub head_parsed : ParseState → Bool
head_parsed headers_completed = true
head_parsed completed = true
head_parsed _ = false

-- The callback is one that appends what it gets to a string, `body`.
pub record Request : Type 0 where
  pub fields : Fields
  pub m_keep_alive : Bool
  pub m_url : Bytes
  pub m_method : Bytes
  pub has_callback : Bool
  pub body : Bytes
  pub m_state : ParseState
  pub m_max_body_size : ℕ

abbrev pub set_state : ParseState → Request → Request
set_state s req = record req { m_state = s }

-- `append_body_callback` with such a callback on an empty string.
unfoldable pub append_body_callback : ℕ → Request → Request
append_body_callback max_size req = record req {
  has_callback = true;
  body = [];
  m_max_body_size = max_size;
}

unfoldable pub append_body : Bytes → Request → Result Request
append_body part req =
    if req.has_callback
    then ok (record req { body = req.body ++ part })
    else fail 400 "unexpected body"

abbrev pub fresh_request : Request
fresh_request = record {
  fields = [];
  m_keep_alive = false;
  m_url = [];
  m_method = [];
  has_callback = false;
  body = [];
  m_state = uninitialized;
  m_max_body_size = 0;
}
