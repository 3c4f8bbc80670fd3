-- ===== src/HttpParser/State.antt =====
-- src/server/http_parser.h: the limits and the members of http_request_parser, and begin_request.
use dracon.Prelude.{ℕ, Bool, false, ◌*◌}
use dracon.Http.Request.{Request, set_state, processing_url}

abbrev pub max_head_size : ℕ
max_head_size = 8 * 1024

abbrev pub max_headers_count : ℕ
max_headers_count = 100

abbrev pub max_chunk_line_size : ℕ
max_chunk_line_size = 1024

pub data Head : Type 0 where
  request_line headers done : Head

pub data Body : Type 0 where
  none content_length chunked : Body

pub data Chunk : Type 0 where
  size chunk_data data_end trailers : Chunk

pub record HttpRequestParser : Type 0 where
  pub m_head : Head
  pub m_body : Body
  pub m_chunk : Chunk
  pub m_head_seen : ℕ
  pub m_headers : ℕ
  pub m_remaining : ℕ
  pub m_received : ℕ
  pub m_content_length : ℕ
  pub m_http11 : Bool
  pub m_has_content_length : Bool
  pub m_chunked : Bool
  pub m_close : Bool
  pub m_keep_alive : Bool

-- The parser as it is constructed, and as `begin_request` makes it again.
abbrev pub initial : HttpRequestParser
initial = record {
  m_head = request_line;
  m_body = none;
  m_chunk = size;
  m_head_seen = 0;
  m_headers = 0;
  m_remaining = 0;
  m_received = 0;
  m_content_length = 0;
  m_http11 = false;
  m_has_content_length = false;
  m_chunked = false;
  m_close = false;
  m_keep_alive = false;
}

-- A call works on the parser and on the request together.
abbrev pub State : Type 0
State = HttpRequestParser × Request

-- `begin_request` sets every member.
unfoldable pub begin_request : State → State
begin_request (p, req) = (initial, set_state processing_url req)
