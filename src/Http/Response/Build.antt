-- ===== src/Http/Response/Build.antt =====
-- include/dracon/http.h: how a response is made and changed.
use dracon.Prelude.{ℕ, [], Bytes, length}
use dracon.Http.Request.{Fields}
use dracon.Http.Response.{Response, Seconds, negsuc}

unfoldable pub response : ℕ → Bytes → Fields → Response
response status_code body flds = record {
  fields = flds;
  m_status_code = status_code;
  m_body = body;
  m_content_length = length body;
  m_keep_alive = negsuc 0;
}

unfoldable pub set_status_code : ℕ → Response → Response
set_status_code status_code res = record res { m_status_code = status_code }

unfoldable pub set_content_length : ℕ → Response → Response
set_content_length size res = record res { m_content_length = size; m_body = [] }

unfoldable pub set_keep_alive : Seconds → Response → Response
set_keep_alive seconds res = record res { m_keep_alive = seconds }

unfoldable pub set_body : Bytes → Response → Response
set_body body res = record res { m_body = body; m_content_length = length body }
