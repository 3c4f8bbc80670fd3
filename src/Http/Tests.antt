-- ===== src/Http/Tests.antt =====
-- A response with a field that holds line terminators.
use dracon.Prelude.{arith, ◌≡◌, refl, codes, [], ◌∷◌, some, suc}
use dracon.Http.Response.{
  Response, pos, negsuc, status_codes, status_code_string, to_string, status_of, field_lines,
  header_part, is_computed, response_header_name_equals, length_line, number, connection_lines,
}
use dracon.Http.Response.Reading.{read_head, count}
use dracon.Http.Response.Split.{header_lines, sent_body, status_line, to_string-read_head}
use dracon.Http.Response.Status.{text_of, status_code_string-text_of}

abbrev redirect : Response
redirect = record {
  fields =
      (codes "Location", codes "/a\r\nSet-Cookie: x") ∷ (codes "connection", codes "upgrade") ∷ [];
  m_status_code = 302;
  m_body = codes "bye";
  m_content_length = 3;
  m_keep_alive = negsuc 0;
}

redirect_sent :
    to_string (pos 5) redirect
    ≡ codes
        "HTTP/1.1 302 Found\r\nLocation: /a  Set-Cookie: x\r\nContent-Length: 3\r\nKeep-Alive: timeout=5\r\nConnection: keep-alive\r\n\r\nbye"
unfolding to_string status_code_string status_codes status_of field_lines header_part is_computed
    response_header_name_equals length_line number connection_lines
redirect_sent = refl

redirect_status : status_of redirect ≡ 302
unfolding status_of
redirect_status = refl

to_string-read_head_example :
    read_head (suc (suc (count (header_lines (pos 5) redirect)))) (to_string (pos 5) redirect)
    ≡ some (status_line redirect ∷ header_lines (pos 5) redirect, sent_body redirect)
to_string-read_head_example = to_string-read_head (pos 5) redirect (omega (arith, redirect_status))

status_code_string-text_of_example : status_code_string 418 ≡ text_of 418 status_codes
status_code_string-text_of_example = status_code_string-text_of 418
