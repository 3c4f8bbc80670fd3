-- ===== src/Http/Response.antt =====
-- include/dracon/http.h: namespace detail, and class response with its to_string.
pub mod Build
pub mod Reading
pub mod Split
pub mod Status
use Prim.Native.String.{String}
use dracon.Prelude.{
  ℕ, zero, suc, ◌+◌, ◌-◌, ◌/◌, ◌%◌, Bool, true, false, not, ◌&&◌, ◌||◌, List, [], ◌∷◌, ◌++◌, Option,
  none, some, Bytes, codes, leb, ltb, ◌==◌, if◌then◌else◌, length,
}
use dracon.Http.Request.{Fields, chunked_data}

unfoldable pub status_codes : List (ℕ × Bytes)
status_codes =
    (100, codes "100 Continue\r\n")
    ∷ (101, codes "101 Switching Protocols\r\n")
    ∷ (200, codes "200 OK\r\n")
    ∷ (201, codes "201 Created\r\n")
    ∷ (202, codes "202 Accepted\r\n")
    ∷ (203, codes "203 Non-Authoritative Information\r\n")
    ∷ (204, codes "204 No Content\r\n")
    ∷ (205, codes "205 Reset Content\r\n")
    ∷ (206, codes "206 Partial Content\r\n")
    ∷ (300, codes "300 Multiple Choices\r\n")
    ∷ (301, codes "301 Moved Permanently\r\n")
    ∷ (302, codes "302 Found\r\n")
    ∷ (303, codes "303 See Other\r\n")
    ∷ (304, codes "304 Not Modified\r\n")
    ∷ (305, codes "305 Use Proxy\r\n")
    ∷ (306, codes "306 Switch Proxy\r\n")
    ∷ (307, codes "307 Temporary Redirect\r\n")
    ∷ (400, codes "400 Bad Request\r\n")
    ∷ (401, codes "401 Unauthorized\r\n")
    ∷ (402, codes "402 Payment Required\r\n")
    ∷ (403, codes "403 Forbidden\r\n")
    ∷ (404, codes "404 Not Found\r\n")
    ∷ (405, codes "405 Method Not Allowed\r\n")
    ∷ (406, codes "406 Not Acceptable\r\n")
    ∷ (407, codes "407 Proxy Authentication Required\r\n")
    ∷ (408, codes "408 Request Timeout\r\n")
    ∷ (409, codes "409 Conflict\r\n")
    ∷ (410, codes "410 Gone\r\n")
    ∷ (411, codes "411 Length Required\r\n")
    ∷ (412, codes "412 Precondition Failed\r\n")
    ∷ (413, codes "413 Request Entity Too Large\r\n")
    ∷ (414, codes "414 Request-URI Too Long\r\n")
    ∷ (415, codes "415 Unsupported Media Type\r\n")
    ∷ (416, codes "416 Requested Range Not Satisfiable\r\n")
    ∷ (417, codes "417 Expectation Failed\r\n")
    ∷ (431, codes "431 Request Header Fields Too Large\r\n")
    ∷ (500, codes "500 Internal Server Error\r\n")
    ∷ (501, codes "501 Not Implemented\r\n")
    ∷ (502, codes "502 Bad Gateway\r\n")
    ∷ (503, codes "503 Service Unavailable\r\n")
    ∷ (504, codes "504 Gateway Timeout\r\n")
    ∷ (505, codes "505 HTTP Version Not Supported\r\n")
    ∷ []

-- What std::ranges::lower_bound promises on codes in order, as it asks for and as the table is: the
-- first entry that is not below the status.
abbrev pub lower_bound : ℕ → List (ℕ × Bytes) → Option (ℕ × Bytes)
lower_bound status [] = none
lower_bound status (e ∷ es) = if ltb e.0 status then lower_bound status es else some e

abbrev pub internal_error : Bytes
internal_error = codes "500 Internal Server Error\r\n"

unfoldable pub status_code_string : ℕ → Bytes
status_code_string status = elim (lower_bound status status_codes) [
  | none ↦ internal_error
  | some (code, text) ↦ if code == status then text else internal_error
]

lower : ℕ → ℕ
lower c = if leb b'A' c && leb c b'Z' then c + (b'a' - b'A') else c

unfoldable pub response_header_name_equals : Bytes → Bytes → Bool
unfolding lower
response_header_name_equals [] [] = true
response_header_name_equals (a ∷ lhs) (b ∷ rhs) =
    lower a == lower b && response_header_name_equals lhs rhs
response_header_name_equals _ _ = false

-- What `append_header_part` appends.
unfoldable pub header_part : Bytes → Bytes
header_part [] = []
header_part (c ∷ part) = (if c == b'\r' || c == b'\n' || c == 0 then b' ' else c) ∷ header_part part

-- What `append_number` appends, for a number of at most so many digits; 20 are enough for a size_t.
unfoldable pub number : ℕ → ℕ → Bytes
number zero value = []
number (suc digits) value =
    let high = number digits (value / 10) in
    if ltb value 10 then (b'0' + value) ∷ [] else high ++ ((b'0' + value % 10) ∷ [])

-- A number of seconds, which may be negative: `pos n` is n, `negsuc n` is -(n + 1).
pub data Seconds : Type 0 where
  pos negsuc : ℕ → Seconds

abbrev pub is_unset : Seconds → Bool
is_unset (pos n) = false
is_unset (negsuc n) = n == 0

pub record Response : Type 0 where
  pub fields : Fields
  pub m_status_code : ℕ
  pub m_body : Bytes
  pub m_content_length : ℕ
  pub m_keep_alive : Seconds

abbrev crlf : Bytes
crlf = b'\r' ∷ b'\n' ∷ []

-- `to_string` computes these headers itself.
unfoldable pub is_computed : Bytes → Bool
is_computed name =
    response_header_name_equals name (codes "Content-Length")
    || response_header_name_equals name (codes "Transfer-Encoding")
    || response_header_name_equals name (codes "Keep-Alive")
    || response_header_name_equals name (codes "Connection")

unfoldable pub field_lines : Fields → Bytes
field_lines [] = []
field_lines ((name, value) ∷ flds) =
    if is_computed name
    then field_lines flds
    else header_part name ++ (codes ": " ++ (header_part value ++ (crlf ++ field_lines flds)))

unfoldable pub status_of : Response → ℕ
status_of res = if res.m_status_code == 0 then 500 else res.m_status_code

abbrev pub informational : ℕ → Bool
informational status = leb 100 status && ltb status 200

abbrev pub body_less : ℕ → Bool
body_less status = informational status || status == 204

unfoldable pub length_line : Response → Bytes
length_line res =
    if res.m_content_length == chunked_data
    then codes "Transfer-Encoding: chunked\r\n"
    else codes "Content-Length: " ++ (number 20 res.m_content_length ++ crlf)

unfoldable pub connection_lines : Seconds → Bytes
connection_lines (pos (suc n)) =
    codes "Keep-Alive: timeout="
    ++ (number 20 (suc n) ++ (crlf ++ codes "Connection: keep-alive\r\n"))
connection_lines (pos zero) = codes "Connection: close\r\n"
connection_lines (negsuc n) = codes "Connection: close\r\n"

unfoldable pub to_string : Seconds → Response → Bytes
to_string keep_alive_override res =
    let status = status_of res in
    let keep = if is_unset keep_alive_override then res.m_keep_alive else keep_alive_override in
    codes "HTTP/1.1 "
    ++ (status_code_string status
        ++ (field_lines res.fields
            ++ ((if body_less status then [] else length_line res)
                ++ ((if informational status then [] else connection_lines keep)
                    ++ (crlf ++ (if body_less status then [] else res.m_body))))))
