-- ===== src/StaticContent/Session.antt =====
-- src/plugins/static_content/static_content_plugin.cpp: mime_type, static_content_session and
-- create_session.

pub mod Serves
use dracon.Prelude.{
  ℕ, ◌+◌, ◌-◌, ◌<◌, Bool, true, false, not, ◌&&◌, ◌||◌, List, [], ◌∷◌, ◌++◌, Option, none, some,
  Bytes, codes, bytes_eq, ◌==◌, ltb, if◌then◌else◌, take, drop, length, Result, ok, fail, thrown,
  out_of_fuel, ◌>>=◌, last_or,
}
use dracon.Http.Request.{Fields, Request}
use dracon.Http.Response.{Response}
use dracon.Http.Response.Build.{response, set_content_length}
use dracon.HttpParser.Head.{find_from}
use dracon.HttpSession.{thrown_response, unfinished}
use dracon.HttpSession.Connection.{
  Connection, Ran, done, waits, throws, write_out_bytes, send, receive,
}
use dracon.StaticContent.{Settings, FileSystem, file_of}
use dracon.StaticContent.FilePath.{PathName, path_of, append, lexically_normal}
use dracon.StaticContent.Files.{FileMap, FilesCache, Opened, opened, refused, broken, open_file}
use dracon.Utils.UnescapeUrl.{unescape_url}

abbrev mime_types : List (Bytes × Bytes)
mime_types =
    (codes ".htm", codes "text/html")
    ∷ (codes ".html", codes "text/html")
    ∷ (codes ".php", codes "text/html")
    ∷ (codes ".css", codes "text/css")
    ∷ (codes ".js", codes "application/javascript")
    ∷ (codes ".json", codes "application/json")
    ∷ (codes ".xml", codes "application/xml")
    ∷ (codes ".png", codes "image/png")
    ∷ (codes ".jpe", codes "image/jpeg")
    ∷ (codes ".jpeg", codes "image/jpeg")
    ∷ (codes ".jpg", codes "image/jpeg")
    ∷ (codes ".gif", codes "image/gif")
    ∷ (codes ".bmp", codes "image/bmp")
    ∷ (codes ".tiff", codes "image/tiff")
    ∷ (codes ".tif", codes "image/tiff")
    ∷ (codes ".svg", codes "image/svg+xml")
    ∷ (codes ".svgz", codes "image/svg+xml")
    ∷ (codes ".txt", codes "text/plain")
    ∷ (codes ".webp", codes "image/webp")
    ∷ (codes ".webm", codes "video/webmx")
    ∷ (codes ".weba", codes "audio/webm")
    ∷ (codes ".swf", codes "application/x-shockwave-flash")
    ∷ (codes ".flv", codes "video/x-flv")
    ∷ []

-- The first that is equal.
unfoldable pub type_of : Bytes → List (Bytes × Bytes) → Bytes
type_of ext [] = codes "application/octet-stream"
type_of ext ((e, type) ∷ types) = if bytes_eq ext e then type else type_of ext types

unfoldable pub mime_type : Bytes → Bytes
unfolding type_of
mime_type ext = type_of ext mime_types

-- What stands from the last dot on.
unfoldable pub last_dot : Bytes → Option Bytes
last_dot [] = none
last_dot (c ∷ name) = elim (last_dot name) [
  | none ↦ if c == b'.' then some (c ∷ name) else none
  | some ext ↦ some ext
]

abbrev or_none : Option Bytes → Bytes
or_none none = []
or_none (some ext) = ext

abbrev name_extension : Bytes → Bytes
name_extension [] = []
name_extension (c ∷ name) = if bytes_eq (c ∷ name) (codes "..") then [] else or_none (last_dot name)

-- `extension()`: a dot in front makes no extension.
unfoldable pub extension : PathName → Bytes
unfolding last_dot
extension p = name_extension (last_or [] p.names)

-- `res[name] = value`.
unfoldable pub set_field : Bytes → Bytes → Fields → Fields
set_field name value [] = (name, value) ∷ []
set_field name value ((k, v) ∷ flds) =
    if bytes_eq k name then (k, value) ∷ flds else (k, v) ∷ set_field name value flds

unfoldable pub file_response : Settings → PathName → ℕ → Response
unfolding mime_type extension set_field set_content_length
file_response settings p size =
    let fields =
      set_field (codes "Content-Type") (mime_type (extension p)) settings.s_custom_fields in
    set_content_length size (record (response 200 [] []) { fields = fields })

abbrev pub not_found : Response
not_found = response 404 [] []

module _ (settings : Settings) (head : Bool) where
  -- The response to a file, and its data unless only the head is asked for.
  unfoldable pub send_file : PathName → FileMap → Connection → Connection
  unfolding file_response
  send_file p file c =
      let c' = send (file_response settings p (length file.data_of)) c in
      if head then c' else write_out_bytes file.data_of c'

  unfoldable pub answer_opened :
      PathName → Request → Connection → FilesCache → Opened → FilesCache × Ran Request
  unfolding send_file
  answer_opened p req c cache (opened cache' file) = (cache', done req (send_file p file c))
  answer_opened p req c cache (refused cache') = (cache', throws (thrown_response not_found) c)
  answer_opened p req c cache broken = (cache, throws unfinished c)

module _ (settings : Settings) (fs : FileSystem) (root path : PathName) (head : Bool) where
  -- What follows the read of the request.
  unfoldable pub answer_file : Request → Connection → FilesCache → FilesCache × Ran Request
  unfolding answer_opened
  answer_file req c cache = elim (file_of settings fs root path) [
    | none ↦ (cache, throws (thrown_response not_found) c)
    | some p ↦ answer_opened settings head p req c cache (open_file fs p cache)
  ]

  abbrev answer_read : FilesCache → Ran Request → FilesCache × Ran Request
  answer_read cache (done req c) = answer_file req c cache
  answer_read cache (waits c) = (cache, waits c)
  answer_read cache (throws failure c) = (cache, throws failure c)

  unfoldable pub static_content_session :
      Request → Connection → FilesCache → FilesCache × Ran Request
  unfolding answer_file
  static_content_session req c cache = answer_read cache (receive req c)

-- What `create_session` binds: the root, the path below it, and whether only the head is asked for.
pub record Bound : Type 0 where
  pub root : PathName
  pub path : PathName
  pub head : Bool

abbrev has_prefix : Bytes → Bytes → Bool
has_prefix url prefix = bytes_eq (take (length prefix) url) prefix

abbrev or_length : Bytes → Option ℕ → ℕ
or_length url none = length url
or_length url (some pos) = pos

-- A URL of a user's own pages; `pos` is where the user's name ends.
unfoldable pub user_session : Bytes → Bytes → Bool → ℕ → Result (Option Bound)
unfolding append path_of lexically_normal
user_session url directory head pos = do
  user ← unescape_url (take (pos - 2) (drop 2 url))
  if bytes_eq user (codes ".") || bytes_eq user (codes "..") then ok none else (do
    file ← if ltb 1 (length url - pos) then unescape_url (drop (pos + 1) url) else ok []
    ok (
        some (record {
          root = append (append (path_of directory) (path_of user)) (path_of (codes "public_html"));
          path = lexically_normal (path_of file);
          head = head;
        })))

-- The first prefix that the URL has.
unfoldable pub url_session : Bytes → Bool → List (Bytes × Bytes) → Result (Option Bound)
unfolding user_session
url_session url head [] = ok none
url_session url head ((prefix, directory) ∷ urls) =
    if has_prefix url prefix
    then (if has_prefix prefix (codes "/~")
        then user_session url directory head (or_length url (find_from b'/' 1 url))
        else (do
          file ← unescape_url (drop (length prefix) url)
          ok (
              some (record {
                root = path_of directory;
                path = lexically_normal (path_of file);
                head = head;
              }))))
    else url_session url head urls

unfoldable pub create_session : Settings → Request → Result (Option Bound)
unfolding url_session
create_session settings req =
    let is_head = bytes_eq req.m_method (codes "HEAD") in
    let session = url_session req.m_url is_head settings.s_urls in
    if not (bytes_eq req.m_method (codes "GET")) && not is_head then ok none else session
