-- ===== src/StaticContent/Tests.antt =====
-- The theorems on the static content plugin, for a directory with a default file.
use dracon.Prelude.{
  ℕ, ◌≡◌, refl, true, false, [], ◌∷◌, none, some, Bytes, codes, length, ◌==◌, if◌then◌else◌, subst,
  ok,
}
use dracon.Http.Request.{Request, fresh_request}
use dracon.Http.Response.{pos}
use dracon.HttpParser.State.{initial}
use dracon.HttpSession.Connection.{Connection, receive}
use dracon.Utils.LruCache.{empty_cache}
use dracon.Utils.UnescapeUrl.{unescape_url, from_hex}
use dracon.StaticContent.{
  FileType, directory, regular, FileSystem, Settings, target, default_file, file_of,
}
use dracon.StaticContent.FilePath.{
  PathName, path_of, names_of, drop_trailing, has_filename, append, push, push_all, onto,
  lexically_normal, is_prefix, starts_with,
}
use dracon.StaticContent.Fresh.{IsTimed, empty-IsCurrent}
use dracon.StaticContent.Under.{IsSound, OrStaysDown}
use dracon.StaticContent.Session.{create_session, url_session, user_session, static_content_session}
use dracon.StaticContent.Session.Serves.{AfterRead, static_content_session-AfterRead}

abbrev docs : PathName
docs = record { absolute = true; names = codes "srv" ∷ [] }

abbrev status_of : ℕ → FileType
status_of n = if n == 1 then directory else regular

abbrev disk : FileSystem
disk = record {
  canonical = λ p. some docs;
  status = λ p. some (status_of (length p.names));
  file_size = λ p. some 5;
  last_write_time = λ p. some 7;
  mapped = λ p. some (codes "hello");
}

abbrev settings : Settings
settings = record {
  s_default_file = codes "index.html";
  s_allow_symlinks = false;
  s_urls = (codes "/~", codes "/home") ∷ (codes "/", codes "/srv") ∷ [];
  s_custom_fields = [];
}

abbrev hello : Bytes → ℕ → Bytes
hello key time = codes "hello"

settings-IsSound : IsSound settings disk
unfolding path_of names_of
settings-IsSound = record {
  relative = refl;
  default_down = (refl, tt);
  canonical_down = λ p q e. subst OrStaysDown e (refl, tt);
}

disk-IsTimed : IsTimed hello disk
disk-IsTimed = record {
  mapped_version = λ p time bytes written mapped. cc;
  empty_version = λ p time sized written. cc;
}

abbrev index : PathName
index = record { absolute = true; names = codes "srv" ∷ codes "index.html" ∷ [] }

abbrev asked : PathName
asked = record { absolute = false; names = codes ".." ∷ codes "srv" ∷ [] }

index_served : file_of settings disk docs asked ≡ some index
unfolding file_of target default_file starts_with is_prefix append path_of names_of drop_trailing
    has_filename lexically_normal push_all push onto
index_served = refl

abbrev connected : Connection
connected = record {
  session = record {
    m_parser = initial;
    m_pending = [];
    m_can_write_error = true;
    m_keep_alive = pos 10;
  };
  m_session_timeout = pos 10;
  out = [];
  events = [];
  interrupted = false;
  served = 0;
}

static_content_session-AfterRead_example :
    AfterRead hello settings disk docs false (empty_cache 100) (receive fresh_request connected) (
      static_content_session settings disk docs asked false fresh_request connected
        (empty_cache 100))
static_content_session-AfterRead_example =
    static_content_session-AfterRead hello settings disk docs false settings-IsSound disk-IsTimed
      refl (refl, tt) asked fresh_request connected (empty_cache 100) (empty-IsCurrent hello 100)

abbrev get_user : Bytes → Request
get_user url = record fresh_request { m_method = codes "GET"; m_url = url }

-- A user's own pages, and no way up from there.
user_bound :
    create_session settings (get_user (codes "/~bob/a//./b/../c"))
    ≡ ok (
        some (record {
          root = record {
            absolute = true;
            names = codes "home" ∷ codes "bob" ∷ codes "public_html" ∷ [];
          };
          path = record { absolute = false; names = codes "a" ∷ codes "c" ∷ [] };
          head = false;
        }))
unfolding create_session url_session user_session unescape_url path_of names_of append drop_trailing
    has_filename lexically_normal push_all push onto from_hex
user_bound = refl

user_declined : create_session settings (get_user (codes "/~%2e./etc/passwd")) ≡ ok none
unfolding create_session url_session user_session unescape_url path_of names_of append drop_trailing
    has_filename lexically_normal push_all push onto from_hex
user_declined = refl
