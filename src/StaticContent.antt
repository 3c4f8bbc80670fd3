-- ===== src/StaticContent.antt =====
-- src/plugins/static_content/static_content_plugin.cpp. What the file system answers is given.
pub mod FilePath
pub mod Files
pub mod Fresh
pub mod Normal
pub mod Session
mod Tests
pub mod Under
use dracon.Prelude.{
  ℕ, zero, suc, ◌+◌, ◌-◌, Bool, true, false, not, ◌&&◌, ◌||◌, List, [], ◌∷◌, ◌++◌, Option, none,
  some, Bytes, codes, bytes_eq, ◌==◌, if◌then◌else◌, take, drop, length, find, Result, ok, fail,
  thrown, out_of_fuel,
}
use dracon.StaticContent.FilePath.{
  PathName, path_of, append, lexically_normal, starts_with, string_of, is_up,
}
use dracon.Utils.UnescapeUrl.{unescape_url}
use dracon.Http.Request.{Request}

pub data FileType : Type 0 where
  directory : FileType
  regular : FileType
  other_type : FileType

-- Where a call gives an error there is none.
pub record FileSystem : Type 0 where
  pub canonical : PathName → Option PathName
  pub status : PathName → Option FileType
  pub file_size : PathName → Option ℕ
  pub last_write_time : PathName → Option ℕ
  pub mapped : PathName → Option Bytes

-- The configuration.
pub record Settings : Type 0 where
  pub s_default_file : Bytes
  pub s_allow_symlinks : Bool
  pub s_urls : List (Bytes × Bytes)
  pub s_custom_fields : List (Bytes × Bytes)

abbrev is_directory : Option FileType → Bool
is_directory (some directory) = true
is_directory _ = false

abbrev is_regular : Option FileType → Bool
is_regular (some regular) = true
is_regular _ = false

module _ (settings : Settings) (fs : FileSystem) where
  -- The path that is asked for, with the links followed unless they are allowed.
  unfoldable pub target : PathName → PathName → Option PathName
  target root path =
      let p = lexically_normal (append root path) in
      if settings.s_allow_symlinks then some p else fs.canonical p

  -- A directory stands for the default file in it.
  unfoldable pub default_file : PathName → PathName
  default_file p =
      if is_directory (fs.status p) then append p (path_of settings.s_default_file) else p

  -- The file that is served, or none for a 404.
  unfoldable pub file_of : PathName → PathName → Option PathName
  unfolding target default_file
  file_of root path = elim (target root path) [
    | none ↦ none
    | some p ↦
        if not (starts_with p root)
        then none
        else if is_regular (fs.status (default_file p))
        then some (default_file p)
        else none
  ]
