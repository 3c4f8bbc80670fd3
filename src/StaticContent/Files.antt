-- ===== src/StaticContent/Files.antt =====
-- src/plugins/static_content/static_content_plugin.cpp: the mapped files and their cache.
use mathlib.Core.List.{List-discrete}
use native.Mathlib.Decide.{ℕ_discrete}
use dracon.Prelude.{ℕ, [], Option, none, some, Bytes, ◌==◌, if◌then◌else◌}
use dracon.StaticContent.FilePath.{PathName, string_of}
use dracon.StaticContent.{FileSystem}
use dracon.Utils.LruCache.{LruCache, put, value}

pub record FileMap : Type 0 where
  pub data_of : Bytes
  pub m_last_write_time : ℕ

abbrev pub FilesCache : Type 0
FilesCache = LruCache Bytes (Option FileMap)

abbrev pub same_text : Discrete Bytes
same_text = List-discrete ℕ_discrete

-- The file to serve, or a 404. `broken` is undefined behaviour of the cache, which has none.
pub data Opened : Type 0 where
  opened : FilesCache → FileMap → Opened
  refused : FilesCache → Opened
  broken : Opened

-- The cache with the file.
abbrev pub stored : FileMap → Option FilesCache → Opened
stored file none = broken
stored file (some cache) = opened cache file

module _ (fs : FileSystem) where
  -- The constructor of file_map: an empty file is not mapped.
  unfoldable pub file_map : PathName → ℕ → ℕ → Option FileMap
  file_map p size time =
      if size == 0
      then some (record { data_of = []; m_last_write_time = time })
      else elim (fs.mapped p) [
        | none ↦ none
        | some bytes ↦ some (record { data_of = bytes; m_last_write_time = time })
      ]

  unfoldable pub map_file : PathName → ℕ → ℕ → FilesCache → Opened
  unfolding file_map
  map_file p size time cache = elim (file_map p size time) [
    | none ↦ refused cache
    | some file ↦ stored file (put same_text (string_of p) (some file) cache)
  ]

  -- What the cache has, unless it is older or newer than the file.
  unfoldable pub check_file : PathName → ℕ → ℕ → Option (FilesCache × Option FileMap) → Opened
  unfolding map_file
  check_file p size time none = broken
  check_file p size time (some (cache, none)) = map_file p size time cache
  check_file p size time (some (cache, some file)) =
      let again = map_file p size time cache in
      if file.m_last_write_time == time then opened cache file else again

  unfoldable pub open_file : PathName → FilesCache → Opened
  unfolding check_file
  open_file p cache = elim (fs.file_size p) [
    | none ↦ refused cache
    | some size ↦ elim (fs.last_write_time p) [
      | none ↦ refused cache
      | some time ↦ check_file p size time (value same_text none (string_of p) cache)
    ]
  ]
