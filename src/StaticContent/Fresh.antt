-- ===== src/StaticContent/Fresh.antt =====
-- The cache of mapped files, against what the files have at each time.
use mathlib.Core.Logic.{if_pos, if_neg}
use dracon.Prelude.{
  ℕ, ◌≡◌, ◌∙◌, sym, ap, arith, List, [], ◌∷◌, Option, none, some, Bytes, ◌==◌, take, zero, suc,
  Bool-cases, Option-cases, inl, inr, subst,
}
use dracon.StaticContent.FilePath.{PathName, string_of}
use dracon.StaticContent.{FileSystem}
use dracon.Utils.LruCache.{empty_cache, put, value}
use dracon.Utils.LruCache.Lists.{remove, lookup}
use dracon.Utils.LruCache.Refines.{Holds, put-Holds, empty-Holds}
use dracon.Utils.LruCache.Reads.{value_hit, value_miss}
use dracon.StaticContent.Files.{
  FileMap, FilesCache, same_text, Opened, opened, refused, broken, stored, file_map, map_file,
  check_file, open_file,
}

-- What a file has at each time that it was written last, by its path's text.
module _ (version : Bytes → ℕ → Bytes) where
  abbrev pub IsVersion : Bytes → Option FileMap → Type 0
  IsVersion key none = Unit
  IsVersion key (some file) = file.data_of ≡ version key file.m_last_write_time

  abbrev AreVersions : List (Bytes × Option FileMap) → Type 0
  AreVersions [] = Unit
  AreVersions (e ∷ es) = IsVersion e.0 e.1 × AreVersions es

  abbrev OrVersion : Bytes → Option (Option FileMap) → Type 0
  OrVersion key none = Unit
  OrVersion key (some x) = IsVersion key x

  AreVersions-take :
      (n : ℕ) (es : List (Bytes × Option FileMap)) → AreVersions es → AreVersions (take n es)
  AreVersions-take zero es h = tt
  AreVersions-take (suc n) [] h = tt
  AreVersions-take (suc n) (e ∷ es) (v, h) = (v, AreVersions-take n es h)

  AreVersions-remove :
      (key : Bytes) (es : List (Bytes × Option FileMap))
      → AreVersions es
      → AreVersions (remove same_text key es)
  AreVersions-remove key [] h = tt
  AreVersions-remove key (e ∷ es) (v, h) = elim (same_text key e.0) [
    | yes p ↦ rw (if_pos _ p) h
    | no p ↦ rw (if_neg _ p) (v, AreVersions-remove key es h)
  ]

  AreVersions-lookup :
      (key : Bytes) (es : List (Bytes × Option FileMap)) (x : Option FileMap)
      → AreVersions es
      → lookup same_text key es ≡ some x
      → IsVersion key x
  AreVersions-lookup key [] x h e = cc
  AreVersions-lookup key (entry ∷ es) x (v, h) e = elim (same_text key entry.0) [
    | yes p ↦
        let same : some entry.1 ≡ some x = rw (if_pos _ p) at e in
        rw p (subst (OrVersion entry.0) same v)
    | no p ↦ AreVersions-lookup key es x h (rw (if_neg _ p) at e)
  ]

  -- A valid cache of versions.
  abbrev pub IsCurrent : FilesCache → Type 0
  IsCurrent cache = (es : List (Bytes × Option FileMap)) × Holds same_text cache es × AreVersions es

  pub empty-IsCurrent : (size : ℕ) → IsCurrent (empty_cache size)
  empty-IsCurrent size = ([], empty-Holds same_text size, tt)

  -- A file has what its time of writing says.
  pub record IsTimed (fs : FileSystem) : Type 0 where
    pub mapped_version :
        (p : PathName) (time : ℕ) (bytes : Bytes)
        → fs.last_write_time p ≡ some time
        → fs.mapped p ≡ some bytes
        → bytes ≡ version (string_of p) time
    pub empty_version :
        (p : PathName) (time : ℕ)
        → fs.file_size p ≡ some 0
        → fs.last_write_time p ≡ some time
        → version (string_of p) time ≡ []

  -- The cache stays one of versions, and a file that is opened is the version of its last write.
  abbrev pub OpensCurrent : FileSystem → PathName → Opened → Type 0
  OpensCurrent fs p (opened cache file) =
      IsCurrent cache
      × (fs.last_write_time p ≡ some file.m_last_write_time)
      × (file.data_of ≡ version (string_of p) file.m_last_write_time)
  OpensCurrent fs p (refused cache) = IsCurrent cache
  OpensCurrent fs p broken = ⊥

  module _ (fs : FileSystem) (timed : IsTimed fs) (p : PathName) (size time : ℕ)
      (sized : fs.file_size p ≡ some size) (written : fs.last_write_time p ≡ some time) where
    file_map-version :
        (file : FileMap)
        → file_map fs p size time ≡ some file
        → (file.m_last_write_time ≡ time) × (file.data_of ≡ version (string_of p) time)
    unfolding file_map
    file_map-version file e = elim (Bool-cases (size == 0)) [
      | inl none_left ↦
          let no_size : size ≡ 0 = ground (arith, none_left) in
          ground (arith, timed.empty_version p time (rw no_size at sized) written)
      | inr some_left ↦ elim (Option-cases (fs.mapped p)) [
        | inl unmapped ↦ ground arith
        | inr (bytes, mapped) ↦ ground (arith, timed.mapped_version p time bytes written mapped)
      ]
    ]

    stored-OpensCurrent :
        (cache : FilesCache) (file : FileMap)
        → IsCurrent cache
        → file_map fs p size time ≡ some file
        → OpensCurrent fs p (stored file (put same_text (string_of p) (some file) cache))
    stored-OpensCurrent cache file (es, holds, versions) e =
        let (same_time, same_data) = file_map-version file e in
        let current : file.data_of ≡ version (string_of p) file.m_last_write_time =
          same_data ∙ ap (version (string_of p)) (sym same_time) in
        let (cache', put, holds', _) =
          put-Holds same_text cache es (string_of p) (some file) holds in
        rw put (
          (
            _,
            holds',
            AreVersions-take cache.m_cache_size _
                (current, AreVersions-remove (string_of p) es versions),
          ),
          written ∙ ap some (sym same_time),
          current,
        )

    map_file-OpensCurrent :
        (cache : FilesCache) → IsCurrent cache → OpensCurrent fs p (map_file fs p size time cache)
    unfolding map_file
    map_file-OpensCurrent cache h = elim (Option-cases (file_map fs p size time)) [
      | inl unmapped ↦ rw (map_file, unmapped) h
      | inr (file, mapped) ↦ rw (map_file, mapped) (stored-OpensCurrent cache file h mapped)
    ]

    check_file-OpensCurrent :
        (cache : FilesCache) (x : Option FileMap)
        → IsCurrent cache
        → IsVersion (string_of p) x
        → OpensCurrent fs p (check_file fs p size time (some (cache, x)))
    unfolding check_file
    check_file-OpensCurrent cache none h v = map_file-OpensCurrent cache h
    check_file-OpensCurrent cache (some file) h v =
        elim (Bool-cases (file.m_last_write_time == time)) [
          | inl same ↦
              let same_time : file.m_last_write_time ≡ time = ground (arith, same) in
              rw (check_file, same) (h, written ∙ ap some (sym same_time), v)
          | inr other ↦ rw (check_file, other) (map_file-OpensCurrent cache h)
        ]

    value-OpensCurrent :
        (cache : FilesCache)
        → IsCurrent cache
        → OpensCurrent fs p (check_file fs p size time (value same_text none (string_of p) cache))
    value-OpensCurrent cache (es, holds, versions) =
        elim (Option-cases (lookup same_text (string_of p) es)) [
          | inl missing ↦
              rw (value_miss same_text cache es none (string_of p) holds missing)
                (check_file-OpensCurrent cache none (es, holds, versions) tt)
          | inr (x, found) ↦
              let v = AreVersions-lookup (string_of p) es x versions found in
              let (cache', read, holds', _) =
                value_hit same_text cache es none (string_of p) x holds found in
              rw read (
                check_file-OpensCurrent cache' x
                  (_, holds', (v, AreVersions-remove (string_of p) es versions)) v)
        ]

  -- The cache is one of versions, as the empty cache is, and the contents of a file change with its
  -- time of writing only: `version` says what they are at each time, and an empty file is not
  -- mapped. Then a file that is opened, from the cache or not, was written last at the time that the
  -- file system says now and has the contents of that time, however old the entry of the cache; the
  -- cache stays one of versions, also where the file system fails; and the cache never breaks.
  pub open_file-OpensCurrent :
      (fs : FileSystem) (p : PathName) (cache : FilesCache)
      → IsTimed fs
      → IsCurrent cache
      → OpensCurrent fs p (open_file fs p cache)
  unfolding open_file
  open_file-OpensCurrent fs p cache timed h = elim (Option-cases (fs.file_size p)) [
    | inl unsized ↦ rw (open_file, unsized) h
    | inr (size, sized) ↦ elim (Option-cases (fs.last_write_time p)) [
      | inl unwritten ↦ rw (open_file, sized, unwritten) h
      | inr (time, written) ↦
          rw (open_file, sized, written)
            (value-OpensCurrent fs timed p size time sized written cache h)
    ]
  ]
