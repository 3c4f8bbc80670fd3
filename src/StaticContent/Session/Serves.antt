-- ===== src/StaticContent/Session/Serves.antt =====
-- What a session of the plugin serves.
use dracon.Prelude.{
  ℕ, ◌≡◌, refl, sym, Bool, true, false, [], ◌++◌, Bytes, some, length, if◌then◌else◌, Option-cases,
  inl, inr, ◌⊎◌, append-nil,
}
use dracon.Http.Request.{Request}
use dracon.HttpSession.{thrown_response, Failure}
use dracon.HttpSession.Connection.{
  Connection, Ran, done, waits, throws, send, write_out_bytes, receive,
}
use dracon.StaticContent.{Settings, FileSystem, file_of}
use dracon.StaticContent.FilePath.{PathName, string_of}
use dracon.StaticContent.Files.{FilesCache, Opened, opened, refused, broken, open_file}
use dracon.StaticContent.Fresh.{IsTimed, IsCurrent, OpensCurrent, open_file-OpensCurrent}
use dracon.StaticContent.Under.{IsUnder, IsSound, AreNamed, file_of-IsUnder}
use dracon.StaticContent.Session.{
  file_response, not_found, send_file, answer_opened, answer_file, static_content_session,
}

sent_out :
    (head : Bool) (bytes : Bytes) (c : Connection)
    → (if head then c else write_out_bytes bytes c).out ≡ c.out ++ (if head then [] else bytes)
unfolding write_out_bytes
sent_out true bytes c = sym (append-nil c.out)
sent_out false bytes c = refl

Ran-cases :
    (r : Ran Request)
    → ((req : Request) × (c : Connection) × (r ≡ done req c))
      ⊎ ((c : Connection) × (r ≡ waits c))
      ⊎ ((failure : Failure) × (c : Connection) × (r ≡ throws failure c))
Ran-cases (done req c) = inl (req, c, refl)
Ran-cases (waits c) = inr (inl (c, refl))
Ran-cases (throws failure c) = inr (inr (failure, c, refl))

module _ (version : Bytes → ℕ → Bytes) (settings : Settings) (fs : FileSystem) (root : PathName)
    (head : Bool) where
  -- A file under the root is sent as it is now: the response with its length, and its contents
  -- unless only the head is asked for. Or a 404 is thrown, before anything is sent.
  pub record Sends (file : PathName) (time : ℕ) (c c' : Connection) : Type 0 where
    pub is_under : IsUnder root file
    pub is_now : fs.last_write_time file ≡ some time
    pub is_sent :
        c'.out
        ≡ (send (file_response settings file (length (version (string_of file) time))) c).out
          ++ (if head then [] else version (string_of file) time)

  abbrev pub Serves : Connection → FilesCache × Ran Request → Type 0
  Serves c (cache, done req c') =
      IsCurrent version cache × ((file : PathName) × (time : ℕ) × Sends file time c c')
  Serves c (cache, waits c') = ⊥
  Serves c (cache, throws failure c') =
      IsCurrent version cache × (failure ≡ thrown_response not_found) × (c' ≡ c)

  -- What the session does behind a read of its request that ended in this way.
  abbrev pub AfterRead : FilesCache → Ran Request → FilesCache × Ran Request → Type 0
  AfterRead cache (done req c) result = Serves c result
  AfterRead cache (waits c) (cache', ran) = (cache' ≡ cache) × (ran ≡ waits c)
  AfterRead cache (throws failure c) (cache', ran) = (cache' ≡ cache) × (ran ≡ throws failure c)

  module _ (sound : IsSound settings fs) (timed : IsTimed version fs)
      (rooted : root.absolute ≡ true) (named : AreNamed root.names) where
    answer_opened-Serves :
        (path file : PathName) (req : Request) (c : Connection) (cache : FilesCache) (o : Opened)
        → file_of settings fs root path ≡ some file
        → OpensCurrent version fs file o
        → Serves c (answer_opened settings head file req c cache o)
    unfolding answer_opened send_file
    answer_opened-Serves path file req c cache (opened cache' map) e (current, now, contents) = (
      current,
      (
        file,
        map.m_last_write_time,
        record {
          is_under = file_of-IsUnder settings fs sound root rooted named path file e;
          is_now = now;
          is_sent = rw⁻¹ contents (
              sent_out head map.data_of
                (send (file_response settings file (length map.data_of)) c));
        },
      ),
    )
    answer_opened-Serves path file req c cache (refused cache') e current = (current, refl, refl)
    answer_opened-Serves path file req c cache broken e current = absurd current

    answer_file-Serves :
        (path : PathName) (req : Request) (c : Connection) (cache : FilesCache)
        → IsCurrent version cache
        → Serves c (answer_file settings fs root path head req c cache)
    unfolding answer_file
    answer_file-Serves path req c cache current =
        elim (Option-cases (file_of settings fs root path)) [
          | inl nothing ↦ rw (answer_file, nothing) (current, refl, refl)
          | inr (file, found) ↦
              rw (answer_file, found)
                (answer_opened-Serves path file req c cache (open_file fs file cache) found
                  (open_file-OpensCurrent version fs file cache timed current))
        ]

    -- What a session of the plugin does, whatever request it reads, whatever arrives meanwhile and
    -- whatever path is asked for. Where the read of the request throws, the session throws the
    -- same, and where the read waits, it waits; both with the cache of files as it was. Once the
    -- request is read, either the session sends a response and returns, and then what it sends,
    -- behind what went out before, is the response to a file whose path is lexically under the
    -- root, with the length of what that path has at the time that it was written last, followed by
    -- just that, or by nothing for HEAD; or it throws a 404, with nothing more sent. The cache of
    -- files stays one whose entries are what their files had at their times. The root is absolute
    -- and written without a slash at the end, the default file does not go up, `canonical` leaves
    -- no dot-dot, and the contents of a file change with its time of writing only. Of where links
    -- lead it says nothing.
    pub static_content_session-AfterRead :
        (path : PathName) (req : Request) (c : Connection) (cache : FilesCache)
        → IsCurrent version cache
        → AfterRead cache
            (receive req c)
            (static_content_session settings fs root path head req c cache)
    unfolding static_content_session
    static_content_session-AfterRead path req c cache current = elim (Ran-cases (receive req c)) [
      | inl (req', c', e) ↦
          rw (e, static_content_session) (answer_file-Serves path req' c' cache current)
      | inr (inl (c', e)) ↦ rw (e, static_content_session) (refl, refl)
      | inr (inr (failure, c', e)) ↦ rw (e, static_content_session) (refl, refl)
    ]
