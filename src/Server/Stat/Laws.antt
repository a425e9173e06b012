-- ===== src/Server/Stat/Laws.antt =====
-- What a stat says agrees with the type of the path, which walk goes by.
use ollie_9p.Prelude.{
  ℕ, ◌≤◌, ◌<◌, ◌+◌, Bytes, bytes_eq, nat_eq, ◌==◌, ◌&&◌, not, Bool, List, [], ◌∷◌, codes, ◌≡◌, refl,
  ◌∙◌, ap, arith, Option-cases, inl, inr, leb, if◌then◌else◌,
}
use ollie_9p.Prelude.Dict
use ollie_9p.Prelude.Keeps.{either}
use ollie_9p.Prelude.Outcome.{
  Outcome, ok, err, panic, Outcome-cases, gives, fails, panics, continue,
}
use ollie_9p.Agent.{AgentCore}
use ollie_9p.Path.{path_base, qid_path}
use ollie_9p.Server.{World, ServerConfig, Dir, on_disk, session_config}
use ollie_9p.Server.Dirs.{dm_dir}
use ollie_9p.Server.Lookup.{PathType, dir, file, absent, path_type}
use ollie_9p.Server.Stat.{
  dir_mode, file_mode, path_mode, or_zero, size_of_info, times_of_info, size_of_content, log_stat,
  session_file_stat, length_stat, mem_stat, known_length, is_dir_type, stat_of_type, make_stat,
}
use ollie_9p.Server.Walk.{qid_of}
use ollie_9p.SessionStore.Entries.{open_store, session_store_file_mode}
use ollie_9p.Store.{FileInfo}
use ollie_9p.Store.RunFile
use ollie_9p.Text.{has_prefix, trim_prefix, split_n}

-- Only sizes, times and the version differ.
pub record SameFile (d d' : Dir) : Type 0 where
  pub kind : d'.qid.kind ≡ d.qid.kind
  pub path : d'.qid.path ≡ d.qid.path
  pub mode : d'.mode ≡ d.mode
  pub name : d'.name ≡ d.name

SameFile-refl : (d : Dir) → SameFile d d
SameFile-refl d = record { kind = refl; path = refl; mode = refl; name = refl }

SameFile-trans : (d e f : Dir) → SameFile d e → SameFile e f → SameFile d f
SameFile-trans d e f h h' = record {
  kind = h'.kind ∙ h.kind;
  path = h'.path ∙ h.path;
  mode = h'.mode ∙ h.mode;
  name = h'.name ∙ h.name;
}

-- A stat that is returned is that of the same file.
pub data Refines {ℓ} {W : Type ℓ} (d : Dir) (r : Outcome Dir × W) : Type 0 where
  refines : ((d' : Dir) → r.0 ≡ ok d' → SameFile d d') → Refines d r

module _ {ℓ} {W : Type ℓ} (d : Dir) where
  Refines-ok : (d' : Dir) (w : W) → SameFile d d' → Refines d (ok d', w)
  Refines-ok d' w h = refines (λ e e'. let same : d' ≡ e = ground (arith, e') in rw (← same) h)

  Refines-panic : (w : W) → Refines d (panic, w)
  Refines-panic w = refines (λ e e'. absurd (ground (arith, e')))

module _ (P : ℕ → Type 0) where
  dir_mode-any :
      (path : Bytes)
      → P (dm_dir + 0o777)
      → P (dm_dir + 0o755)
      → P (dm_dir + 0o555)
      → P (dir_mode path)
  unfolding dir_mode
  dir_mode-any path h777 h755 h555 = search (either P) depth 24

  path_mode-any :
      (base path : Bytes)
      → P 0o444
      → P 0o555
      → P 0o666
      → P 0o777
      → P (or_zero (session_store_file_mode base))
      → P (path_mode base path)
  unfolding path_mode
  path_mode-any base path h444 h555 h666 h777 table = search (either P) depth 24

  file_mode-any :
      (base path : Bytes)
      → P 0o200
      → P 0o444
      → P 0o666
      → P 0o555
      → P (path_mode base path)
      → P (file_mode base path)
  unfolding file_mode
  file_mode-any base path h200 h444 h666 h555 rest = search (either P) depth 24

table_mode-bound : (base : Bytes) → or_zero (session_store_file_mode base) < dm_dir
unfolding session_store_file_mode Dict.lookup
table_mode-bound base = ground arith

-- A mode with the bit of a directory
abbrev pub has_dm_dir : ℕ → Bool
has_dm_dir mode = leb dm_dir mode

-- The modes have the bit of a directory if the type is that of one.
dir_mode-bound : (path : Bytes) → dm_dir ≤ dir_mode path
dir_mode-bound path = dir_mode-any (λ n. dm_dir ≤ n) path (omega arith) (omega arith) (omega arith)

file_mode-bound : (base path : Bytes) → file_mode base path < dm_dir
file_mode-bound base path =
    let P : ℕ → Type 0 = λ n. n < dm_dir in
    file_mode-any P base path (omega arith) (omega arith) (omega arith) (omega arith) (
      path_mode-any P base path (omega arith) (omega arith) (omega arith) (omega arith)
        (table_mode-bound base))

module _ {ℓ} {W : Type ℓ} (d : Dir) where
  size_of_info-Refines : (r : Outcome FileInfo × W) → Refines d (size_of_info d r)
  size_of_info-Refines (ok info, w) =
      Refines-ok d _ w (record { kind = refl; path = refl; mode = refl; name = refl })
  size_of_info-Refines (err _, w) = Refines-ok d d w (SameFile-refl d)
  size_of_info-Refines (panic, w) = Refines-panic d w

  times_of_info-Refines : (r : Outcome FileInfo × W) → Refines d (times_of_info d r)
  times_of_info-Refines (ok info, w) =
      Refines-ok d _ w (record { kind = refl; path = refl; mode = refl; name = refl })
  times_of_info-Refines (err _, w) = Refines-ok d d w (SameFile-refl d)
  times_of_info-Refines (panic, w) = Refines-panic d w

  size_of_content-Refines : (r : Outcome Bytes × W) → Refines d (size_of_content d r)
  size_of_content-Refines (ok content, w) =
      Refines-ok d _ w (record { kind = refl; path = refl; mode = refl; name = refl })
  size_of_content-Refines (err _, w) = Refines-ok d d w (SameFile-refl d)
  size_of_content-Refines (panic, w) = Refines-panic d w

module _ {C : AgentCore} {D : Type 0} where
  log_stat-SameFile :
      (parts : List Bytes) (d : Dir) (w : World C D) → SameFile d (log_stat parts d w)
  unfolding log_stat
  log_stat-SameFile (root ∷ id ∷ name ∷ []) d w = elim (Option-cases (Dict.lookup id w.sessions)) [
    | inl gone ↦ rw (gone, log_stat) (SameFile-refl d)
    | inr (sess, found) ↦
        rw (found, log_stat)
          (either (SameFile d) (root == codes "s" && d.name == codes "chat") _ _
            (record { kind = refl; path = refl; mode = refl; name = refl }) (SameFile-refl d))
  ]
  log_stat-SameFile _ d w = SameFile-refl d

module _ {C : AgentCore} {D : Type 0} (cfg : ServerConfig C D) where
  session_file_stat-Refines :
      (parts : List Bytes) (d : Dir) (w : World C D) → Refines d (session_file_stat cfg parts d w)
  unfolding session_file_stat
  session_file_stat-Refines (id ∷ name ∷ []) d w =
      elim (Outcome-cases (open_store (session_config cfg) id w)) [
        | gives files e ↦
            rw (e, session_file_stat) (size_of_info-Refines d (RunFile.stat files name w))
        | fails m e ↦ rw (e, session_file_stat) (Refines-ok d d w (SameFile-refl d))
        | panics e ↦ rw (e, session_file_stat) (Refines-panic d w)
      ]
  session_file_stat-Refines _ d w = Refines-ok d d w (SameFile-refl d)

  pub length_stat-any :
      (P : Outcome Dir × World C D → Type 0) (path : Bytes) (d : Dir) (w : World C D)
      → P (ok d, w)
      → ((n : ℕ) → P (ok (record d { size = n }), w))
      → ((r : Outcome FileInfo × World C D) → P (size_of_info d r))
      → ((r : Outcome FileInfo × World C D) → P (times_of_info d r))
      → ((r : Outcome Bytes × World C D) → P (size_of_content d r))
      → ((parts : List Bytes) → P (session_file_stat cfg parts d w))
      → P (length_stat cfg path d w)
  unfolding length_stat
  length_stat-any P path d w same sized info times content files = search (either P) depth 24

  length_stat-Refines :
      (path : Bytes) (d : Dir) (w : World C D) → Refines d (length_stat cfg path d w)
  length_stat-Refines path d w =
      length_stat-any (Refines d) path d w (Refines-ok d d w (SameFile-refl d))
        (λ n. Refines-ok d _ w (record { kind = refl; path = refl; mode = refl; name = refl }))
        (size_of_info-Refines d) (times_of_info-Refines d) (size_of_content-Refines d)
        (λ parts. session_file_stat-Refines parts d w)

  known_length-Refines :
      (is_dir : Bool) (path : Bytes) (d : Dir) (w : World C D)
      → Refines d (known_length cfg is_dir path d w)
  unfolding known_length
  known_length-Refines is_dir path d w =
      either (Refines d) (d.size == 0 && not is_dir) _ _ (length_stat-Refines path d w)
        (Refines-ok d d w (SameFile-refl d))

  mem_stat-Refines : (path : Bytes) (d : Dir) (w : World C D) → Refines d (mem_stat cfg path d w)
  unfolding mem_stat
  mem_stat-Refines path d w =
      either (Refines d) (has_prefix path (codes "/m/")) _ _
        (times_of_info-Refines d (on_disk (cfg.mem_store.stat_fn d.name) w))
        (Refines-ok d d w (SameFile-refl d))

  Refines-at :
      (d : Dir) (r : Outcome Dir × World C D) (d' : Dir) → Refines d r → r.0 ≡ ok d' → SameFile d d'
  Refines-at d r d' (refines h) e = h d' e

  -- What makeStat starts from
  abbrev started : Bytes → PathType → Dir
  started path kind = record {
    qid = qid_of kind path;
    mode =
        if is_dir_type cfg kind
        then dir_mode path
        else file_mode (if path == codes "/" then codes "." else path_base path) path;
    atime = 0;
    mtime = 0;
    size = 0;
    name = if path == codes "/" then codes "." else path_base path;
  }

  finish-SameFile :
      (path : Bytes) (is_dir : Bool) (d e : Dir) (r : Outcome Dir) (w : World C D)
      → ((d' : Dir) → r ≡ ok d' → SameFile d d')
      → (continue r (λ d''. known_length cfg is_dir path d'') w).0 ≡ ok e
      → SameFile d e
  finish-SameFile path is_dir d e (ok d') w h e' = SameFile-trans d d' e (h d' refl) (
      Refines-at d' (known_length cfg is_dir path d' w) e (known_length-Refines is_dir path d' w)
        e')
  finish-SameFile path is_dir d e (err m) w h e' = absurd (ground (arith, e'))
  finish-SameFile path is_dir d e panic w h e' = absurd (ground (arith, e'))

  stat_of_type-SameFile :
      (path : Bytes) (kind : PathType) (w : World C D) (e : Dir)
      → (stat_of_type cfg path kind w).0 ≡ ok e
      → SameFile (started path kind) e
  unfolding stat_of_type
  stat_of_type-SameFile path kind w e h =
      let d = started path kind in
      let parts = split_n (trim_prefix path (codes "/")) b'/' 2 in
      let d' : Dir = if has_prefix path (codes "/s/") then log_stat parts d w else d in
      let (r, w') = mem_stat cfg path d' w in
      let before : SameFile d d' =
        either (SameFile d) (has_prefix path (codes "/s/")) _ _ (log_stat-SameFile parts d w)
          (SameFile-refl d) in
      SameFile-trans d d' e before (
        finish-SameFile path (is_dir_type cfg kind) d' e r w'
          (λ x. Refines-at d' (mem_stat cfg path d' w) x (mem_stat-Refines path d' w)) h)

  typed-SameFile :
      (path : Bytes) (r : Outcome PathType) (w : World C D) (d : Dir)
      → (continue r (λ kind. stat_of_type cfg path kind) w).0 ≡ ok d
      → (kind : PathType) × (r ≡ ok kind) × SameFile (started path kind) d
  typed-SameFile path (ok kind) w d h = (kind, refl, stat_of_type-SameFile path kind w d h)
  typed-SameFile path (err m) w d h = absurd (ground (arith, h))
  typed-SameFile path panic w d h = absurd (ground (arith, h))

  started-mode :
      (path : Bytes) (kind : PathType) → has_dm_dir (started path kind).mode ≡ is_dir_type cfg kind
  started-mode path dir = ground (arith, dir_mode-bound path)
  started-mode path file = ground (arith, file_mode-bound (started path file).name path)
  started-mode path absent = ground (arith, file_mode-bound (started path absent).name path)

  -- A stat that is returned has, in its qid, the kind that walk gives for the type of its path and
  -- the number of the path (the version may be another), a mode with the bit of a directory exactly
  -- if the type is that of one, and the last name of the path, or "." for the root.
  pub make_stat-agrees :
      (path : Bytes) (w : World C D) (d : Dir)
      → (make_stat cfg path w).0 ≡ ok d
      → (kind : PathType) × ((path_type cfg path w).0 ≡ ok kind)
        × (d.qid.kind ≡ (qid_of kind path).kind)
        × (d.qid.path ≡ qid_path path)
        × (has_dm_dir d.mode ≡ is_dir_type cfg kind)
        × (d.name ≡ (if path == codes "/" then codes "." else path_base path))
  unfolding make_stat
  make_stat-agrees path w d h =
      let (r, w') = path_type cfg path w in
      let (kind, e, same) = typed-SameFile path r w' d h in
      (kind, e, same.kind, same.path, ap has_dm_dir same.mode ∙ started-mode path kind, same.name)
