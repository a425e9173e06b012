-- ===== src/Tests/Calls.antt =====
-- The theorems on bounds, on calls of createSession that overlap, on New, makeStat and ctl, at a
-- small server.
use ollie_9p.Prelude.{
  ◌+◌, ◌≤◌, Bytes, bytes_beq, bytes_eq, List, [], ◌∷◌, codes, none, some, ◌≡◌, ◌&&◌, ltb, refl,
  arith, length, nat_eq, ◌==◌, if◌then◌else◌,
}
use ollie_9p.Prelude.Outcome.{ok, err, fail, pure}
use ollie_9p.Prelude.Dict
use ollie_9p.Prelude.Dict.{lookup-nil}
use ollie_9p.Server.{World, tclunk, topen, rclunk, on_disk, delete_fid, get_fid, qt_dir}
use ollie_9p.Server.Dirs.Page.{page_at}
use ollie_9p.Server.Dirs.Page.Laws.{page_at-bound}
use ollie_9p.Server.Handle.{handle}
use ollie_9p.Server.Read.{finished}
use ollie_9p.Server.Read.Bounds.{read-bound}
use ollie_9p.Server.Read.{read, read_file, is_session_store_file}
use ollie_9p.Server.Buffer.{read_slice}
use ollie_9p.Text.{has_prefix, trim_prefix, split_n, cut, cut_prefix, contains, join}
use ollie_9p.SessionStore.Entries.{session_store_file_mode}
use ollie_9p.Server.Walk.{or_rerror, qid_of}
use ollie_9p.Server.Write.{is_writable}
use ollie_9p.Server.Upload.{send}
use ollie_9p.Server.New.{Platform, new_server, default_mem_dir}
use ollie_9p.Server.New.Laws.{upload-written}
use ollie_9p.Path.{qid_path, path_base}
use ollie_9p.Server.Dirs.{dm_dir}
use ollie_9p.Server.Lookup.{PathType, dir, path_type, root_of}
use ollie_9p.Server.Stat.{make_stat, is_dir_type, dir_mode}
use ollie_9p.Server.Stat.Laws.{make_stat-agrees, has_dm_dir}
use ollie_9p.Path.Clean.{filepath_join}
use ollie_9p.Store.Os.{Os}
use ollie_9p.Text.Space.{trim_space, fields}
use ollie_9p.Session.Ctl.{SessionHelper, handle_ctl}
use ollie_9p.Session.Ctl.Panics.{NeverPanics, is_panic, asks_rename, handle_ctl-panic}
use ollie_9p.SessionStore.{SessionStore}
use ollie_9p.SessionStore.Create.{NewOptions, build_core, read_options}
use ollie_9p.SessionStore.Create.Race.{asked, advance, asks, goes_on, moves, rests}
use ollie_9p.SessionStore.Create.Race.Laws.{
  second_call_wins, Moves-IsKeyed, both_asked, both_built, both_entered,
}
use ollie_9p.SessionStore.Table.{find, IsKeyed}
use ollie_9p.Session.{Session, new_session}
use ollie_9p.Store.Memory.{MemoryStore, get, set}
use ollie_9p.Tests.World.{
  echo_core, settings, session_settings, world, connection, session_of, fid_at,
}

page_at-bound_example : length (page_at 0 3 (2 ∷ 0 ∷ 8 ∷ 9 ∷ [])) ≤ 3
page_at-bound_example = page_at-bound 0 3 (2 ∷ 0 ∷ 8 ∷ 9 ∷ []) (omega arith)

abbrev listing : World echo_core MemoryStore
listing = record world {
  env = record world.env {
    conns = (7, record { fids = (2, fid_at (codes "/backends")) ∷ []; pending = [] }) ∷ [];
  };
}

read-bound_example : length (codes "\n") ≤ 4
unfolding read get_fid Dict.lookup is_session_store_file cut_prefix contains bytes_beq read_file
    read_slice join session_store_file_mode
read-bound_example =
    read-bound settings finished 7 2 0 4 listing (fid_at (codes "/backends")) (codes "\n") refl
      (λ e. absurd (omega (arith, e))) refl

abbrev args : List Bytes
args = codes "name=one" ∷ codes "cwd=/tmp" ∷ []

abbrev no_sessions : SessionStore echo_core (Unit {0})
no_sessions = record { sessions = []; retired = []; env = tt }

Moves-IsKeyed_example : IsKeyed (advance session_settings (asked args) no_sessions).1
Moves-IsKeyed_example =
    Moves-IsKeyed session_settings (record { table = no_sessions; calls = [] })
      (record {
        table = (advance session_settings (asked args) no_sessions).1;
        calls = (advance session_settings (asked args) no_sessions).0 ∷ [];
      })
      (moves _ _ _ (asks args) (moves _ _ _ (goes_on [] (asked args) [] refl) (rests _)))
      (record {
        own_id = λ id sess h. absurd (ground (arith, lookup-nil {V = Session echo_core} id));
      })

abbrev options : NewOptions
options = record {
  name = codes "one";
  backend = [];
  model = [];
  agent = codes "default";
  cwd = codes "/tmp";
}

second_call_wins_example :
    (find (codes "one") (
        both_entered session_settings (codes "one") (codes "one") (codes "one") (
          both_built session_settings options options
            (codes "one")
            (both_asked session_settings args args no_sessions)))
      ≡ some (new_session (codes "one") (codes "one")))
    × ((both_entered session_settings (codes "one") (codes "one") (codes "one") (
          both_built session_settings options options
            (codes "one")
            (both_asked session_settings args args no_sessions))).retired
        ≡ [])
unfolding advance read_options cut bytes_beq Dict.lookup build_core
second_call_wins_example =
    second_call_wins session_settings args args options options (codes "one") (codes "one")
      (codes "one") no_sessions refl refl refl refl

-- A disk that is a memory store
abbrev pub memory_disk : Os
memory_disk = record {
  Disk = MemoryStore;
  stat = λ _. fail (codes "no file");
  read_dir = λ _ m. (([], none), m);
  read_file = λ name m. (ok (get name m), m);
  write_file = λ name content perm m. (ok tt, set name content m);
  mkdir_all = λ _ _. pure tt;
  remove = λ _. pure tt;
  remove_all = λ _. pure tt;
  rename = λ _ _. pure tt;
  environ = [];
}

abbrev pub platform : Platform echo_core MemoryStore
platform = record {
  getenv = λ _. [];
  cfg_dir = codes "/cfg";
  data_dir = codes "/data";
  prompts_dir = codes "/prompts";
  plugins_path = codes "/plugins";
  tools_path = codes "/tools";
  parse_front_matter = λ _ _ _. none;
  backends = [];
  timestamp = λ _. codes "now";
  dir_bytes = λ _. ok [];
  unmarshal_name = λ _. err (codes "bad stat");
  sessions = session_settings;
}

upload-written_example :
    let path = filepath_join (default_mem_dir memory_disk platform) (codes "note") in
    handle (new_server memory_disk platform) finished 7 (tclunk 1) (
      send
        (new_server memory_disk platform)
        finished
        7
        1
        0
        (codes "one " ∷ codes "two\n" ∷ [])
        (handle (new_server memory_disk platform) finished 7 (topen 1 1) world).1)
    ≡ or_rerror
        (on_disk (λ m. (ok tt, set path (trim_space (codes "one two\n")) m)) (delete_fid 7 1 world))
        (λ _ w'. (ok rclunk, w'))
unfolding Dict.lookup contains is_writable
upload-written_example =
    upload-written memory_disk platform finished 7 1 1 (codes "note")
      (codes "one " ∷ codes "two\n" ∷ []) (fid_at (codes "/m/note")) world connection refl refl refl
      refl refl refl (omega arith)

make_stat-agrees_example :
    (kind : PathType) × ((path_type settings (codes "/m") world).0 ≡ ok kind)
    × (qt_dir ≡ (qid_of kind (codes "/m")).kind)
    × (qid_path (codes "/m") ≡ qid_path (codes "/m"))
    × (has_dm_dir (dm_dir + 0o755) ≡ is_dir_type settings kind)
    × (codes "m" ≡ (if codes "/m" == codes "/" then codes "." else path_base (codes "/m")))
unfolding make_stat path_type root_of bytes_beq dir_mode path_base split_n cut trim_prefix
    cut_prefix has_prefix
make_stat-agrees_example =
    make_stat-agrees settings (codes "/m") world
      (record {
        qid = qid_of dir (codes "/m");
        mode = dm_dir + 0o755;
        atime = 0;
        mtime = 0;
        size = 0;
        name = codes "m";
      })
      refl

-- A session on its own, with callbacks that do nothing
abbrev helper : SessionHelper echo_core (Session echo_core)
helper = record {
  on_sess = λ act. act;
  kill = pure tt;
  rename = λ _. pure tt;
  save_transcript = λ _. pure tt;
}

helper-NeverPanics : NeverPanics helper
helper-NeverPanics = record {
  on_sess = λ act s calm. calm s;
  kills = λ s. refl;
  renames = λ id s. refl;
  saves = λ content s. refl;
}

handle_ctl-panic_example :
    is_panic (handle_ctl helper (codes "rn") (session_of (codes "one"))).0
    ≡ (asks_rename (fields (codes "rn")) && ltb (length (codes "rn")) 3)
handle_ctl-panic_example =
    handle_ctl-panic helper helper-NeverPanics (codes "rn") (session_of (codes "one"))
