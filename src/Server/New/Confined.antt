-- ===== src/Server/New/Confined.antt =====
-- Where a Tcreate in a server that New has made puts its file.
use ollie_9p.Prelude.{
  ℕ, nat_eq, Bytes, bytes_eq, bytes_beq, List, [], ◌∷◌, ◌++◌, ◌≡◌, refl, ap, ◌∙◌, codes, false,
  some,
}
use ollie_9p.Prelude.Outcome.{Act, ◌>>◌}
use ollie_9p.Prelude.Dict
use ollie_9p.Agent.{AgentCore}
use ollie_9p.Path.Clean.{filepath_join, filepath_dir}
use ollie_9p.Path.Clean.Laws.{
  IsPlain, AllPlain, rooted, filepath_join-plain, filepath_join-up, filepath_dir-rooted,
}
use ollie_9p.Server.{Fid, Rmsg, ConnState, World, tcreate, on_disk, get_fid}
use ollie_9p.Server.Create.{asks_dir, move_fid, create_file, create}
use ollie_9p.Server.Handle.{handle}
use ollie_9p.Server.Lookup.{file}
use ollie_9p.Server.New.{Platform, new_server, default_mem_dir, default_tmp_dir}
use ollie_9p.Server.Read.{Race}
use ollie_9p.Server.Walk.{or_rerror}
use ollie_9p.Store.Flat.{new_flat_dir, write_path}
use ollie_9p.Store.Os.{Os}

-- The directories over a flat directory in which files can be made
pub data Writable : Type 0 where
  agents memory tmp : Writable

abbrev pub served_at : Writable → Bytes
served_at agents = codes "/a"
served_at memory = codes "/m"
served_at tmp = codes "/tmp"

abbrev pub perm_of : Writable → ℕ
perm_of agents = 0o644
perm_of memory = 0o644
perm_of tmp = 0o600

module _ {C : AgentCore} (os : Os) (platform : Platform C os.Disk) where
  abbrev pub dir_of : Writable → Bytes
  dir_of agents = platform.cfg_dir ++ codes "/agents"
  dir_of memory = default_mem_dir os platform
  dir_of tmp = default_tmp_dir os platform

  create_file-flat :
      (place : Writable) (name : Bytes) (w : World C os.Disk)
      → create_file (new_server os platform) (served_at place) name w
        ≡ on_disk (write_path os (filepath_join (dir_of place) name) (perm_of place) []) w
  unfolding create_file new_server new_flat_dir bytes_beq
  create_file-flat agents name w = refl
  create_file-flat memory name w = refl
  create_file-flat tmp name w = refl

  -- An empty file is written, its directory made if need be, and the fid moves to it.
  abbrev pub made_at :
      Writable → Bytes → Bytes → ℕ → ℕ → Fid → Bytes → ℕ → Act (World C os.Disk) Rmsg
  made_at place dir path conn fid f name mode w =
      or_rerror (on_disk (os.mkdir_all dir 0o755 >> os.write_file path [] (perm_of place)) w)
        (λ _. move_fid (new_server os platform) conn fid f file name mode)

  module _ (race : Race) (conn fid : ℕ) (perm mode : ℕ) (place : Writable) (f : Fid)
      (w : World C os.Disk) (cs : ConnState) (online : Dict.lookup conn w.env.conns ≡ some cs)
      (known : Dict.lookup fid cs.fids ≡ some f) (here : f.path ≡ served_at place)
      (no_dir : asks_dir perm ≡ false) where
    create-flat :
        (name : Bytes)
        → let path = filepath_join (dir_of place) name in
          handle (new_server os platform) race conn (tcreate fid name perm mode) w
          ≡ made_at place (filepath_dir path) path conn fid f name mode w
    unfolding handle create get_fid write_path
    create-flat name =
        rw (online, create)
          (rw known (
            rw no_dir (
              ap
                (λ r.
                  or_rerror r (λ _. move_fid (new_server os platform) conn fid f file name mode))
                (ap (λ p. create_file (new_server os platform) p name w) here
                  ∙ create_file-flat place name w))))

    -- With a plain name, a Tcreate in a directory of agents, memories or temporary files, when that
    -- is at an absolute path of plain names, makes this directory if need be and writes an empty
    -- file of the name directly in it. The answer is the error of that, or the fid moves to the
    -- file.
    pub create-stays :
        (d : Bytes) (ds : List Bytes) (name : Bytes)
        → dir_of place ≡ rooted (d ∷ ds)
        → AllPlain (d ∷ ds)
        → IsPlain name
        → handle (new_server os platform) race conn (tcreate fid name perm mode) w
          ≡ made_at place (rooted (d ∷ ds)) (rooted ((d ∷ ds) ++ name ∷ [])) conn fid f name mode w
    create-stays d ds name at h k =
        create-flat name
        ∙ ap (λ path. made_at place (filepath_dir path) path conn fid f name mode w)
            (ap (λ dir. filepath_join dir name) at ∙ filepath_join-plain d ds name h k)
        ∙ ap (λ dir. made_at place dir (rooted ((d ∷ ds) ++ name ∷ [])) conn fid f name mode w)
            (filepath_dir-rooted d ds name h k)

    -- With the name "../x", where x is plain, it writes the empty file x beside the directory, that
    -- is, outside of what it serves.
    pub create-escapes :
        (d : Bytes) (ds : List Bytes) (last x : Bytes)
        → dir_of place ≡ rooted ((d ∷ ds) ++ last ∷ [])
        → AllPlain (d ∷ ds)
        → IsPlain last
        → IsPlain x
        → handle (new_server os platform) race conn (tcreate fid (codes "../" ++ x) perm mode) w
          ≡ made_at place
              (rooted (d ∷ ds))
              (rooted ((d ∷ ds) ++ x ∷ []))
              conn
              fid
              f
              (codes "../" ++ x)
              mode
              w
    create-escapes d ds last x at h k l =
        let name = codes "../" ++ x in
        create-flat name
        ∙ ap (λ path. made_at place (filepath_dir path) path conn fid f name mode w)
            (ap (λ dir. filepath_join dir name) at ∙ filepath_join-up d ds last x h k l)
        ∙ ap (λ dir. made_at place dir (rooted ((d ∷ ds) ++ x ∷ [])) conn fid f name mode w)
            (filepath_dir-rooted d ds x h l)
