-- ===== src/Server/Walk.antt =====
-- attach, walk and open of server.go.
pub mod Laws
pub mod Keeps
pub mod Answers
use ollie_9p.Prelude.{
  ℕ, ◌+◌, ◌/◌, ◌%◌, ◌^◌, Bytes, bytes_eq, ◌==◌, nat_eq, ◌||◌, Bool, true, false, Option, none, some,
  List, [], ◌∷◌, ◌++◌, if◌then◌else◌, codes, drop, length,
}
use ollie_9p.Prelude.Outcome.{Outcome, ok, err, panic, Act, pure, lift, modify, ◌>>=◌, ◌>>◌}
use ollie_9p.Agent.{AgentCore}
use ollie_9p.Path.{path_parent, path_join, qid_path}
use ollie_9p.Server.{
  Qid, qt_dir, qt_file, Fid, new_fid, Rmsg, rerror, rattach, rwalk, ropen, rcreate, World,
  ServerConfig, on_disk, get_fid, set_fid,
}
use ollie_9p.Server.Lookup.{PathType, dir, file, absent, path_type}
use ollie_9p.Text.{has_prefix, trim_prefix}

abbrev pub root_qid : Qid
root_qid = record { kind = qt_dir; vers = 0; path = 0 }

abbrev pub bad_fid : Rmsg
bad_fid = rerror (codes "bad fid")

-- `if err := ...; err != nil { return errFcall(fc, err.Error()) }`
abbrev pub or_rerror {ℓ} :
    {W : Type ℓ} {A : Type 0} → Outcome A × W → (A → W → Outcome Rmsg × W) → Outcome Rmsg × W
or_rerror (ok a, w) k = k a w
or_rerror (err e, w) k = (ok (rerror e), w)
or_rerror (panic, w) k = (panic, w)

abbrev kind_of : PathType → ℕ
kind_of dir = qt_dir
kind_of file = qt_file
kind_of absent = qt_file

-- plan9.Qid{Path: qidPath(path)} with the type of the path
abbrev pub qid_of : PathType → Bytes → Qid
qid_of kind path = record { kind = kind_of kind; vers = 0; path = qid_path path }

-- What the loop of walk comes to: nothing found at the first name, or the qids so far with the path
-- of the last.
pub data Walked : Type 0 where
  lost : Bytes → Walked
  reached : List Qid → Bytes → Walked

abbrev lost_at : Bytes → List Qid → Bytes → Walked
lost_at name [] cur = lost (name ++ codes ": file not found")
lost_at name (q ∷ qids) cur = reached (q ∷ qids) cur

abbrev next_path : Bytes → Bytes → Outcome Bytes
next_path cur name = if name == codes ".." then path_parent cur else ok (path_join cur name)

abbrev last_qid : Qid → List Qid → Qid
last_qid q [] = q
last_qid q (r ∷ qids) = last_qid r qids

module _ {C : AgentCore} {D : Type 0} where
  unfoldable pub attach : ℕ → ℕ → Act (World C D) Rmsg
  attach conn fid w = (ok (rattach root_qid), set_fid conn fid (new_fid (codes "/") root_qid) w)

  unfoldable pub open_fid : ℕ → ℕ → ℕ → Act (World C D) Rmsg
  open_fid conn fid mode w = elim (get_fid conn fid w) [
    | none ↦ (ok bad_fid, w)
    | some f ↦ (ok (ropen f.qid), set_fid conn fid (record f { mode = mode }) w)
  ]

module _ {C : AgentCore} {D : Type 0} (cfg : ServerConfig C D) where
  unfoldable pub walk_names : List Bytes → Bytes → List Qid → Act (World C D) Walked
  walk_names [] cur qids w = (ok (reached qids cur), w)
  walk_names (name ∷ names) cur qids w = elim (next_path cur name) [
    | panic ↦ (panic, w)
    | err e ↦ (err e, w)
    | ok next ↦
        let (kind, w') = path_type cfg next w in
        elim kind [
          | panic ↦ (panic, w')
          | err e ↦ (err e, w')
          | ok absent ↦ (ok (lost_at name qids cur), w')
          | ok dir ↦ walk_names names next (qids ++ (qid_of dir next ∷ [])) w'
          | ok file ↦ walk_names names next (qids ++ (qid_of file next ∷ [])) w'
        ]
  ]

  -- The new fid is set only if all names were walked.
  finish_walk : ℕ → ℕ → Fid → ℕ → Walked → Act (World C D) Rmsg
  finish_walk conn newfid f wanted (lost message) w = (ok (rerror message), w)
  finish_walk conn newfid f wanted (reached qids cur) w =
      if length qids == wanted
      then (ok (rwalk qids), set_fid conn newfid (new_fid cur (last_qid f.qid qids)) w)
      else (ok (rwalk qids), w)

  walk_from : ℕ → ℕ → Fid → List Bytes → Act (World C D) Rmsg
  unfolding finish_walk
  walk_from conn newfid f [] w = (ok (rwalk []), set_fid conn newfid (new_fid f.path f.qid) w)
  walk_from conn newfid f (name ∷ names) w =
      (do
        walked ← walk_names (name ∷ names) f.path []
        finish_walk conn newfid f (length (name ∷ names)) walked)
        w

  unfoldable pub walk : ℕ → ℕ → ℕ → List Bytes → Act (World C D) Rmsg
  unfolding walk_from walk_names
  walk conn fid newfid wname w = elim (get_fid conn fid w) [
    | none ↦ (ok bad_fid, w)
    | some f ↦ walk_from conn newfid f wname w
  ]
