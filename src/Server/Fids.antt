-- ===== src/Server/Fids.antt =====
-- The fids of the connections: what set and delete do to them, and what OnRename does.
use ollie_9p.Prelude.{
  ℕ, Bytes, bytes_eq, nat_eq, nat_beq_iff, ◌==◌, false, Option, none, some, [], ◌∷◌, ◌++◌,
  if◌then◌else◌, ◌≡◌, refl, ◌∙◌, ap, arith, codes, Option-cases, inl, inr, append_assoc,
  drop-append_length, Comparable,
}
use ollie_9p.Prelude.Outcome.{ok}
use ollie_9p.Prelude.Dict
use ollie_9p.Prelude.Dict.{Dict, lookup-insert, lookup-erase}
use ollie_9p.Agent.{AgentCore}
use ollie_9p.Path.{qid_path}
use ollie_9p.Server.{
  Fid, ConnState, World, ServerConfig, get_fid, update_fids, set_fid, delete_fid, rename_fid,
  map_values, rename_fids, session_config,
}
use ollie_9p.Session.{Session}
use ollie_9p.SessionStore.{rename_session}
use ollie_9p.SessionStore.Table.{find, rename_session_moves}
use ollie_9p.Text.Laws.{has_prefix-append}

abbrev pub map_found {ℓ} : {V : Type ℓ} → (V → V) → Option V → Option V
map_found f none = none
map_found f (some v) = some (f v)

pub lookup-map_values {κ ℓ} :
    {K : Type κ} {V : Type ℓ} ⦃e : Comparable K⦄ (f : V → V) (k : K) (d : Dict K V)
    → Dict.lookup k (map_values f d) ≡ map_found f (Dict.lookup k d)
unfolding Dict.lookup map_values
lookup-map_values f k [] = refl
lookup-map_values f k ((j, v) ∷ d) = ground (arith, lookup-map_values f k d)

module _ {C : AgentCore} {D : Type 0} where
  -- Setting a fid of an open connection changes that fid of that connection and no other.
  pub get_fid-set_fid :
      (conn fid c j : ℕ) (f : Fid) (w : World C D) (cs : ConnState)
      → Dict.lookup conn w.env.conns ≡ some cs
      → get_fid c j (set_fid conn fid f w)
        ≡ (if conn == c then if fid == j then some f else get_fid c j w else get_fid c j w)
  unfolding get_fid update_fids
  get_fid-set_fid conn fid c j f w cs h = ground (
    arith,
    lookup-insert c conn (record cs { fids = Dict.insert fid f cs.fids }) w.env.conns,
    lookup-insert j fid f cs.fids,
    nat_beq_iff conn c,
  )

  pub get_fid-delete_fid :
      (conn fid c j : ℕ) (w : World C D) (cs : ConnState)
      → Dict.lookup conn w.env.conns ≡ some cs
      → get_fid c j (delete_fid conn fid w)
        ≡ (if conn == c then if fid == j then none else get_fid c j w else get_fid c j w)
  unfolding get_fid update_fids
  get_fid-delete_fid conn fid c j w cs h = ground (
    arith,
    lookup-insert c conn (record cs { fids = Dict.erase fid cs.fids }) w.env.conns,
    lookup-erase j fid cs.fids,
    nat_beq_iff conn c,
  )

-- A fid below the old path comes to be at the same place below the new one, with its qid.
rename_fid-below :
    (old new rest : Bytes) (f : Fid)
    → f.path ≡ old ++ (codes "/" ++ rest)
    → rename_fid old new f ≡ record f {
      path = new ++ (codes "/" ++ rest);
      qid = record f.qid { path = qid_path (new ++ (codes "/" ++ rest)) };
    }
unfolding rename_fid
rename_fid-below old new rest f e = ground (
  arith,
  has_prefix-append (old ++ codes "/") rest,
  append_assoc old (codes "/") rest,
  drop-append_length old (codes "/" ++ rest),
)

module _ {C : AgentCore} {D : Type 0} where
  get_fid-rename_fids :
      (old_id new_id : Bytes) (conn fid : ℕ) (w w' : World C D) (f : Fid)
      → w'.env ≡ rename_fids old_id new_id w.env
      → get_fid conn fid w ≡ some f
      → get_fid conn fid w' ≡ some (rename_fid (codes "/s/" ++ old_id) (codes "/s/" ++ new_id) f)
  unfolding get_fid rename_fids
  get_fid-rename_fids old_id new_id conn fid w w' f e h =
      let move : Fid → Fid = rename_fid (codes "/s/" ++ old_id) (codes "/s/" ++ new_id) in
      let move_all : ConnState → ConnState = λ cs. record cs { fids = map_values move cs.fids } in
      elim (Option-cases (Dict.lookup conn w.env.conns)) [
        | inl gone ↦ ground arith
        | inr (cs, there) ↦
            ground (
              arith,
              lookup-map_values move_all conn w.env.conns,
              lookup-map_values move fid cs.fids,
            )
      ]

  -- A rename of a session that is there, to an ID that is free, while its agent is idle and
  -- takes the ID, takes the fids along: whatever connection a fid is of, if its path is below
  -- the directory of the session, it is at the same file of the new directory afterwards, with
  -- the qid of that path.
  pub rename_session-fids :
      (cfg : ServerConfig C D) (old_id new_id : Bytes) (w : World C D) (sess : Session C)
      (core : C.K)
      → find old_id w ≡ some sess
      → find new_id w ≡ none
      → C.is_running sess.core ≡ false
      → C.set_session_id new_id sess.core ≡ (ok tt, core)
      → (conn fid : ℕ) (f : Fid) (name : Bytes) → get_fid conn fid w ≡ some f
      → f.path ≡ (codes "/s/" ++ old_id) ++ (codes "/" ++ name)
      → get_fid conn fid (rename_session (session_config cfg) old_id new_id w).1
        ≡ some (record f {
          path = (codes "/s/" ++ new_id) ++ (codes "/" ++ name);
          qid = record f.qid { path = qid_path ((codes "/s/" ++ new_id) ++ (codes "/" ++ name)) };
        })
  rename_session-fids cfg old_id new_id w sess core found free idle renamed conn fid f name h
        below =
      let moves =
        rename_session_moves (session_config cfg) old_id new_id w sess core found free idle
          renamed in
      get_fid-rename_fids old_id new_id conn fid w _ f moves.6 h
      ∙ ap (λ (g : Fid). some g)
          (rename_fid-below (codes "/s/" ++ old_id) (codes "/s/" ++ new_id) name f below)
