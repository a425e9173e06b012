-- ===== src/Server/Walk/Keeps.antt =====
-- attach, walk and open keep the invariant of the server.
use ollie_9p.Prelude.{
  ℕ, Bytes, bytes_eq, bytes_beq, nat_eq, ◌==◌, some, List, [], ◌∷◌, ◌++◌, ◌≡◌, refl, arith, codes,
  length, Option-cases, inl, inr,
}
use ollie_9p.Prelude.Keeps.{Keeps, if-Keeps}
use ollie_9p.Prelude.Outcome.{Outcome, ok, err, panic, Outcome-cases, gives, fails, panics}
use ollie_9p.Agent.{AgentCore}
use ollie_9p.Server.Sound.{IsSound, IsLabelled, set_fid-IsSound}
use ollie_9p.Path.{qid_path}
use ollie_9p.Server.{World, ServerConfig, Fid, new_fid, Qid, Rmsg, get_fid}
use ollie_9p.Server.Lookup.{dir, file, absent, path_type}
use ollie_9p.Server.Lookup.Keeps.{path_type-Keeps}
use ollie_9p.Server.Walk.{
  or_rerror, attach, open_fid, root_qid, Walked, lost, reached, last_qid, next_path, walk_names,
  finish_walk, walk_from, walk, qid_of,
}
use ollie_9p.Server.Walk.Laws.{Route, arrives, misses, goes, walk_names-Route}

pub or_rerror-Keeps {ℓ} :
    {W : Type ℓ} {A : Type 0} (P : W → Type 0) (r : Outcome A) (w : W)
    (k : A → W → Outcome Rmsg × W)
    → P w
    → ((a : A) → P (k a w).1)
    → P (or_rerror (r, w) k).1
or_rerror-Keeps P (ok a) w k h hk = hk a
or_rerror-Keeps P (err e) w k h hk = h
or_rerror-Keeps P panic w k h hk = h

module _ {C : AgentCore} {D : Type 0} where
  -- A fid that is known is labelled.
  pub IsLabelled-get_fid :
      (conn fid : ℕ) (f : Fid) (w : World C D)
      → IsSound w
      → get_fid conn fid w ≡ some f
      → IsLabelled f
  IsLabelled-get_fid conn fid f w h e = h.labelled.labels conn fid f (unfold get_fid in e)

  pub attach-Keeps : (conn fid : ℕ) → Keeps (IsSound {C = C} {D = D}) (attach conn fid)
  unfolding attach bytes_beq
  attach-Keeps conn fid w h =
      set_fid-IsSound conn fid (new_fid (codes "/") root_qid) w (unfold qid_path in refl) h

  pub open_fid-Keeps :
      (conn fid mode : ℕ) → Keeps (IsSound {C = C} {D = D}) (open_fid conn fid mode)
  unfolding open_fid
  open_fid-Keeps conn fid mode w h = elim (Option-cases (get_fid conn fid w)) [
    | inl e ↦ rw (e, open_fid) h
    | inr (f, e) ↦
        rw (e, open_fid)
          (set_fid-IsSound conn fid (record f { mode = mode }) w
            (IsLabelled-get_fid conn fid f w h e) h)
  ]

-- The last qid of a walk is that of the path where it ended.
last_qid-Route :
    {C : AgentCore} {D : Type 0} (cfg : ServerConfig C D) (w : World C D) (names : List Bytes)
    (cur end : Bytes) (q : Qid) (qids : List Qid)
    → q.path ≡ qid_path cur
    → Route cfg w cur names qids end
    → (last_qid q qids).path ≡ qid_path end
last_qid-Route cfg w [] cur _ q _ e (arrives _ _) = e
last_qid-Route cfg w (name ∷ names) cur _ q _ e (misses _ _ _ _ _ leads gone) = e
last_qid-Route cfg w (name ∷ names) cur end q _ e
      (goes _ _ _ next _ _ qids kind leads found there r) =
    last_qid-Route cfg (path_type cfg next w).1 names next end (qid_of kind next) qids refl r

module _ {C : AgentCore} {D : Type 0} (cfg : ServerConfig C D) where
  walk_names-Keeps :
      (names : List Bytes) (cur : Bytes) (qids : List Qid)
      → Keeps IsSound (walk_names cfg names cur qids)
  unfolding walk_names
  walk_names-Keeps [] cur qids w h = h
  walk_names-Keeps (name ∷ names) cur qids w h = elim (Outcome-cases (next_path cur name)) [
    | fails m e ↦ rw (e, walk_names) h
    | panics e ↦ rw (e, walk_names) h
    | gives next e ↦
        let h' : IsSound (path_type cfg next w).1 = path_type-Keeps cfg next w h in
        elim (Outcome-cases (path_type cfg next w).0) [
          | fails m e' ↦ rw (e, walk_names) (rw (e', walk_names) h')
          | panics e' ↦ rw (e, walk_names) (rw (e', walk_names) h')
          | gives absent e' ↦ rw (e, walk_names) (rw (e', walk_names) h')
          | gives dir e' ↦
              rw (e, walk_names)
                (rw (e', walk_names)
                  (walk_names-Keeps names next (qids ++ (qid_of dir next ∷ []))
                    (path_type cfg next w).1 h'))
          | gives file e' ↦
              rw (e, walk_names)
                (rw (e', walk_names)
                  (walk_names-Keeps names next (qids ++ (qid_of file next ∷ []))
                    (path_type cfg next w).1 h'))
        ]
  ]

  finish_walk-Keeps :
      (conn newfid : ℕ) (f : Fid) (wanted : ℕ) (walked : Walked) (w : World C D)
      → ((qids : List Qid) (cur : Bytes)
          → walked ≡ reached qids cur
          → (last_qid f.qid qids).path ≡ qid_path cur)
      → IsSound w
      → IsSound (finish_walk cfg conn newfid f wanted walked w).1
  unfolding finish_walk
  finish_walk-Keeps conn newfid f wanted (lost message) w label h = h
  finish_walk-Keeps conn newfid f wanted (reached qids cur) w label h =
      if-Keeps IsSound (length qids == wanted) _ _
        (set_fid-IsSound conn newfid (new_fid cur (last_qid f.qid qids)) w (label qids cur refl) h)
        h

  walk_from-Keeps :
      (conn newfid : ℕ) (f : Fid) (names : List Bytes) (w : World C D)
      → IsLabelled f
      → IsSound w
      → IsSound (walk_from cfg conn newfid f names w).1
  unfolding walk_from
  walk_from-Keeps conn newfid f [] w l h = set_fid-IsSound conn newfid (new_fid f.path f.qid) w l h
  walk_from-Keeps conn newfid f (name ∷ names) w l h =
      let h' : IsSound (walk_names cfg (name ∷ names) f.path [] w).1 =
        walk_names-Keeps (name ∷ names) f.path [] w h in
      elim (Outcome-cases (walk_names cfg (name ∷ names) f.path [] w).0) [
        | fails m e ↦ rw e h'
        | panics e ↦ rw e h'
        | gives walked e ↦ rw e (
            finish_walk-Keeps conn newfid f (length (name ∷ names)) walked
              (walk_names cfg (name ∷ names) f.path [] w).1
              (λ qids cur same.
                let (more, all, route) =
                  walk_names-Route cfg (name ∷ names) f.path [] w qids cur (ground arith) in
                rw all (last_qid-Route cfg w (name ∷ names) f.path cur f.qid more l route))
              h')
      ]

  pub walk-Keeps :
      (conn fid newfid : ℕ) (names : List Bytes) → Keeps IsSound (walk cfg conn fid newfid names)
  unfolding walk
  walk-Keeps conn fid newfid names w h = elim (Option-cases (get_fid conn fid w)) [
    | inl e ↦ rw (e, walk) h
    | inr (f, e) ↦
        rw (e, walk) (walk_from-Keeps conn newfid f names w (IsLabelled-get_fid conn fid f w h e) h)
  ]
