-- ===== src/Server/Walk/Laws.antt =====
-- What a walk gives: the qids, and the path of the last.
use ollie_9p.Prelude.{
  Bytes, bytes_eq, bytes_beq_iff, ◌==◌, Bool-cases, inl, inr, List, [], ◌∷◌, ◌++◌, ◌≡◌, ◌≢◌, sym,
  ◌∙◌, arith, append_assoc, append-nil, codes,
}
use ollie_9p.Prelude.Outcome.{Outcome-cases, gives, fails, panics, ok}
use ollie_9p.Agent.{AgentCore}
use ollie_9p.Path.{path_join, path_parent}
use ollie_9p.Server.{Qid, World, ServerConfig}
use ollie_9p.Server.Lookup.{PathType, dir, file, absent, path_type}
use ollie_9p.Server.Walk.{reached, lost_at, next_path, walk_names, qid_of}

-- Where a name leads from a path: ".." to the parent, another one below it.
pub data Leads (cur name next : Bytes) : Type 0 where
  up : name ≡ codes ".." → path_parent cur ≡ ok next → Leads cur name next
  down : name ≢ codes ".." → next ≡ path_join cur name → Leads cur name next

Leads-next_path : (cur name next : Bytes) → next_path cur name ≡ ok next → Leads cur name next
Leads-next_path cur name next e = elim (Bool-cases (name == codes "..")) [
  | inl h ↦ up ((bytes_beq_iff name (codes "..")).0 h) (ground (arith, e, h))
  | inr h ↦
      down (λ same. absurd (ground (arith, h, same, bytes_beq_iff name (codes ".."))))
        (ground (arith, e, h))
]

module _ {C : AgentCore} {D : Type 0} (cfg : ServerConfig C D) where
  -- A route by names, with the qids of what is found on the way and the path where it ends. Each
  -- name leads to a path at which there is something when the walk comes there; the qid is that of
  -- its type and path. The route ends with the last name, or before one that leads to nothing.
  pub data Route : World C D → Bytes → List Bytes → List Qid → Bytes → Type 0 where
    arrives : (w : World C D) (cur : Bytes) → Route w cur [] [] cur
    misses :
        (w : World C D) (cur name next : Bytes) (names : List Bytes)
        → Leads cur name next
        → (path_type cfg next w).0 ≡ ok absent
        → Route w cur (name ∷ names) [] cur
    goes :
        (w : World C D) (cur name next end : Bytes) (names : List Bytes) (qids : List Qid)
        (kind : PathType)
        → Leads cur name next
        → (path_type cfg next w).0 ≡ ok kind
        → kind ≢ absent
        → Route (path_type cfg next w).1 next names qids end
        → Route w cur (name ∷ names) (qid_of kind next ∷ qids) end

  lost_at-reached :
      (name : Bytes) (qids : List Qid) (cur : Bytes) (all : List Qid) (end : Bytes)
      → lost_at name qids cur ≡ reached all end
      → (all ≡ qids) × (end ≡ cur)
  lost_at-reached name [] cur all end h = ground arith
  lost_at-reached name (q ∷ qids) cur all end h = ground arith

  -- The route of the rest behind the one that was walked before
  Extends : World C D → Bytes → List Bytes → List Qid → List Qid → Bytes → Type 0
  Extends w cur names qids all end =
      (more : List Qid) × (all ≡ qids ++ more) × Route w cur names more end

  Route-step :
      (w : World C D) (name : Bytes) (names : List Bytes) (cur next : Bytes) (qids all : List Qid)
      (kind : PathType) (end : Bytes)
      → next_path cur name ≡ ok next
      → (path_type cfg next w).0 ≡ ok kind
      → kind ≢ absent
      → Extends (path_type cfg next w).1 next names (qids ++ (qid_of kind next ∷ [])) all end
      → Extends w cur (name ∷ names) qids all end
  unfolding Extends
  Route-step w name names cur next qids all kind end e found there (more, same, route) = (
    qid_of kind next ∷ more,
    same ∙ append_assoc qids (qid_of kind next ∷ []) more,
    goes w cur name next end names more kind (Leads-next_path cur name next e) found there route,
  )

  Route-stop :
      (w : World C D) (name : Bytes) (names : List Bytes) (cur next : Bytes) (qids all : List Qid)
      (end : Bytes)
      → next_path cur name ≡ ok next
      → (path_type cfg next w).0 ≡ ok absent
      → (all ≡ qids) × (end ≡ cur)
      → Extends w cur (name ∷ names) qids all end
  unfolding Extends
  Route-stop w name names cur next qids all end e gone (same, at) = (
    [],
    same ∙ sym (append-nil qids),
    rw at (misses w cur name next names (Leads-next_path cur name next e) gone),
  )

  Route-end :
      (w : World C D) (cur : Bytes) (qids all : List Qid) (end : Bytes)
      → (all ≡ qids) × (end ≡ cur)
      → Extends w cur [] qids all end
  unfolding Extends
  Route-end w cur qids all end (same, at) =
      ([], same ∙ sym (append-nil qids), rw at (arrives w cur))

  -- If the loop of a walk ends at a path, the qids that it added to those it had, and this path,
  -- are those of a route by the names: there is something at the path of each qid when the walk
  -- comes there, and it went on to the last name, or to the first one that leads to nothing.
  pub walk_names-Route :
      (names : List Bytes) (cur : Bytes) (qids : List Qid) (w : World C D) (all : List Qid)
      (end : Bytes)
      → (walk_names cfg names cur qids w).0 ≡ ok (reached all end)
      → (more : List Qid) × (all ≡ qids ++ more) × Route w cur names more end
  unfolding walk_names Extends
  walk_names-Route [] cur qids w all end h = Route-end w cur qids all end (ground arith)
  walk_names-Route (name ∷ names) cur qids w all end h = elim (Outcome-cases (next_path cur name)) [
    | fails m f ↦ absurd (ground arith)
    | panics p ↦ absurd (ground arith)
    | gives next e ↦ elim (Outcome-cases (path_type cfg next w).0) [
      | fails m f ↦ absurd (ground arith)
      | panics p ↦ absurd (ground arith)
      | gives absent e' ↦
          Route-stop w name names cur next qids all end e e'
            (lost_at-reached name qids cur all end (ground arith))
      | gives dir e' ↦
          Route-step w name names cur next qids all dir end e e' (λ same. absurd (cc same))
            (walk_names-Route names next (qids ++ (qid_of dir next ∷ [])) (path_type cfg next w).1
              all end (ground arith))
      | gives file e' ↦
          Route-step w name names cur next qids all file end e e' (λ same. absurd (cc same))
            (walk_names-Route names next (qids ++ (qid_of file next ∷ [])) (path_type cfg next w).1
              all end (ground arith))
    ]
  ]
