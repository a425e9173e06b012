-- ===== src/Server/Isolation.antt =====
-- What a request on one fid leaves alone: attach, open and write.
use ollie_9p.Prelude.{
  ℕ, Bytes, codes, nat_eq, ◌==◌, ◌&&◌, false, ◌≡◌, arith, Option-cases, inl, inr,
}
use ollie_9p.Prelude.Outcome.{Outcome-cases, gives, fails, panics}
use ollie_9p.Prelude.Dict
use ollie_9p.Agent.{AgentCore}
use ollie_9p.Server.{
  Fid, new_fid, ServerConfig, tattach, topen, twrite, World, get_fid, update_fids, set_fid,
}
use ollie_9p.Server.Buffer.{write_at}
use ollie_9p.Server.Fids.{get_fid-set_fid}
use ollie_9p.Server.Handle.{handle}
use ollie_9p.Server.Read.{Race}
use ollie_9p.Server.Walk.{attach, open_fid, root_qid}
use ollie_9p.Server.Write.{write}

module _ {C : AgentCore} {D : Type 0} (conn fid c j : ℕ) (w : World C D)
    (other : ((conn == c) && (fid == j)) ≡ false) where
  set_fid-isolates : (f : Fid) → get_fid c j (set_fid conn fid f w) ≡ get_fid c j w
  set_fid-isolates f = elim (Option-cases (Dict.lookup conn w.env.conns)) [
    | inl gone ↦ (unfold update_fids in ground arith)
    | inr (cs, there) ↦ ground (arith, get_fid-set_fid conn fid c j f w cs there)
  ]

  open_fid-isolates : (mode : ℕ) → get_fid c j (open_fid conn fid mode w).1 ≡ get_fid c j w
  unfolding open_fid
  open_fid-isolates mode = elim (Option-cases (get_fid conn fid w)) [
    | inl bad ↦ ground arith
    | inr (f, there) ↦ ground (arith, set_fid-isolates (record f { mode = mode }))
  ]

  write-isolates :
      (offset : ℕ) (content : Bytes)
      → get_fid c j (write conn fid offset content w).1 ≡ get_fid c j w
  unfolding write
  write-isolates offset content = elim (Option-cases (get_fid conn fid w)) [
    | inl bad ↦ ground arith
    | inr (f, there) ↦ elim (Outcome-cases (write_at offset content f.write_buf)) [
      | gives buf e ↦ ground (arith, set_fid-isolates (record f { write_buf = buf }))
      | fails m e ↦ ground arith
      | panics e ↦ ground arith
    ]
  ]

  -- A Tattach, a Topen or a Twrite on one fid of one connection leaves each fid as it is that has
  -- another number or is of another connection.
  pub handle-isolates :
      (cfg : ServerConfig C D) (race : Race) (mode offset : ℕ) (content : Bytes)
      → (get_fid c j (handle cfg race conn (tattach fid) w).1 ≡ get_fid c j w)
        × (get_fid c j (handle cfg race conn (topen fid mode) w).1 ≡ get_fid c j w)
        × (get_fid c j (handle cfg race conn (twrite fid offset content) w).1 ≡ get_fid c j w)
  unfolding handle attach
  handle-isolates cfg race mode offset content = (
    set_fid-isolates (new_fid (codes "/") root_qid),
    open_fid-isolates mode,
    write-isolates offset content,
  )
