-- ===== src/Server/Sound.antt =====
-- The invariant of the whole server: each session stands under its own ID, and each fid carries the
-- qid of its path. Here is what keeps it among the changes that the requests are made of.
pub mod Sessions
use ollie_9p.Prelude.{
  ℕ, Bytes, bytes_eq, nat_eq, nat_beq_iff, ◌==◌, Bool, true, false, Option, none, some, List, [],
  ◌∷◌, ◌++◌, ◌≡◌, refl, sym, ap, ◌∙◌, arith, codes, Option-cases, Bool-cases, inl, inr,
  if◌then◌else◌, Comparable,
}
use ollie_9p.Prelude.Keeps.{Keeps}
use ollie_9p.Prelude.Outcome.{Outcome, Act}
use ollie_9p.Prelude.Dict
use ollie_9p.Prelude.Dict.{Dict, lookup-insert}
use ollie_9p.Agent.{AgentCore}
use ollie_9p.Path.{qid_path}
use ollie_9p.Server.{
  Fid, ConnState, ServerEnv, World, on_disk, get_fid, update_fids, update_pending, set_fid,
  delete_fid, rename_fid, rename_fids, map_values,
}
use ollie_9p.Server.Fids.{get_fid-set_fid, get_fid-delete_fid, lookup-map_values, map_found}
use ollie_9p.SessionStore.Keyed.{IsKeyed-same}
use ollie_9p.SessionStore.Table.{IsKeyed}

-- The fid's qid is that of its path.
abbrev pub IsLabelled : Fid → Type 0
IsLabelled f = f.qid.path ≡ qid_path f.path

IsLabelled-rename_fid :
    (old new : Bytes) (f : Fid) → IsLabelled f → IsLabelled (rename_fid old new f)
unfolding rename_fid
IsLabelled-rename_fid old new f l = ground (arith, l)

of_map_found :
    (g : Fid → Fid) (o : Option Fid) (f : Fid)
    → map_found g o ≡ some f
    → (f' : Fid) × (o ≡ some f') × (f ≡ g f')
of_map_found g none f h = absurd (ground arith)
of_map_found g (some f') f h = (f', refl, ground arith)

module _ {D : Type 0} where
  -- The fids of a connection of the environment
  abbrev pub fid_of : ℕ → ℕ → ServerEnv D → Option Fid
  fid_of conn fid env = elim (Dict.lookup conn env.conns) [
    | none ↦ none
    | some cs ↦ Dict.lookup fid cs.fids
  ]

  -- All fids of all connections are labelled.
  pub record AllLabelled (env : ServerEnv D) : Type 0 where
    pub labels : (conn fid : ℕ) (f : Fid) → fid_of conn fid env ≡ some f → IsLabelled f

  pub AllLabelled-same : (e e' : ServerEnv D) → AllLabelled e → e'.conns ≡ e.conns → AllLabelled e'
  AllLabelled-same e e' l same = record {
    labels = λ conn fid f h. l.labels conn fid f (rw (← same) h);
  }

  -- OnRename keeps the labels.
  pub AllLabelled-rename_fids :
      (old_id new_id : Bytes) (env : ServerEnv D)
      → AllLabelled env
      → AllLabelled (rename_fids old_id new_id env)
  unfolding rename_fids
  AllLabelled-rename_fids old_id new_id env l = record {
    labels = λ conn fid f h.
        let move : Fid → Fid = rename_fid (codes "/s/" ++ old_id) (codes "/s/" ++ new_id) in
        let move_all : ConnState → ConnState = λ cs. record cs { fids = map_values move cs.fids } in
        elim (Option-cases (Dict.lookup conn env.conns)) [
          | inl gone ↦ absurd (ground (arith, lookup-map_values move_all conn env.conns))
          | inr (cs, there) ↦
              let (f', e, e') = of_map_found move (Dict.lookup fid cs.fids) f (
                ground (
                  arith,
                  lookup-map_values move_all conn env.conns,
                  lookup-map_values move fid cs.fids,
                )) in
              rw e' (
                IsLabelled-rename_fid (codes "/s/" ++ old_id) (codes "/s/" ++ new_id) f'
                  (l.labels conn fid f' (ground arith)))
        ];
  }

module _ {C : AgentCore} {D : Type 0} where
  pub record IsSound (w : World C D) : Type 0 where
    pub keyed : IsKeyed w
    pub labelled : AllLabelled w.env

  -- Only the disk, or nothing, has changed.
  pub IsSound-same :
      (w w' : World C D)
      → IsSound w
      → w'.sessions ≡ w.sessions
      → w'.env.conns ≡ w.env.conns
      → IsSound w'
  IsSound-same w w' h sessions conns = record {
    keyed = IsKeyed-same w w' h.keyed sessions;
    labelled = AllLabelled-same w.env w'.env h.labelled conns;
  }

  pub on_disk-Keeps : {A : Type 0} (act : Act D A) → Keeps IsSound (on_disk act)
  on_disk-Keeps act w h = IsSound-same w _ h refl refl

  pub set_fid-IsSound :
      (conn fid : ℕ) (f : Fid) (w : World C D)
      → IsLabelled f
      → IsSound w
      → IsSound (set_fid conn fid f w)
  set_fid-IsSound conn fid f w l h = elim (Option-cases (Dict.lookup conn w.env.conns)) [
    | inl gone ↦
        IsSound-same w _ h (unfold update_fids in ground arith) (unfold update_fids in ground arith)
    | inr (cs, there) ↦ record {
      keyed = IsKeyed-same w _ h.keyed (unfold update_fids in ground arith);
      labelled = record {
        labels = λ c j g e.
            let now : get_fid c j (set_fid conn fid f w) ≡ some g = unfold get_fid in e in
            let before : get_fid c j w ≡ some g → IsLabelled g =
              λ e'. h.labelled.labels c j g (unfold get_fid in e') in
            ground (arith, now, before, get_fid-set_fid conn fid c j f w cs there);
      };
    }
  ]

  pub delete_fid-IsSound :
      (conn fid : ℕ) (w : World C D) → IsSound w → IsSound (delete_fid conn fid w)
  delete_fid-IsSound conn fid w h = elim (Option-cases (Dict.lookup conn w.env.conns)) [
    | inl gone ↦
        IsSound-same w _ h (unfold update_fids in ground arith) (unfold update_fids in ground arith)
    | inr (cs, there) ↦ record {
      keyed = IsKeyed-same w _ h.keyed (unfold update_fids in ground arith);
      labelled = record {
        labels = λ c j g e.
            let now : get_fid c j (delete_fid conn fid w) ≡ some g = unfold get_fid in e in
            let before : get_fid c j w ≡ some g → IsLabelled g =
              λ e'. h.labelled.labels c j g (unfold get_fid in e') in
            ground (arith, now, before, get_fid-delete_fid conn fid c j w cs there);
      };
    }
  ]

  pub update_pending-IsSound :
      (conn : ℕ) (f : Dict ℕ Bool → Dict ℕ Bool) (w : World C D)
      → IsSound w
      → IsSound (update_pending conn f w)
  unfolding update_pending
  update_pending-IsSound conn f w h = elim (Option-cases (Dict.lookup conn w.env.conns)) [
    | inl gone ↦ IsSound-same w _ h (ground arith) (ground arith)
    | inr (cs, there) ↦ record {
      keyed = IsKeyed-same w _ h.keyed (ground arith);
      labelled = record {
        labels = λ c j g e.
            let before : fid_of c j w.env ≡ some g → IsLabelled g = h.labelled.labels c j g in
            ground (
              arith,
              before,
              e,
              nat_beq_iff conn c,
              lookup-insert c conn (record cs { pending = f cs.pending }) w.env.conns,
            );
      };
    }
  ]
