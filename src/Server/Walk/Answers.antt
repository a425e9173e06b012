-- ===== src/Server/Walk/Answers.antt =====
-- attach, walk and open answer.
use ollie_9p.Prelude.{
  ℕ, Bytes, bytes_eq, nat_eq, ◌==◌, List, [], ◌∷◌, ◌++◌, arith, codes, length, ◌≢◌, zero, suc,
  Option, none, some, take, Option-cases, Bool-cases, inl, inr, refl,
}
use ollie_9p.Prelude.Keeps.{either}
use ollie_9p.Prelude.Outcome.{ok, err, panic, Outcome-cases, gives, fails, panics, Outcome}
use ollie_9p.Agent.{AgentCore}
use ollie_9p.Server.Answers.{
  Answers, ok-Answers, ok-Replies, panic-Answers, bind-Replies, Answers-no_error, Replies, is_reply,
}
use ollie_9p.Path.{path_parent, slash}
use ollie_9p.Text.{last_index}
use ollie_9p.Server.{Fid, Qid, World, ServerConfig, get_fid, Rmsg, tattach, topen, twalk, twalk}
use ollie_9p.Server.Lookup.{dir, file, absent, path_type}
use ollie_9p.Server.Lookup.Answers.{path_type-Answers}
use ollie_9p.Server.Walk
use ollie_9p.Server.Walk.{
  Walked, lost, reached, next_path, qid_of, lost_at, walk_names, finish_walk, walk_from, walk,
  attach, open_fid, bad_fid,
}

parent_found :
    (o : Option ℕ) (cur e : Bytes)
    → (elim o [ none ↦ panic | some zero ↦ ok (codes "/") | some (suc i) ↦ ok (take (suc i) cur) ])
      ≢ err e
parent_found none cur e h = ground (arith, h)
parent_found (some zero) cur e h = ground (arith, h)
parent_found (some (suc i)) cur e h = ground (arith, h)

path_parent_no_error : (cur e : Bytes) → path_parent cur ≢ err e
unfolding path_parent
path_parent_no_error cur e = elim (Bool-cases (cur == codes "/")) [
  | inl root ↦ λ h. ground (arith, h)
  | inr below ↦ rw (below, path_parent) (parent_found (last_index cur slash) cur e)
]

next_path_no_error : (cur name e : Bytes) → next_path cur name ≢ err e
next_path_no_error cur name e h = ground (arith, h, path_parent_no_error cur e)

abbrev IsRattach {ℓ} : {W : Type ℓ} → Outcome Rmsg × W → Type 0
IsRattach r = Replies (is_reply (tattach 0)) r

abbrev IsRopen {ℓ} : {W : Type ℓ} → Outcome Rmsg × W → Type 0
IsRopen r = Replies (is_reply (topen 0 0)) r

abbrev IsRwalk {ℓ} : {W : Type ℓ} → Outcome Rmsg × W → Type 0
IsRwalk r = Replies (is_reply (twalk 0 0 [])) r

module _ {C : AgentCore} {D : Type 0} where
  pub attach-Answers : (conn fid : ℕ) (w : World C D) → IsRattach (attach conn fid w)
  unfolding attach
  attach-Answers conn fid w = ok-Replies _ _ refl

  pub open_fid-Answers : (conn fid mode : ℕ) (w : World C D) → IsRopen (open_fid conn fid mode w)
  unfolding open_fid
  open_fid-Answers conn fid mode w = elim (Option-cases (get_fid conn fid w)) [
    | inl e ↦ rw (e, open_fid) (ok-Replies _ w refl)
    | inr (f, e) ↦ rw (e, open_fid) (ok-Replies _ _ refl)
  ]

module _ {C : AgentCore} {D : Type 0} (cfg : ServerConfig C D) where
  finish_walk-Answers :
      (conn newfid : ℕ) (f : Fid) (wanted : ℕ) (walked : Walked) (w : World C D)
      → IsRwalk (finish_walk cfg conn newfid f wanted walked w)
  unfolding finish_walk
  finish_walk-Answers conn newfid f wanted (lost message) w = ok-Replies _ w refl
  finish_walk-Answers conn newfid f wanted (reached qids cur) w =
      either IsRwalk (length qids == wanted) _ _ (ok-Replies _ _ refl) (ok-Replies _ w refl)

  walk_names-Answers :
      (names : List Bytes) (cur : Bytes) (qids : List Qid) (w : World C D)
      → Answers (walk_names cfg names cur qids w)
  unfolding walk_names
  walk_names-Answers [] cur qids w = ok-Answers _ w
  walk_names-Answers (name ∷ names) cur qids w = elim (Outcome-cases (next_path cur name)) [
    | panics e ↦ rw (e, walk_names) (panic-Answers w)
    | fails m e ↦ absurd (next_path_no_error cur name m e)
    | gives next e ↦ elim (Outcome-cases (path_type cfg next w).0) [
      | panics e' ↦ rw (e, walk_names) (rw (e', walk_names) (panic-Answers _))
      | fails m e' ↦ absurd (Answers-no_error _ (path_type-Answers cfg next w) m e')
      | gives absent e' ↦ rw (e, walk_names) (rw (e', walk_names) (ok-Answers _ _))
      | gives dir e' ↦
          rw (e, walk_names)
            (rw (e', walk_names)
              (walk_names-Answers names next (qids ++ (qid_of dir next ∷ []))
                (path_type cfg next w).1))
      | gives file e' ↦
          rw (e, walk_names)
            (rw (e', walk_names)
              (walk_names-Answers names next (qids ++ (qid_of file next ∷ []))
                (path_type cfg next w).1))
    ]
  ]

  walk_from-Answers :
      (conn newfid : ℕ) (f : Fid) (names : List Bytes) (w : World C D)
      → IsRwalk (walk_from cfg conn newfid f names w)
  unfolding walk_from
  walk_from-Answers conn newfid f [] w = ok-Replies _ _ refl
  walk_from-Answers conn newfid f (name ∷ names) w =
      bind-Replies (walk_names cfg (name ∷ names) f.path [])
        (finish_walk cfg conn newfid f (length (name ∷ names))) w
        (walk_names-Answers (name ∷ names) f.path [] w)
        (finish_walk-Answers conn newfid f (length (name ∷ names)))

  pub walk-Answers :
      (conn fid newfid : ℕ) (names : List Bytes) (w : World C D)
      → IsRwalk (walk cfg conn fid newfid names w)
  unfolding walk
  walk-Answers conn fid newfid names w = elim (Option-cases (get_fid conn fid w)) [
    | inl e ↦ rw (e, Walk.walk) (ok-Replies _ w refl)
    | inr (f, e) ↦ rw (e, Walk.walk) (walk_from-Answers conn newfid f names w)
  ]
