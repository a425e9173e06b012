-- ===== src/Path/Laws.antt =====
-- A path is taken apart into the parent and the name that it was joined from.
use ollie_9p.Prelude.{
  ℕ, suc, ◌≡◌, refl, false, Bytes, [], ◌∷◌, ◌++◌, bytes_eq, bytes_beq_iff, arith, length, take,
  drop, codes, ◌≢◌,
}
use ollie_9p.Prelude.Outcome.{ok}
use ollie_9p.Text.{contains}
use ollie_9p.Text.Laws.{last_index-append}
use ollie_9p.Path.{slash, path_parent, path_join, path_base}

take-length : (s t : Bytes) → take (length s) (s ++ t) ≡ s
take-length [] t = refl
take-length (c ∷ s) t = ground (arith, take-length s t)

drop-length : (s : Bytes) (c : ℕ) (t : Bytes) → drop (suc (length s)) (s ++ c ∷ t) ≡ t
drop-length [] c t = refl
drop-length (d ∷ s) c t = drop-length s c t

-- The base of a path joined with a name that has no slash is the name.
pub path_base-path_join :
    (parent name : Bytes) → contains name slash ≡ false → path_base (path_join parent name) ≡ name
unfolding path_base path_join
path_base-path_join parent name h = ground (
  arith,
  last_index-append [] name slash h,
  last_index-append parent name slash h,
  drop-length parent slash name,
)

-- The parent of an absolute path joined with a name that is not empty and has no slash is that
-- path.
pub path_parent-path_join :
    (s name : Bytes)
    → contains name slash ≡ false
    → name ≢ []
    → path_parent (path_join (slash ∷ s) name) ≡ ok (slash ∷ s)
unfolding path_parent path_join
path_parent-path_join s name h nonempty = ground (
  arith,
  last_index-append [] name slash h,
  last_index-append (slash ∷ s) name slash h,
  take-length (slash ∷ s) (slash ∷ name),
  bytes_beq_iff (slash ∷ s) (codes "/"),
  bytes_beq_iff (slash ∷ name) (codes "/"),
  bytes_beq_iff (slash ∷ (s ++ slash ∷ name)) (codes "/"),
)
