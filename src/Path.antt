-- ===== src/Path.antt =====
-- The logical paths of the file system: pathParent, pathJoin, pathBase and qidPath of server.go.
pub mod Clean
pub mod Laws
use Prim.Native.Nat.{bit_xor}
use mathlib.Core.List.{foldl}
use ollie_9p.Prelude.{
  ℕ, zero, suc, ◌+◌, ◌*◌, ◌%◌, ◌^◌, Bytes, none, some, ◌∷◌, [], ◌++◌, ◌==◌, bytes_eq, if◌then◌else◌,
  take, drop, codes,
}
use ollie_9p.Prelude.Outcome.{Outcome, ok, panic}
use ollie_9p.Text.{last_index}

-- The byte of "/".
abbrev pub slash : ℕ
slash = b'/'

-- `path[:i]` with the index -1 of a path that has no slash panics.
unfoldable pub path_parent : Bytes → Outcome Bytes
unfolding last_index
path_parent path = if path == codes "/" then ok (codes "/") else (elim (last_index path slash) [
  | none ↦ panic
  | some zero ↦ ok (codes "/")
  | some (suc i) ↦ ok (take (suc i) path)
])

unfoldable pub path_join : Bytes → Bytes → Bytes
path_join parent name =
    if parent == codes "/" then codes "/" ++ name else parent ++ (codes "/" ++ name)

unfoldable pub path_base : Bytes → Bytes
unfolding last_index
path_base path = elim (last_index path slash) [ none ↦ path | some i ↦ drop (suc i) path ]

-- hash/fnv's New64a
abbrev fnv_step : ℕ → ℕ → ℕ
fnv_step h c = (bit_xor h c * 1099511628211) % 2 ^ 64

unfoldable pub qid_path : Bytes → ℕ
qid_path path = if path == codes "/" then 0 else foldl fnv_step 14695981039346656037 path
