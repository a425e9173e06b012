-- ===== src/Path/Clean.antt =====
-- path/filepath on Unix: Clean, Join and Dir, which the stores over a directory call.
pub mod Laws
use mathlib.Core.List.{reverse}
use ollie_9p.Prelude.{
  Bytes, Bool, true, false, none, some, List, [], ◌∷◌, ◌++◌, ◌==◌, bytes_eq, ◌||◌, if◌then◌else◌,
  codes, take, suc,
}
use ollie_9p.Text.{split, join, last_index}

-- The effect of ".." on the elements kept so far, which are given last first. An element ".." is
-- kept only at the front of a path that does not begin with a slash.
abbrev step_up : Bool → List Bytes → List Bytes
step_up true [] = []
step_up false [] = codes ".." ∷ []
step_up rooted (x ∷ kept) = if x == codes ".." then codes ".." ∷ x ∷ kept else kept

unfoldable pub clean_elements : Bool → List Bytes → List Bytes → List Bytes
clean_elements rooted kept [] = reverse kept
clean_elements rooted kept (x ∷ rest) =
    clean_elements rooted
      (if x == [] || x == codes "."
        then kept
        else if x == codes ".."
        then step_up rooted kept
        else x ∷ kept)
      rest

abbrev or_dot : Bytes → Bytes
or_dot [] = codes "."
or_dot (c ∷ s) = c ∷ s

-- filepath.Clean
unfoldable pub clean : Bytes → Bytes
unfolding clean_elements split join
clean [] = codes "."
clean (c ∷ s) =
    if c ∷ [] == codes "/"
    then codes "/" ++ join (clean_elements true [] (split s b'/')) (codes "/")
    else or_dot (join (clean_elements false [] (split (c ∷ s) b'/')) (codes "/"))

-- filepath.Join of two elements, which leaves out the empty ones
unfoldable pub filepath_join : Bytes → Bytes → Bytes
unfolding clean
filepath_join [] [] = []
filepath_join [] (c ∷ name) = clean (c ∷ name)
filepath_join (c ∷ dir) [] = clean (c ∷ dir)
filepath_join (c ∷ dir) (d ∷ name) = clean ((c ∷ dir) ++ (codes "/" ++ (d ∷ name)))

-- filepath.Dir: what stands up to the last slash, cleaned
unfoldable pub filepath_dir : Bytes → Bytes
unfolding clean last_index
filepath_dir path = elim (last_index path b'/') [
  | none ↦ codes "."
  | some i ↦ clean (take (suc i) path)
]
