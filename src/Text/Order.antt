-- ===== src/Text/Order.antt =====
-- Sorting by strings: sort.Strings, and sort.Slice by a name. Of elements with equal names sort.Slice
-- leaves the order open; here they keep theirs.
pub mod Laws
use ollie_9p.Prelude.{Bytes, Bool, true, false, List, [], ◌∷◌, ltb, ◌==◌, nat_eq, if◌then◌else◌}

-- `<` on strings: byte by byte
unfoldable pub bytes_ltb : Bytes → Bytes → Bool
bytes_ltb [] [] = false
bytes_ltb [] (d ∷ t) = true
bytes_ltb (c ∷ s) [] = false
bytes_ltb (c ∷ s) (d ∷ t) = if ltb c d then true else if c == d then bytes_ltb s t else false

-- Insertion sort by a key: elements with one key keep their order.
module _ {ℓ} {A : Type ℓ} (key : A → Bytes) where
  unfoldable pub insert_sorted : A → List A → List A
  insert_sorted x [] = x ∷ []
  insert_sorted x (y ∷ ys) =
      let rest = insert_sorted x ys in if bytes_ltb (key y) (key x) then y ∷ rest else x ∷ y ∷ ys

  unfoldable pub sort_by : List A → List A
  unfolding insert_sorted
  sort_by [] = []
  sort_by (x ∷ xs) = insert_sorted x (sort_by xs)

-- sort.Strings
abbrev pub sort : List Bytes → List Bytes
sort = sort_by (λ s. s)
