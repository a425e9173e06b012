-- ===== src/Text/Order/Laws.antt =====
-- The sorted list is a rearrangement of the list, in order.
use ollie_9p.Prelude.{
  ℕ, ◌+◌, Bytes, Bool, true, false, List, [], ◌∷◌, nat_eq, if◌then◌else◌, ◌≡◌, refl, arith,
}
use ollie_9p.Text.Order.{bytes_ltb, insert_sorted, sort_by}

-- No string is before another that is before it, and of two in a row nothing is lost.
bytes_ltb_asym : (s t : Bytes) → bytes_ltb s t ≡ true → bytes_ltb t s ≡ false
unfolding bytes_ltb
bytes_ltb_asym [] [] h = ground arith
bytes_ltb_asym [] (d ∷ t) h = refl
bytes_ltb_asym (c ∷ s) [] h = ground arith
bytes_ltb_asym (c ∷ s) (d ∷ t) h = ground (arith, bytes_ltb_asym s t)

-- What is not before the middle is not before what the middle is not before.
bytes_ltb_trans :
    (s t u : Bytes) → bytes_ltb t s ≡ false → bytes_ltb u t ≡ false → bytes_ltb u s ≡ false
unfolding bytes_ltb
bytes_ltb_trans [] t [] h h' = refl
bytes_ltb_trans [] [] (c ∷ u) h h' = refl
bytes_ltb_trans [] (d ∷ t) (c ∷ u) h h' = refl
bytes_ltb_trans (c ∷ s) [] u h h' = ground arith
bytes_ltb_trans (c ∷ s) (d ∷ t) [] h h' = ground arith
bytes_ltb_trans (c ∷ s) (d ∷ t) (b ∷ u) h h' = ground (arith, bytes_ltb_trans s t u)

module _ {ℓ} {A : Type ℓ} (key : A → Bytes) where
  -- No element of the list comes before this one.
  abbrev LeadsAll : A → List A → Type 0
  LeadsAll x [] = Unit
  LeadsAll x (y ∷ ys) = (bytes_ltb (key y) (key x) ≡ false) × LeadsAll x ys

  abbrev pub IsSorted : List A → Type 0
  IsSorted [] = Unit
  IsSorted (x ∷ xs) = LeadsAll x xs × IsSorted xs

  LeadsAll-trans :
      (x y : A) (ys : List A) → bytes_ltb (key y) (key x) ≡ false → LeadsAll y ys → LeadsAll x ys
  LeadsAll-trans x y [] h hs = tt
  LeadsAll-trans x y (z ∷ ys) h (hz, hs) =
      (bytes_ltb_trans (key x) (key y) (key z) h hz, LeadsAll-trans x y ys h hs)

  LeadsAll-if :
      (x y z : A) (ys rest : List A) (b : Bool)
      → LeadsAll x (z ∷ rest)
      → LeadsAll x (y ∷ z ∷ ys)
      → LeadsAll x (if b then z ∷ rest else y ∷ z ∷ ys)
  LeadsAll-if x y z ys rest true h h' = h
  LeadsAll-if x y z ys rest false h h' = h'

  LeadsAll-insert_sorted :
      (x y : A) (ys : List A)
      → bytes_ltb (key y) (key x) ≡ false
      → LeadsAll x ys
      → LeadsAll x (insert_sorted key y ys)
  unfolding insert_sorted
  LeadsAll-insert_sorted x y [] h hs = (h, hs)
  LeadsAll-insert_sorted x y (z ∷ ys) h (hz, hs) =
      LeadsAll-if x y z ys (insert_sorted key y ys) (bytes_ltb (key z) (key y))
        (hz, LeadsAll-insert_sorted x y ys h hs) (h, (hz, hs))

  IsSorted-if :
      (y z : A) (ys rest : List A) (b : Bool)
      → bytes_ltb (key z) (key y) ≡ b
      → (b ≡ true → IsSorted (z ∷ rest))
      → IsSorted (z ∷ ys)
      → IsSorted (if b then z ∷ rest else y ∷ z ∷ ys)
  IsSorted-if y z ys rest true e h h' = h refl
  IsSorted-if y z ys rest false e h (hz, hs) = ((e, LeadsAll-trans y z ys e hz), (hz, hs))

  IsSorted-insert_sorted : (y : A) (ys : List A) → IsSorted ys → IsSorted (insert_sorted key y ys)
  unfolding insert_sorted
  IsSorted-insert_sorted y [] hs = (tt, tt)
  IsSorted-insert_sorted y (z ∷ ys) (hz, hs) =
      IsSorted-if y z ys (insert_sorted key y ys) (bytes_ltb (key z) (key y)) refl
        (λ e. (
          LeadsAll-insert_sorted z y ys (bytes_ltb_asym (key z) (key y) e) hz,
          IsSorted-insert_sorted y ys hs,
        ))
        (hz, hs)

  -- How often the elements that pass a test occur
  unfoldable pub occurrences : (A → Bool) → List A → ℕ
  occurrences test [] = 0
  occurrences test (x ∷ xs) = (if test x then 1 else 0) + occurrences test xs

  occurrences-insert_sorted :
      (test : A → Bool) (y : A) (ys : List A)
      → occurrences test (insert_sorted key y ys) ≡ (if test y then 1 else 0) + occurrences test ys
  unfolding insert_sorted occurrences
  occurrences-insert_sorted test y [] = refl
  occurrences-insert_sorted test y (z ∷ ys) = ground (arith, occurrences-insert_sorted test y ys)

  occurrences-sort_by :
      (test : A → Bool) (xs : List A) → occurrences test (sort_by key xs) ≡ occurrences test xs
  unfolding sort_by occurrences
  occurrences-sort_by test [] = refl
  occurrences-sort_by test (x ∷ xs) =
      ground (arith, occurrences-insert_sorted test x (sort_by key xs), occurrences-sort_by test xs)

  IsSorted-sort_by_lem : (xs : List A) → IsSorted (sort_by key xs)
  unfolding sort_by
  IsSorted-sort_by_lem [] = tt
  IsSorted-sort_by_lem (x ∷ xs) =
      IsSorted-insert_sorted x (sort_by key xs) (IsSorted-sort_by_lem xs)

  -- Sorting by a key puts the elements in the order of their keys, each as often as before.
  pub sort_by-IsSorted :
      (xs : List A)
      → IsSorted (sort_by key xs)
        × ((test : A → Bool) → occurrences test (sort_by key xs) ≡ occurrences test xs)
  sort_by-IsSorted xs = (IsSorted-sort_by_lem xs, λ test. occurrences-sort_by test xs)
