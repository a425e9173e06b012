-- ===== src/Text/Laws.antt =====
-- Laws of the functions of `Text`: prefixes, cutting at a separator, the last separator.
use ollie_9p.Prelude.{
  ℕ, ◌≡◌, refl, true, false, some, none, Bytes, [], ◌∷◌, ◌++◌, nat_eq, bytes_eq, arith, length,
  List, Option,
}
use ollie_9p.Text.{cut_prefix, has_prefix, trim_prefix, contains, cut, split, last_index}
use ollie_9p.Text.{join}

pub cut_prefix-append : (p s : Bytes) → cut_prefix (p ++ s) p ≡ some s
unfolding cut_prefix
cut_prefix-append [] s = refl
cut_prefix-append (c ∷ p) s = ground (arith, cut_prefix-append p s)

pub has_prefix-append : (p s : Bytes) → has_prefix (p ++ s) p ≡ true
unfolding has_prefix
has_prefix-append p s = ground (arith, cut_prefix-append p s)

pub trim_prefix-append : (p s : Bytes) → trim_prefix (p ++ s) p ≡ s
unfolding trim_prefix
trim_prefix-append p s = ground (arith, cut_prefix-append p s)

pub cut_prefix_sound : (s p : Bytes) (rest : Bytes) → cut_prefix s p ≡ some rest → s ≡ p ++ rest
unfolding cut_prefix
cut_prefix_sound s [] rest h = ground arith
cut_prefix_sound [] (c ∷ p) rest h = ground arith
cut_prefix_sound (d ∷ s) (c ∷ p) rest h = ground (arith, cut_prefix_sound s p rest)

-- A string that has a prefix is the prefix and what `trim_prefix` leaves.
pub has_prefix_sound : (s p : Bytes) → has_prefix s p ≡ true → s ≡ p ++ trim_prefix s p
unfolding has_prefix trim_prefix
has_prefix_sound s p h = go (cut_prefix s p) refl
  where
    go : (o : Option Bytes) → cut_prefix s p ≡ o → s ≡ p ++ trim_prefix s p
    go none e = ground arith
    go (some rest) e = ground (arith, cut_prefix_sound s p rest)

pub cut_of_not_contains : (s : Bytes) (b : ℕ) → contains s b ≡ false → cut s b ≡ none
unfolding cut contains
cut_of_not_contains [] b h = refl
cut_of_not_contains (c ∷ s) b h = ground (arith, cut_of_not_contains s b)

pub cut-append : (s t : Bytes) (b : ℕ) → contains s b ≡ false → cut (s ++ b ∷ t) b ≡ some (s, t)
unfolding cut contains
cut-append [] t b h = ground arith
cut-append (c ∷ s) t b h = ground (arith, cut-append s t b)

pub split_of_not_contains : (s : Bytes) (b : ℕ) → contains s b ≡ false → split s b ≡ s ∷ []
unfolding split contains
split_of_not_contains [] b h = refl
split_of_not_contains (c ∷ s) b h = ground (arith, split_of_not_contains s b)

pub split-append :
    (s t : Bytes) (b : ℕ) → contains s b ≡ false → split (s ++ b ∷ t) b ≡ s ∷ split t b
unfolding split contains
split-append [] t b h = ground arith
split-append (c ∷ s) t b h = ground (arith, split-append s t b)

pub last_index_of_not_contains : (s : Bytes) (b : ℕ) → contains s b ≡ false → last_index s b ≡ none
unfolding last_index contains
last_index_of_not_contains [] b h = refl
last_index_of_not_contains (c ∷ s) b h = ground (arith, last_index_of_not_contains s b)

pub last_index-append :
    (s t : Bytes) (b : ℕ) → contains t b ≡ false → last_index (s ++ b ∷ t) b ≡ some (length s)
unfolding last_index
last_index-append [] t b h = ground (arith, last_index_of_not_contains t b h)
last_index-append (c ∷ s) t b h = ground (arith, last_index-append s t b h)

pub contains-append :
    (s t : Bytes) (b : ℕ) → contains s b ≡ false → contains (s ++ t) b ≡ contains t b
unfolding contains
contains-append [] t b h = refl
contains-append (c ∷ s) t b h = ground (arith, contains-append s t b)

-- Splitting what was joined gives the parts back, if no part holds the separator.
abbrev pub NoneContain : ℕ → List Bytes → Type 0
NoneContain b [] = Unit
NoneContain b (s ∷ rest) = (contains s b ≡ false) × NoneContain b rest

pub split-join :
    (s : Bytes) (rest : List Bytes) (b : ℕ)
    → NoneContain b (s ∷ rest)
    → split (join (s ∷ rest) (b ∷ [])) b ≡ s ∷ rest
unfolding join
split-join s [] b h = split_of_not_contains s b h.0
split-join s (t ∷ rest) b h =
    ground (arith, split-append s (join (t ∷ rest) (b ∷ [])) b, split-join t rest b)
