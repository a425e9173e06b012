-- ===== src/Text.antt =====
-- The functions of Go's `strings` package that server.go and store/*.go call, over byte strings.
pub mod Laws
pub mod Space
pub mod Number
pub mod Order
use ollie_9p.Prelude.{
  ℕ, zero, suc, ◌+◌, Bytes, Bool, true, false, Option, none, some, List, [], ◌∷◌, ◌++◌, ◌==◌,
  nat_eq, bytes_eq, if◌then◌else◌, length, take, drop,
}

-- strings.CutPrefix: what follows the prefix, if it is there
unfoldable pub cut_prefix : Bytes → Bytes → Option Bytes
cut_prefix s [] = some s
cut_prefix [] (p ∷ ps) = none
cut_prefix (c ∷ s) (p ∷ ps) = if c == p then cut_prefix s ps else none

-- strings.HasPrefix
unfoldable pub has_prefix : Bytes → Bytes → Bool
has_prefix s p = elim (cut_prefix s p) [ none ↦ false | some _ ↦ true ]

-- strings.TrimPrefix
unfoldable pub trim_prefix : Bytes → Bytes → Bytes
trim_prefix s p = elim (cut_prefix s p) [ none ↦ s | some rest ↦ rest ]

-- strings.HasSuffix
unfoldable pub has_suffix : Bytes → Bytes → Bool
has_suffix [] p = [] == p
has_suffix (c ∷ s) p = let rest = has_suffix s p in if c ∷ s == p then true else rest

-- strings.TrimSuffix
unfoldable pub trim_suffix : Bytes → Bytes → Bytes
trim_suffix [] p = []
trim_suffix (c ∷ s) p = let rest = trim_suffix s p in if c ∷ s == p then [] else c ∷ rest

-- strings.Contains with a separator of one byte
unfoldable pub contains : Bytes → ℕ → Bool
contains [] b = false
contains (c ∷ s) b = if c == b then true else contains s b

-- strings.Cut with a separator of one byte
unfoldable pub cut : Bytes → ℕ → Option (Bytes × Bytes)
cut [] b = none
cut (c ∷ s) b =
    if c == b
    then some ([], s)
    else (elim (cut s b) [ none ↦ none | some (before, after) ↦ some (c ∷ before, after) ])

abbrev on_head : ℕ → List Bytes → List Bytes
on_head c [] = (c ∷ []) ∷ []
on_head c (part ∷ parts) = (c ∷ part) ∷ parts

-- strings.Split with a separator of one byte
unfoldable pub split : Bytes → ℕ → List Bytes
split [] b = [] ∷ []
split (c ∷ s) b = let rest = split s b in if c == b then [] ∷ rest else on_head c rest

-- strings.SplitN with a separator of one byte: at most `suc n` parts
unfoldable pub split_n : Bytes → ℕ → ℕ → List Bytes
split_n s b zero = s ∷ []
split_n s b (suc n) = elim (cut s b) [
  | none ↦ s ∷ []
  | some (before, after) ↦ before ∷ split_n after b n
]

-- strings.LastIndex with a separator of one byte
unfoldable pub last_index : Bytes → ℕ → Option ℕ
last_index [] b = none
last_index (c ∷ s) b = elim (last_index s b) [
  | some i ↦ some (suc i)
  | none ↦ if c == b then some 0 else none
]

-- strings.Join
unfoldable pub join : List Bytes → Bytes → Bytes
join [] sep = []
join (s ∷ []) sep = s
join (s ∷ t ∷ rest) sep = s ++ (sep ++ join (t ∷ rest) sep)

abbrev drop_if_empty : ℕ → ℕ → Bytes → Bytes
drop_if_empty c b [] = if c == b then [] else c ∷ []
drop_if_empty c b (d ∷ s) = c ∷ d ∷ s

-- strings.TrimRight with a cutset of one byte
unfoldable pub trim_right : Bytes → ℕ → Bytes
trim_right [] b = []
trim_right (c ∷ s) b = drop_if_empty c b (trim_right s b)
