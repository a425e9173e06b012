-- ===== src/Text/Space.antt =====
-- White space as `unicode.IsSpace` has it, in UTF-8: strings.TrimSpace and strings.Fields.
pub mod Laws
use mathlib.Core.List.{reverse}
use ollie_9p.Prelude.{
  ℕ, zero, suc, Bytes, Bool, ◌&&◌, ◌||◌, List, [], ◌∷◌, ◌++◌, ◌==◌, leb, nat_eq, if◌then◌else◌,
}

abbrev pub is_ascii_space : ℕ → Bool
is_ascii_space c = c == 32 || (leb 9 c && leb c 13)

-- U+0085, U+00A0
abbrev is_space_2 : ℕ → ℕ → Bool
is_space_2 a b = a == 0xc2 && (b == 0x85 || b == 0xa0)

-- U+1680, U+2000 to U+200A, U+2028, U+2029, U+202F, U+205F, U+3000
abbrev is_space_3 : ℕ → ℕ → ℕ → Bool
is_space_3 a b c =
    (a == 0xe1 && (b == 0x9a && c == 0x80))
    || ((a == 0xe2
          && (b == 0x80 && ((leb 0x80 c && leb c 0x8a) || (leb 0xa8 c && leb c 0xa9) || c == 0xaf)))
        || ((a == 0xe2 && (b == 0x81 && c == 0x9f)) || (a == 0xe3 && (b == 0x80 && c == 0x80))))

-- How many bytes the white space at the start takes; 0 if there is none.
unfoldable pub space_width : Bytes → ℕ
space_width [] = 0
space_width (a ∷ []) = if is_ascii_space a then 1 else 0
space_width (a ∷ b ∷ []) = if is_ascii_space a then 1 else if is_space_2 a b then 2 else 0
space_width (a ∷ b ∷ c ∷ s) =
    if is_ascii_space a then 1 else if is_space_2 a b then 2 else if is_space_3 a b c then 3 else 0

-- The same at the end of a string, which is given reversed.
unfoldable pub space_width_last : Bytes → ℕ
space_width_last [] = 0
space_width_last (a ∷ []) = if is_ascii_space a then 1 else 0
space_width_last (b ∷ a ∷ []) = if is_ascii_space b then 1 else if is_space_2 a b then 2 else 0
space_width_last (c ∷ b ∷ a ∷ s) =
    if is_ascii_space c then 1 else if is_space_2 b c then 2 else if is_space_3 a b c then 3 else 0

-- Drops white space from the front; the number is what is left of the rune being dropped.
unfoldable pub trim_front : (Bytes → ℕ) → ℕ → Bytes → Bytes
trim_front width k [] = []
trim_front width (suc k) (c ∷ s) = trim_front width k s
trim_front width zero (c ∷ s) = elim (width (c ∷ s)) [ zero ↦ c ∷ s | suc k ↦ trim_front width k s ]

-- strings.TrimSpace
unfoldable pub trim_space : Bytes → Bytes
unfolding trim_front space_width space_width_last
trim_space s = reverse (trim_front space_width_last 0 (reverse (trim_front space_width 0 s)))

abbrev emit : Bytes → List Bytes → List Bytes
emit [] parts = parts
emit (c ∷ part) parts = (c ∷ part) ∷ parts

unfoldable pub fields_from : ℕ → Bytes → Bytes → List Bytes
fields_from k part [] = emit part []
fields_from (suc k) part (c ∷ s) = fields_from k part s
fields_from zero part (c ∷ s) = elim (space_width (c ∷ s)) [
  | zero ↦ fields_from zero (part ++ c ∷ []) s
  | suc k ↦ emit part (fields_from k [] s)
]

-- strings.Fields
unfoldable pub fields : Bytes → List Bytes
unfolding fields_from space_width
fields s = fields_from 0 [] s
