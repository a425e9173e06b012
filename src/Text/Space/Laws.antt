-- ===== src/Text/Space/Laws.antt =====
-- Plain text, of the printable bytes of ASCII without the space, is not trimmed.
use mathlib.Core.List.{reverse, reverse_aux, reverse-reverse}
use ollie_9p.Prelude.{ℕ, ◌≤◌, Bytes, [], ◌∷◌, ◌++◌, ◌≡◌, refl, arith}
use ollie_9p.Text.Space.{space_width, space_width_last, trim_front, trim_space}

abbrev pub IsPlain : ℕ → Type 0
IsPlain c = (33 ≤ c) × (c ≤ 126)

abbrev pub AllPlain : Bytes → Type 0
AllPlain [] = Unit
AllPlain (c ∷ s) = IsPlain c × AllPlain s

pub AllPlain-append : (s t : Bytes) → AllPlain s → AllPlain t → AllPlain (s ++ t)
AllPlain-append [] t h k = k
AllPlain-append (c ∷ s) t h k = (h.0, AllPlain-append s t h.1 k)

AllPlain-reverse_aux : (s t : Bytes) → AllPlain s → AllPlain t → AllPlain (reverse_aux s t)
AllPlain-reverse_aux [] t h k = k
AllPlain-reverse_aux (c ∷ s) t h k = AllPlain-reverse_aux s (c ∷ t) h.1 (h.0, k)

AllPlain-reverse : (s : Bytes) → AllPlain s → AllPlain (reverse s)
AllPlain-reverse s h = AllPlain-reverse_aux s [] h tt

trim_front-plain : (s : Bytes) → AllPlain s → trim_front space_width 0 s ≡ s
unfolding trim_front space_width
trim_front-plain [] h = refl
trim_front-plain (a ∷ []) h = ground arith
trim_front-plain (a ∷ b ∷ []) h = ground arith
trim_front-plain (a ∷ b ∷ c ∷ s) h = ground arith

trim_last-plain : (s : Bytes) → AllPlain s → trim_front space_width_last 0 s ≡ s
unfolding trim_front space_width_last
trim_last-plain [] h = refl
trim_last-plain (a ∷ []) h = ground arith
trim_last-plain (b ∷ a ∷ []) h = ground arith
trim_last-plain (c ∷ b ∷ a ∷ s) h = ground arith

pub trim_space-plain : (s : Bytes) → AllPlain s → trim_space s ≡ s
trim_space-plain s h =
    unfold trim_space in
    rw (trim_front-plain s h, trim_last-plain (reverse s) (AllPlain-reverse s h))
      (reverse-reverse s)
