-- ===== src/Text/Number/Laws.antt =====
-- An int that is printed is read back.
use ollie_9p.Prelude.{
  ℕ, zero, suc, ◌+◌, ◌*◌, ◌/◌, ◌%◌, ◌^◌, ◌≤◌, ◌<◌, ◌-◌, Bytes, some, [], ◌∷◌, ◌++◌, ◌≡◌, refl, ◌≢◌,
  ltb, nat_eq, if◌then◌else◌, arith, Bool-cases, inl, inr,
}
use ollie_9p.Prelude.Int.{ℤ, pos, negsuc}
use ollie_9p.Text.Number.{digits_value, unsigned, atoi, print_digits, print_nat, print_int, IsInt64}

digits_value-append :
    (s : Bytes) (a n d : ℕ)
    → digits_value a s ≡ some n
    → d < 10
    → digits_value a (s ++ (48 + d) ∷ []) ≡ some (n * 10 + d)
unfolding digits_value
digits_value-append [] a n d h lt = ground arith
digits_value-append (c ∷ s) a n d h lt =
    ground (arith, digits_value-append s (a * 10 + (c - 48)) n d)

digits_value-print_digits : (fuel n : ℕ) → n ≤ fuel → digits_value 0 (print_digits fuel n) ≡ some n
unfolding print_digits
digits_value-print_digits zero n h = unfold digits_value in ground arith
digits_value-print_digits (suc fuel) n h = elim (Bool-cases (ltb n 10)) [
  | inl small ↦ rw small (unfold digits_value in ground arith)
  | inr large ↦ rw large (
      ground (
        arith,
        digits_value-print_digits fuel (n / 10),
        digits_value-append (print_digits fuel (n / 10)) 0 (n / 10) (n % 10),
      ))
]

-- The digits are at least one, and all bytes of them are digits.
abbrev pub AllDigits : Bytes → Type 0
AllDigits [] = Unit
AllDigits (c ∷ s) = (48 ≤ c) × (c ≤ 57) × AllDigits s

AllDigits-append : (s t : Bytes) → AllDigits s → AllDigits t → AllDigits (s ++ t)
AllDigits-append [] t h k = k
AllDigits-append (c ∷ s) t h k = (h.0, h.1, AllDigits-append s t h.2 k)

print_digits-AllDigits : (fuel n : ℕ) → AllDigits (print_digits fuel n)
unfolding print_digits
print_digits-AllDigits zero n = (omega arith, omega arith, tt)
print_digits-AllDigits (suc fuel) n = elim (Bool-cases (ltb n 10)) [
  | inl small ↦ rw small (omega arith, ground arith, tt)
  | inr large ↦ rw large (
      AllDigits-append (print_digits fuel (n / 10)) ((48 + n % 10) ∷ [])
        (print_digits-AllDigits fuel (n / 10)) (omega arith, omega arith, tt))
]

pub print_nat-AllDigits : (n : ℕ) → AllDigits (print_nat n)
unfolding print_nat
print_nat-AllDigits n = print_digits-AllDigits n n

pub digits_value-print_nat : (n : ℕ) → digits_value 0 (print_nat n) ≡ some n
unfolding print_nat
digits_value-print_nat n = digits_value-print_digits n n (omega arith)

print_digits-ne-nil : (fuel n : ℕ) → print_digits fuel n ≢ []
unfolding print_digits
print_digits-ne-nil zero n e = cc
print_digits-ne-nil (suc fuel) n e = go (print_digits fuel (n / 10)) (ground arith)
  where
    go : (high : Bytes) → (if ltb n 10 then (48 + n) ∷ [] else high ++ (48 + n % 10) ∷ []) ≡ [] → ⊥
    go [] h = ground arith
    go (c ∷ s) h = ground arith

pub print_nat-ne-nil : (n : ℕ) → print_nat n ≢ []
unfolding print_nat
print_nat-ne-nil n = print_digits-ne-nil n n

unsigned_of_digits : (s : Bytes) {n : ℕ} → s ≢ [] → digits_value 0 s ≡ some n → unsigned s ≡ some n
unfolding unsigned
unsigned_of_digits [] h e = absurd (h refl)
unsigned_of_digits (c ∷ s) h e = e

unsigned-print_nat : (n : ℕ) → unsigned (print_nat n) ≡ some n
unsigned-print_nat n =
    unsigned_of_digits (print_nat n) (unfold print_nat in print_digits-ne-nil n n)
      (digits_value-print_nat n)

atoi_of_digits :
    (s : Bytes) {n : ℕ} → AllDigits s → unsigned s ≡ some n → n < 2 ^ 63 → atoi s ≡ some (pos n)
unfolding atoi
atoi_of_digits [] d e lt = ground arith
atoi_of_digits (c ∷ s) d e lt = ground arith

-- Reading the decimal digits of a 64-bit int gives the int.
pub atoi-print_int : (i : ℤ) → IsInt64 i → atoi (print_int i) ≡ some i
unfolding print_int
atoi-print_int (pos n) lt =
    atoi_of_digits (print_nat n) (print_nat-AllDigits n) (unsigned-print_nat n) lt
atoi-print_int (negsuc n) lt = unfold atoi in rw (unsigned-print_nat (suc n)) (ground arith)
