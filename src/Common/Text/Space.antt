-- ===== src/Common/Text/Space.antt =====
-- Texts that `strings.TrimSpace` keeps: those without spaces, such as the digits of a number.
use Prim.Native.Nat.{ℕ, zero, suc, ◌/◌, ◌%◌}
use Prim.Native.Char.{code}
use Prim.Native.String.{String}
use mathlib.Core.Path.{◌≡◌, refl}
use mathlib.Core.Bool.{Bool, true, false}
use mathlib.Core.List.{List, [], ◌∷◌}
use native.Mathlib.Omega.{arith}
use vrp_oneclick_deposit_pla.Common.Tests.{ltb}
use vrp_oneclick_deposit_pla.Common.Text.{
  is_space, trim_left, trim_right, trim_space, decimal, digits, digit_text, digit_from, ◌+++◌,
}

-- A text without spaces.
abbrev pub NoSpace : String → Type 0
NoSpace String.[] = Unit {0}
NoSpace (String.◌∷◌ c s) = (is_space (code c) ≡ false) × NoSpace s

trim_right-NoSpace : (s : String) → NoSpace s → trim_right s ≡ s
unfolding trim_right
trim_right-NoSpace String.[] h = refl
trim_right-NoSpace (String.◌∷◌ c s) h = rw (trim_right-NoSpace s h.1) (ground arith)

pub trim_space-NoSpace : (s : String) → NoSpace s → trim_space s ≡ s
unfolding trim_space trim_left
trim_space-NoSpace String.[] h = refl
trim_space-NoSpace (String.◌∷◌ c s) h = rw h.0 (trim_right-NoSpace (String.◌∷◌ c s) h)

NoSpace-append : (s t : String) → NoSpace s → NoSpace t → NoSpace (s +++ t)
NoSpace-append String.[] t h k = k
NoSpace-append (String.◌∷◌ c s) t h k = (h.0, NoSpace-append s t h.1 k)

abbrev Plain : List String → Type 0
Plain [] = Unit {0}
Plain (s ∷ ss) = NoSpace s × Plain ss

digit_from-NoSpace : (n : ℕ) (ds : List String) → Plain ds → NoSpace (digit_from n ds)
unfolding digit_from
digit_from-NoSpace n [] h = tt
digit_from-NoSpace zero (d ∷ ds) h = h.0
digit_from-NoSpace (suc n) (d ∷ ds) h = digit_from-NoSpace n ds h.1

digit_text-NoSpace : (n : ℕ) → NoSpace (digit_text n)
digit_text-NoSpace n = digit_from-NoSpace n _ (
    (
      (refl, tt),
      (
        (refl, tt),
        (
          (refl, tt),
          (
            (refl, tt),
            ((refl, tt), ((refl, tt), ((refl, tt), ((refl, tt), ((refl, tt), ((refl, tt), tt)))))),
          ),
        ),
      ),
    ))

digits-NoSpace : (fuel n : ℕ) (rest : String) → NoSpace rest → NoSpace (digits fuel n rest)
unfolding digits
digits-NoSpace zero n rest h = h
digits-NoSpace (suc fuel) n rest h = by_size (ltb n 10) (
    digits-NoSpace fuel (n / 10) (digit_text (n % 10) +++ rest)
      (NoSpace-append (digit_text (n % 10)) rest (digit_text-NoSpace (n % 10)) h))
  where
    by_size :
        (b : Bool)
        → NoSpace (digits fuel (n / 10) (digit_text (n % 10) +++ rest))
        → NoSpace (elim b [
          | true ↦ digit_text (n % 10) +++ rest
          | false ↦ digits fuel (n / 10) (digit_text (n % 10) +++ rest)
        ])
    by_size true k = NoSpace-append (digit_text (n % 10)) rest (digit_text-NoSpace (n % 10)) h
    by_size false k = k

pub trim_space-decimal : (n : ℕ) → trim_space (decimal n) ≡ decimal n
unfolding decimal
trim_space-decimal n = trim_space-NoSpace (digits (suc n) n "") (digits-NoSpace (suc n) n "" tt)
