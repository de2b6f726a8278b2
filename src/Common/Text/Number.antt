-- ===== src/Common/Text/Number.antt =====
-- Go's `strconv.Atoi`, and that it reads the digits that `%d` and `strconv.Itoa` write.
use Prim.Native.Nat.{ℕ, zero, suc, ◌+◌, ◌-◌, ◌*◌, ◌/◌, ◌%◌, ◌^◌, ◌<◌, ◌≤◌}
use Prim.Native.Char.{code}
use Prim.Native.String.{String}
use mathlib.Core.Path.{◌≡◌, refl, ap, ◌∙◌}
use mathlib.Core.Bool.{Bool, true, false, ◌&&◌}
use mathlib.Core.Option.{Option, none, some}
use native.Mathlib.Omega.{arith}
use vrp_oneclick_deposit_pla.Common.Tests.{ltb, leb, eqb, if◌then◌else◌}
use vrp_oneclick_deposit_pla.Common.Text.{decimal, digits, digit_text, digit_from, ◌+++◌}
use vrp_oneclick_deposit_pla.Common.Int64.{ℤ, pos, negsuc}

abbrev shifted : Option ℕ → ℕ → ℕ
shifted none d = d
shifted (some n) d = n * 10 + d

-- The number that the digits read so far and those of the text make; none before the first digit.
unfoldable pub read_digits : Option ℕ → String → Option ℕ
read_digits acc String.[] = acc
read_digits acc (String.◌∷◌ c s) =
    let rest = read_digits (some (shifted acc (code c - 48))) s in
    if leb 48 (code c) && leb (code c) 57 then rest else none

abbrev minus : ℕ → ℤ
minus zero = pos 0
minus (suc n) = negsuc n

-- A text with a sign before its digits.
unfoldable pub read_signed : String → Option ℤ
unfolding read_digits
read_signed String.[] = none
read_signed (String.◌∷◌ c s) =
    if eqb (code c) b'-'
    then elim (read_digits none s) [
      | none ↦ none
      | some n ↦ if leb n (2 ^ 63) then some (minus n) else none
    ]
    else if eqb (code c) b'+'
    then elim (read_digits none s) [
      | none ↦ none
      | some n ↦ if ltb n (2 ^ 63) then some (pos n) else none
    ]
    else none

-- `strconv.Atoi`: none where it returns an error. A text of digits has no sign.
unfoldable pub atoi : String → Option ℤ
unfolding read_digits read_signed
atoi s = elim (read_digits none s) [
  | some n ↦ if ltb n (2 ^ 63) then some (pos n) else none
  | none ↦ read_signed s
]

read_digits-digit_text :
    (d : ℕ) (acc : Option ℕ) (rest : String)
    → d < 10
    → read_digits acc (digit_text d +++ rest) ≡ read_digits (some (shifted acc d)) rest
unfolding read_digits digit_from
read_digits-digit_text zero acc rest h = refl
read_digits-digit_text (suc zero) acc rest h = refl
read_digits-digit_text (suc (suc zero)) acc rest h = refl
read_digits-digit_text (suc (suc (suc zero))) acc rest h = refl
read_digits-digit_text (suc (suc (suc (suc zero)))) acc rest h = refl
read_digits-digit_text (suc (suc (suc (suc (suc zero))))) acc rest h = refl
read_digits-digit_text (suc (suc (suc (suc (suc (suc zero)))))) acc rest h = refl
read_digits-digit_text (suc (suc (suc (suc (suc (suc (suc zero))))))) acc rest h = refl
read_digits-digit_text (suc (suc (suc (suc (suc (suc (suc (suc zero)))))))) acc rest h = refl
read_digits-digit_text (suc (suc (suc (suc (suc (suc (suc (suc (suc zero))))))))) acc rest h = refl
read_digits-digit_text (suc (suc (suc (suc (suc (suc (suc (suc (suc (suc d)))))))))) acc rest h =
    absurd (omega arith)

read_digits-digits :
    (fuel n : ℕ) (rest : String)
    → n < fuel
    → read_digits none (digits fuel n rest) ≡ read_digits (some n) rest
unfolding digits
read_digits-digits zero n rest h = absurd (omega arith)
read_digits-digits (suc fuel) n rest h =
    by_size (ltb n 10) refl (λ (k : ℕ) (t : String) (m : k < fuel). read_digits-digits fuel k t m)
  where
    by_size :
        (b : Bool)
        → ltb n 10 ≡ b
        → ((k : ℕ) (t : String)
            → k < fuel
            → read_digits none (digits fuel k t) ≡ read_digits (some k) t)
        → read_digits none (elim b [
          | true ↦ digit_text (n % 10) +++ rest
          | false ↦ digits fuel (n / 10) (digit_text (n % 10) +++ rest)
        ])
          ≡ read_digits (some n) rest
    by_size true y ih =
        let below : n < 10 = ground arith in
        let same : n % 10 ≡ n = omega arith in rw same (read_digits-digit_text n none rest below)
    by_size false x ih =
        let above : 10 ≤ n = ground arith in
        let part : n / 10 < fuel = omega arith in
        ih (n / 10) (digit_text (n % 10) +++ rest) part
        ∙ read_digits-digit_text (n % 10) (some (n / 10)) rest (omega arith)
        ∙ ap (λ (k : ℕ). read_digits (some k) rest) (omega arith)

-- What `strconv.Itoa` writes is read.
pub atoi-decimal : (n : ℕ) → n < 2 ^ 63 → atoi (decimal n) ≡ some (pos n)
unfolding atoi decimal
atoi-decimal n h =
    let read : read_digits none (digits (suc n) n "") ≡ some n =
      read_digits-digits (suc n) n "" (omega arith) in
    ground (arith, read)
