-- ===== src/Common/Text.antt =====
-- Go's `strings.TrimSpace` and `strings.ToUpper`, on the native texts. Upper case is that of the
-- ASCII letters: every other character is kept.
pub mod Number
pub mod Space
use Prim.Native.Nat.{ℕ, zero, suc, ◌+◌, ◌/◌, ◌%◌}
use Prim.Native.Char.{Char, code}
use Prim.Native.String.{String}
use mathlib.Core.Path.{◌≡◌, refl}
use mathlib.Core.Bool.{Bool, true, false, ◌||◌, ◌&&◌}
use mathlib.Core.List.{List, [], ◌∷◌}
use text.Mathlib.Text.{◌==◌}
use vrp_oneclick_deposit_pla.Common.Tests.{ltb, leb, eqb, if◌then◌else◌}

-- The bytes of a character in UTF-8, and Go's `len` of a text.
abbrev pub char_bytes : ℕ → ℕ
char_bytes c = if ltb c 128 then 1 else if ltb c 2048 then 2 else if ltb c 65536 then 3 else 4

abbrev pub byte_len : String → ℕ
byte_len String.[] = 0
byte_len (String.◌∷◌ c s) = char_bytes (code c) + byte_len s

-- `unicode.IsSpace`
abbrev pub is_space : ℕ → Bool
is_space c =
    (leb 9 c && leb c 13)
    || (eqb c 32
        || (eqb c 133
            || (eqb c 160
                || (eqb c 5760
                    || ((leb 8192 c && leb c 8202)
                        || (eqb c 8232
                            || (eqb c 8233 || (eqb c 8239 || (eqb c 8287 || eqb c 12288)))))))))

-- The text `s` and then `t`.
infixr 65 ◌+++◌
abbrev pub ◌+++◌ : String → String → String
String.[] +++ t = t
(String.◌∷◌ c s) +++ t = String.◌∷◌ c (s +++ t)

unfoldable pub trim_left : String → String
trim_left String.[] = String.[]
trim_left (String.◌∷◌ c s) =
    let rest = trim_left s in if is_space (code c) then rest else String.◌∷◌ c s

unfoldable pub trim_right : String → String
trim_right String.[] = String.[]
trim_right (String.◌∷◌ c s) =
    let rest = trim_right s in
    if (rest == "") && is_space (code c) then String.[] else String.◌∷◌ c rest

unfoldable pub trim_space : String → String
unfolding trim_left trim_right
trim_space s = trim_right (trim_left s)

-- `strings.HasPrefix` and `strings.Contains`, with the part that is looked for first.
unfoldable pub has_prefix : String → String → Bool
has_prefix String.[] s = true
has_prefix (String.◌∷◌ c p) String.[] = false
has_prefix (String.◌∷◌ c p) (String.◌∷◌ d s) =
    let rest = has_prefix p s in eqb (code c) (code d) && rest

unfoldable pub contains : String → String → Bool
unfolding has_prefix
contains part String.[] = part == ""
contains part (String.◌∷◌ c s) = has_prefix part (String.◌∷◌ c s) || contains part s

-- The letters `a` to `z`, and those that take their place.
abbrev upper_table : List (ℕ × Char)
upper_table =
    (97, "A")
    ∷ (98, "B")
    ∷ (99, "C")
    ∷ (100, "D")
    ∷ (101, "E")
    ∷ (102, "F")
    ∷ (103, "G")
    ∷ (104, "H")
    ∷ (105, "I")
    ∷ (106, "J")
    ∷ (107, "K")
    ∷ (108, "L")
    ∷ (109, "M")
    ∷ (110, "N")
    ∷ (111, "O")
    ∷ (112, "P")
    ∷ (113, "Q")
    ∷ (114, "R")
    ∷ (115, "S")
    ∷ (116, "T")
    ∷ (117, "U")
    ∷ (118, "V")
    ∷ (119, "W")
    ∷ (120, "X")
    ∷ (121, "Y")
    ∷ (122, "Z")
    ∷ []

upper_from : List (ℕ × Char) → Char → Char
upper_from [] c = c
upper_from ((k, u) ∷ rest) c = if eqb k (code c) then u else upper_from rest c

unfoldable pub to_upper : String → String
unfolding upper_from
to_upper String.[] = String.[]
to_upper (String.◌∷◌ c s) = String.◌∷◌ (upper_from upper_table c) (to_upper s)

upper_trim : to_upper (trim_space "  gBp ") ≡ "GBP"
unfolding to_upper trim_space
upper_trim = refl

digit_from : ℕ → List String → String
digit_from n [] = ""
digit_from zero (d ∷ ds) = d
digit_from (suc n) (d ∷ ds) = digit_from n ds

abbrev digit_text : ℕ → String
digit_text n = digit_from n ("0" ∷ "1" ∷ "2" ∷ "3" ∷ "4" ∷ "5" ∷ "6" ∷ "7" ∷ "8" ∷ "9" ∷ [])

-- The decimal digits of a number, before `rest`; `fuel` bounds the number of digits.
digits : ℕ → ℕ → String → String
digits zero n rest = rest
digits (suc fuel) n rest =
    let text = digit_text (n % 10) +++ rest in
    elim (ltb n 10) [ true ↦ text | false ↦ digits fuel (n / 10) text ]

-- `%d` of a number: as many steps as the number, and one more, are enough.
unfoldable pub decimal : ℕ → String
unfolding digits digit_from
decimal n = digits (suc n) n ""

decimal_105 : decimal 105 ≡ "105"
unfolding decimal
decimal_105 = refl
