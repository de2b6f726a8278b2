-- ===== src/Merchant/Service/Lookup.antt =====
-- services/merchant-svc/internal/service.go: a merchant that has registered is found by its key.
use Prim.Native.Char.{Char, code}
use vrp_oneclick_deposit_pla.Common.{
  ℕ, zero, suc, ◌+◌, ◌-◌, ◌≤◌, ◌/◌, ◌%◌, false, Option, none, some, String, List, [], ◌∷◌, ◌==◌,
  ◌+++◌, ltb, eqb, if◌then◌else◌, trim_space, byte_len, char_bytes, is_space, ◌≡◌, refl, ap, subst,
  arith, eq_iff, Bool-cases, inl, inr,
}
use vrp_oneclick_deposit_pla.Domainerr.{Result, ok, err}
use vrp_oneclick_deposit_pla.Merchant.Service.{
  Crypto, hex_digits, digit_of, encode_hex, byte_prefix, api_key_prefix, generate_api_key,
  random_hex,
}
use vrp_oneclick_deposit_pla.Common.Text.Space.{NoSpace, trim_space-NoSpace}

-- A prefix is cut from a text that is at least as long.
pub byte_prefix-le : (n : ℕ) (s p : String) → byte_prefix n s ≡ some p → n ≤ byte_len s
unfolding byte_prefix
byte_prefix-le n String.[] p h = ground arith
byte_prefix-le n (String.◌∷◌ c s) p h =
    cut (char_bytes (code c)) (byte_prefix (n - char_bytes (code c)) s)
      (byte_prefix-le (n - char_bytes (code c)) s) h
  where
    cut :
        (k : ℕ) (o : Option String)
        → ((q : String) → o ≡ some q → n - k ≤ byte_len s)
        → (if eqb n 0
            then some ""
            else if ltb n k
            then none
            else elim o [ none ↦ none | some q ↦ some (String.◌∷◌ c q) ])
          ≡ some p
        → n ≤ k + byte_len s
    cut k none f h = ground arith
    cut k (some q) f h = let fits = f q refl in omega arith

-- Digits are no spaces.
abbrev Digits : List Char → Type 0
Digits [] = Unit {0}
Digits (c ∷ cs) = (is_space (code c) ≡ false) × Digits cs

digit_of-Digits : (cs : List Char) (n : ℕ) → Digits cs → is_space (code (digit_of cs n)) ≡ false
unfolding digit_of
digit_of-Digits [] n h = refl
digit_of-Digits (c ∷ cs) zero h = h.0
digit_of-Digits (c ∷ cs) (suc n) h = digit_of-Digits cs n h.1

hex_digits-Digits : Digits hex_digits
hex_digits-Digits = (
  refl,
  (
    refl,
    (
      refl,
      (
        refl,
        (
          refl,
          (
            refl,
            (refl, (refl, (refl, (refl, (refl, (refl, (refl, (refl, (refl, (refl, tt)))))))))),
          ),
        ),
      ),
    ),
  ),
)

encode_hex-NoSpace : (bs : List ℕ) → NoSpace (encode_hex bs)
unfolding encode_hex
encode_hex-NoSpace [] = tt
encode_hex-NoSpace (b ∷ bs) = (
  digit_of-Digits hex_digits (b / 16) hex_digits-Digits,
  (digit_of-Digits hex_digits (b % 16) hex_digits-Digits, encode_hex-NoSpace bs),
)

-- A new key is kept by `strings.TrimSpace`.
pub trim_space-generate_api_key :
    (crypto : Crypto) (key : String) → generate_api_key crypto ≡ ok key → trim_space key ≡ key
unfolding generate_api_key random_hex
trim_space-generate_api_key crypto key = by_bytes (crypto.random 0 32)
  where
    by_bytes :
        (r : Result (List ℕ))
        → ◌≡◌ {A = Result String}
            (let text : Result String = elim r [ ok bs ↦ ok (encode_hex bs) | err e ↦ err e ] in
              elim text [ ok t ↦ ok (api_key_prefix +++ t) | err e ↦ err e ])
            (ok key)
        → trim_space key ≡ key
    by_bytes (err e) h = cc (h)
    by_bytes (ok bs) h =
        subst (λ (k : String). trim_space k ≡ k) (cc (h))
          (trim_space-NoSpace (api_key_prefix +++ encode_hex bs)
            (refl, (refl, (refl, (refl, encode_hex-NoSpace bs)))))

-- A text of eight bytes is not empty.
pub long-ne-empty : (s : String) → 8 ≤ byte_len s → (s == "") ≡ false
long-ne-empty s h = elim (Bool-cases (s == "")) [
  | inl y ↦ absurd (let e = ap byte_len ((eq_iff s "").0 y) in omega arith)
  | inr n ↦ n
]
