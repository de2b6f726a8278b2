-- ===== src/Common/Pages.antt =====
-- Pages of a table: LIMIT and OFFSET, with lengths in the native numbers.
pub mod Order
use Prim.Native.Nat.{ℕ, zero, suc, ◌+◌, ◌-◌, ◌<◌, ◌≤◌}
use mathlib.Core.Path.{◌≡◌, refl, ap, sym, ◌∙◌}
use mathlib.Core.Bool.{Bool}
use mathlib.Core.List.{List, [], ◌∷◌, ◌++◌}
use native.Mathlib.Omega.{arith}
use vrp_oneclick_deposit_pla.Common.Tests.{if◌then◌else◌, leb}
use vrp_oneclick_deposit_pla.Common.Tables.{take}

module _ {ℓ} {A : Type ℓ} where
  abbrev pub length : List A → ℕ
  length [] = 0
  length (x ∷ xs) = suc (length xs)

  unfoldable pub drop : ℕ → List A → List A
  drop zero xs = xs
  drop (suc n) [] = []
  drop (suc n) (x ∷ xs) = drop n xs

  -- SELECT … WHERE test: all rows.
  unfoldable pub select_rows : (A → Bool) → List A → List A
  select_rows test [] = []
  select_rows test (x ∷ xs) = let rest = select_rows test xs in if test x then x ∷ rest else rest

  -- ORDER BY key DESC; rows of one key come in the order of the table.
  unfoldable pub insert_newest : (A → ℕ) → A → List A → List A
  insert_newest key x [] = x ∷ []
  insert_newest key x (y ∷ ys) =
      let rest = insert_newest key x ys in if leb (key y) (key x) then x ∷ y ∷ ys else y ∷ rest

  unfoldable pub newest_first : (A → ℕ) → List A → List A
  unfolding insert_newest
  newest_first key [] = []
  newest_first key (x ∷ xs) = insert_newest key x (newest_first key xs)

  -- LIMIT limit OFFSET offset
  unfoldable pub page : ℕ → ℕ → List A → List A
  unfolding take drop
  page limit offset xs = take limit (drop offset xs)

  take-append-drop : (n : ℕ) (xs : List A) → take n xs ++ drop (length (take n xs)) xs ≡ xs
  unfolding take drop
  take-append-drop zero xs = refl
  take-append-drop (suc n) [] = refl
  take-append-drop (suc n) (x ∷ xs) = ap (λ (ys : List A). x ∷ ys) (take-append-drop n xs)

  drop-nil : (n : ℕ) → drop n [] ≡ []
  unfolding drop
  drop-nil zero = refl
  drop-nil (suc n) = refl

  drop-add : (a b : ℕ) (xs : List A) → drop (a + b) xs ≡ drop b (drop a xs)
  unfolding drop
  drop-add zero b xs = ap (λ (n : ℕ). drop n xs) (omega arith)
  drop-add (suc a) b [] = drop-nil (suc a + b) ∙ sym (drop-nil b)
  drop-add (suc a) b (x ∷ xs) =
      let same : suc a + b ≡ suc (a + b) = omega arith in rw same (drop-add a b xs)

  length-take : (n : ℕ) (xs : List A) → length (take n xs) ≤ length xs
  unfolding take
  length-take zero xs = omega arith
  length-take (suc n) [] = omega arith
  length-take (suc n) (x ∷ xs) = omega (arith, length-take n xs)

  -- A page and what is behind it.
  pub page-append-drop :
      (limit offset : ℕ) (xs : List A)
      → page limit offset xs ++ drop (offset + length (page limit offset xs)) xs ≡ drop offset xs
  unfolding page
  page-append-drop limit offset xs =
      rw (drop-add offset (length (take limit (drop offset xs))) xs)
        (take-append-drop limit (drop offset xs))

  length-drop : (n : ℕ) (xs : List A) → length (drop n xs) ≡ length xs - n
  unfolding drop
  length-drop zero xs = omega arith
  length-drop (suc n) [] = omega arith
  length-drop (suc n) (x ∷ xs) = omega (arith, length-drop n xs)

  -- Behind the end there is nothing.
  pub drop-all : (n : ℕ) (xs : List A) → length xs ≤ n → drop n xs ≡ []
  unfolding drop
  drop-all zero [] h = refl
  drop-all zero (x ∷ xs) h = absurd (omega arith)
  drop-all (suc n) [] h = refl
  drop-all (suc n) (x ∷ xs) h = drop-all n xs (omega arith)

  -- A page within the table is not empty.
  pub page_nonempty :
      (limit offset : ℕ) (xs : List A)
      → 0 < limit
      → offset < length xs
      → 0 < length (page limit offset xs)
  unfolding page take drop
  page_nonempty zero offset xs h k = absurd (omega arith)
  page_nonempty (suc limit) offset [] h k = absurd (omega arith)
  page_nonempty (suc limit) zero (x ∷ xs) h k = omega arith
  page_nonempty (suc limit) (suc offset) (x ∷ xs) h k =
      page_nonempty (suc limit) offset xs h (omega arith)

  -- A page starts and ends within the table.
  pub page-within :
      (limit offset : ℕ) (xs : List A)
      → offset ≤ length xs
      → offset + length (page limit offset xs) ≤ length xs
  unfolding page
  page-within limit offset xs h =
      let fits = length-take limit (drop offset xs) in
      let left = length-drop offset xs in omega arith
