-- ===== src/Common/Tables.antt =====
-- Tables as lists of rows: the parts of SQL that the services' statements use.
use mathlib.Core.Path.{◌≡◌, refl, ap, subst, sym, ◌∙◌}
use mathlib.Core.Bool.{Bool, true, false, ◌||◌}
use mathlib.Core.Option.{Option, none, some}
use Prim.Native.Nat.{ℕ, zero, suc}
use mathlib.Core.Logic.{inl, inr}
use mathlib.Core.List.Memᴰ.{Memᴰ, head, tail, not-nil}
use mathlib.Core.List.{List, [], ◌∷◌, ◌++◌}
use native.Mathlib.Omega.{arith}
use vrp_oneclick_deposit_pla.Common.Tests.{if◌then◌else◌, leb, Bool-cases}
use vrp_oneclick_deposit_pla.Common.Int64.{ℤ, pos, ◌+ℤ◌, int_laws}

module _ {ℓ} {A : Type ℓ} where
  -- SELECT … WHERE test: the first row.
  unfoldable pub find_row : (A → Bool) → List A → Option A
  find_row test [] = none
  find_row test (x ∷ xs) = if test x then some x else find_row test xs

  -- UPDATE … SET change WHERE test.
  unfoldable pub update_rows : (A → Bool) → (A → A) → List A → List A
  update_rows test change [] = []
  update_rows test change (x ∷ xs) = (if test x then change x else x) ∷ update_rows test change xs

  -- DELETE … WHERE test.
  unfoldable pub delete_rows : (A → Bool) → List A → List A
  delete_rows test [] = []
  delete_rows test (x ∷ xs) = let rest = delete_rows test xs in if test x then rest else x ∷ rest

  -- SELECT COALESCE(SUM(amount), 0) … WHERE test, before it is scanned into an int64.
  unfoldable pub sum_rows : (A → Bool) → (A → ℤ) → List A → ℤ
  sum_rows test amount [] = pos 0
  sum_rows test amount (x ∷ xs) = (if test x then amount x else pos 0) +ℤ sum_rows test amount xs

  -- ORDER BY key: a row stays behind those before it with the same key.
  unfoldable pub insert_by : (A → ℕ) → A → List A → List A
  insert_by key x [] = x ∷ []
  insert_by key x (y ∷ ys) =
      let rest = insert_by key x ys in if leb (key x) (key y) then x ∷ y ∷ ys else y ∷ rest

  unfoldable pub sort_by : (A → ℕ) → List A → List A
  unfolding insert_by
  sort_by key [] = []
  sort_by key (x ∷ xs) = insert_by key x (sort_by key xs)

  -- LIMIT n
  unfoldable pub take : ℕ → List A → List A
  take zero xs = []
  take (suc n) [] = []
  take (suc n) (x ∷ xs) = x ∷ take n xs

  pub find_row-append_hit :
      (test : A → Bool) (xs : List A) (x : A)
      → find_row test xs ≡ none
      → test x ≡ true
      → find_row test (xs ++ x ∷ []) ≡ some x
  unfolding find_row
  find_row-append_hit test [] x h t = ground arith
  find_row-append_hit test (y ∷ xs) x h t = ground (arith, find_row-append_hit test xs x)

  pub find_row-append_old :
      (test : A → Bool) (xs : List A) (x y : A)
      → find_row test xs ≡ some y
      → find_row test (xs ++ x ∷ []) ≡ some y
  unfolding find_row
  find_row-append_old test [] x y h = cc
  find_row-append_old test (z ∷ xs) x y h = ground (arith, find_row-append_old test xs x y)

  pub find_row_hit :
      (test : A → Bool) (xs : List A) (y : A) → find_row test xs ≡ some y → test y ≡ true
  unfolding find_row
  find_row_hit test [] y h = cc
  find_row_hit test (x ∷ xs) y h = ground (arith, find_row_hit test xs y)

  pub sum_rows-append :
      (test : A → Bool) (amount : A → ℤ) (xs : List A) (x : A)
      → sum_rows test amount (xs ++ x ∷ [])
        ≡ sum_rows test amount xs +ℤ (if test x then amount x else pos 0)
  unfolding sum_rows
  sum_rows-append test amount [] x = omega int_laws
  sum_rows-append test amount (y ∷ xs) x = rw (sum_rows-append test amount xs x) (omega int_laws)

  -- What a wider test does not find, a narrower one does not find either.
  pub find_row-or_none :
      (test wider : A → Bool) (xs : List A)
      → find_row (λ x. test x || wider x) xs ≡ none
      → find_row test xs ≡ none
  unfolding find_row
  find_row-or_none test wider [] h = refl
  find_row-or_none test wider (x ∷ xs) h = ground (arith, find_row-or_none test wider xs)

  pub Memᴰ-take : (n : ℕ) (xs : List A) (x : A) → Memᴰ x (take n xs) → Memᴰ x xs
  unfolding take
  Memᴰ-take zero xs x m = absurd (not-nil m)
  Memᴰ-take (suc n) [] x m = m
  Memᴰ-take (suc n) (y ∷ ys) x (head e) = head e
  Memᴰ-take (suc n) (y ∷ ys) x (tail m) = tail (Memᴰ-take n ys x m)

  if_Memᴰ :
      (b : Bool) (xs ys : List A) (x : A) {G : Type ℓ}
      → (Memᴰ x xs → G)
      → (Memᴰ x ys → G)
      → Memᴰ x (if b then xs else ys)
      → G
  if_Memᴰ true xs ys x f g m = f m
  if_Memᴰ false xs ys x f g m = g m

  below_head :
      (x z : A) (xs ys : List A) → (Memᴰ x xs → Memᴰ x ys) → Memᴰ x (z ∷ xs) → Memᴰ x (z ∷ ys)
  below_head x z xs ys f (head e) = head e
  below_head x z xs ys f (tail m) = tail (f m)

  swap_heads : (x y z : A) (xs : List A) → Memᴰ x (z ∷ y ∷ xs) → Memᴰ x (y ∷ z ∷ xs)
  swap_heads x y z xs (head e) = tail (head e)
  swap_heads x y z xs (tail (head e)) = head e
  swap_heads x y z xs (tail (tail m)) = tail (tail m)

  Memᴰ-insert_by :
      (key : A → ℕ) (y : A) (ys : List A) (x : A) → Memᴰ x (insert_by key y ys) → Memᴰ x (y ∷ ys)
  unfolding insert_by
  Memᴰ-insert_by key y [] x m = m
  Memᴰ-insert_by key y (z ∷ zs) x m =
      if_Memᴰ (leb (key y) (key z)) (y ∷ z ∷ zs) (z ∷ insert_by key y zs) x (λ k. k)
        (λ k. swap_heads x y z zs (below_head x z _ _ (Memᴰ-insert_by key y zs x) k)) m

  -- The sorted rows are rows of the table.
  pub Memᴰ-sort_by : (key : A → ℕ) (xs : List A) (x : A) → Memᴰ x (sort_by key xs) → Memᴰ x xs
  unfolding sort_by
  Memᴰ-sort_by key [] x m = m
  Memᴰ-sort_by key (y ∷ ys) x m =
      below_head x y _ _ (Memᴰ-sort_by key ys x) (Memᴰ-insert_by key y (sort_by key ys) x m)

  -- A row that is not deleted stays.
  pub Memᴰ-delete_rows :
      (test : A → Bool) (xs : List A) (x : A)
      → test x ≡ false
      → Memᴰ x xs
      → Memᴰ x (delete_rows test xs)
  unfolding delete_rows
  Memᴰ-delete_rows test [] x h m = absurd (not-nil m)
  Memᴰ-delete_rows test (y ∷ ys) x h (head e) =
      let n : test y ≡ false = ap test (sym e) ∙ h in rw n (head e)
  Memᴰ-delete_rows test (y ∷ ys) x h (tail m) =
      let rest = Memᴰ-delete_rows test ys x h m in
      elim (Bool-cases (test y)) [ inl e ↦ rw e rest | inr e ↦ rw e (tail rest) ]

  kept_row :
      (test : A → Bool) (x y : A) (ys : List A)
      → test y ≡ false
      → (Memᴰ x (delete_rows test ys) → Memᴰ x ys × (test x ≡ false))
      → Memᴰ x (y ∷ delete_rows test ys)
      → Memᴰ x (y ∷ ys) × (test x ≡ false)
  kept_row test x y ys n f (head e) = (head e, ap test e ∙ n)
  kept_row test x y ys n f (tail k) = let rest = f k in (tail rest.0, rest.1)

  -- A row that is in the table after a deletion was there before, and the test refuses it.
  pub delete_rows-Memᴰ :
      (test : A → Bool) (xs : List A) (x : A)
      → Memᴰ x (delete_rows test xs)
      → Memᴰ x xs × (test x ≡ false)
  unfolding delete_rows
  delete_rows-Memᴰ test [] x m = absurd (not-nil m)
  delete_rows-Memᴰ test (y ∷ ys) x m = elim (Bool-cases (test y)) [
    | inl e ↦
        let rest =
          delete_rows-Memᴰ test ys x (
            subst (λ b. Memᴰ x (if b then delete_rows test ys else y ∷ delete_rows test ys)) e m) in
        (tail rest.0, rest.1)
    | inr e ↦
        kept_row test x y ys e (delete_rows-Memᴰ test ys x)
          (subst (λ b. Memᴰ x (if b then delete_rows test ys else y ∷ delete_rows test ys)) e m)
  ]
