-- ===== src/Common/Pages/Order.antt =====
-- ORDER BY key DESC of rows in whatever order: where no two rows have one key, the result is the same.
use Prim.Native.Nat.{ℕ}
use mathlib.Core.Path.{◌≡◌, refl, ◌∙◌}
use mathlib.Core.List.{List, [], ◌∷◌}
use mathlib.Core.List.Memᴰ.{Memᴰ, head, tail}
use mathlib.Core.List.Permᴰ.{Permᴰ, nil, cons, swap, trans, symm}
use native.Mathlib.Omega.{arith}
use vrp_oneclick_deposit_pla.Common.Pages.{insert_newest, newest_first}

module _ {A : Type 0} where
  pub Memᴰ-Permᴰ : (a : A) (xs ys : List A) → Permᴰ xs ys → Memᴰ a xs → Memᴰ a ys
  Memᴰ-Permᴰ a _ _ nil m = m
  Memᴰ-Permᴰ a _ _ (cons e p) (head h) = head (h ∙ e)
  Memᴰ-Permᴰ a _ _ (cons e p) (tail m) = tail (Memᴰ-Permᴰ a _ _ p m)
  Memᴰ-Permᴰ a _ _ (swap e f) (head h) = tail (head (h ∙ e))
  Memᴰ-Permᴰ a _ _ (swap e f) (tail (head h)) = head (h ∙ f)
  Memᴰ-Permᴰ a _ _ (swap e f) (tail (tail m)) = tail (tail m)
  Memᴰ-Permᴰ a _ _ (trans p q) m = Memᴰ-Permᴰ a _ _ q (Memᴰ-Permᴰ a _ _ p m)

module _ {A : Type 0} (key : A → ℕ) where
  -- Rows of one key are one row.
  abbrev pub KeyOnce : List A → Type 0
  KeyOnce xs = (a b : A) → Memᴰ a xs → Memᴰ b xs → key a ≡ key b → a ≡ b

  insert_newest_comm :
      (a b : A) (xs : List A)
      → (key a ≡ key b → a ≡ b)
      → insert_newest key a (insert_newest key b xs) ≡ insert_newest key b (insert_newest key a xs)
  unfolding insert_newest
  insert_newest_comm a b [] h = ground (arith, h)
  insert_newest_comm a b (x ∷ xs) h = ground (arith, h, insert_newest_comm a b xs h)

  pub newest_first-Permᴰ :
      (xs ys : List A) → Permᴰ xs ys → KeyOnce xs → newest_first key xs ≡ newest_first key ys
  unfolding newest_first
  newest_first-Permᴰ _ _ nil h = refl
  newest_first-Permᴰ (a ∷ xs) (b ∷ ys) (cons e p) h =
      let rest = newest_first-Permᴰ xs ys p (λ c d m n. h c d (tail m) (tail n)) in cc (e, rest)
  newest_first-Permᴰ (a ∷ b ∷ xs) (c ∷ d ∷ ys) (swap e f) h =
      let comm =
        insert_newest_comm a b (newest_first key xs) (h a b (head refl) (tail (head refl))) in
      cc (e, f, comm)
  newest_first-Permᴰ xs ys (trans p q) h =
      newest_first-Permᴰ xs _ p h
      ∙ newest_first-Permᴰ _ ys q
          (λ a b m n. h a b (Memᴰ-Permᴰ a _ _ (symm p) m) (Memᴰ-Permᴰ b _ _ (symm p) n))
