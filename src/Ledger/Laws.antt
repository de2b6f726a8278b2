-- ===== src/Ledger/Laws.antt =====
-- What `PostDoubleEntry` of services/ledger-svc/internal/store.go accepts.
use vrp_oneclick_deposit_pla.Common.{
  ℕ, suc, ◌+◌, ◌<◌, ◌^◌, Bool, true, false, not, ◌||◌, ◌&&◌, String, byte_len, ◌==◌, eq_iff, List,
  [], ◌∷◌, map, ◌≡◌, refl, sym, ap, subst, ◌∙◌, arith, if◌then◌else◌, ℤ, pos, negsuc, pos_part,
  ◌<ℤ◌, ◌+ℤ◌, wrap64, add64, leb_ℤ, ltb_ℤ, Bool-cases, inl, inr, ◌⊎◌, eqb,
}
use vrp_oneclick_deposit_pla.Domainerr.{Err, Result, ok, err, reject_if, ◌>>=◌, ◌>>◌}
use vrp_oneclick_deposit_pla.Ledger.{
  LineInput, Totals, check_line, check_lines, check_entry, add_line, normalized, normalized_line,
  at_least_two, zero_totals,
}

-- A line that may be inserted, in the currency `c`.
pub record Good (c : String) (l : LineInput) : Type 0 where
  pub account : (l.account_type == "") ≡ false
  pub direction : (l.direction ≡ "DR") ⊎ (l.direction ≡ "CR")
  pub amount : pos 0 <ℤ l.amount_pence
  pub currency : l.currency ≡ c

pub data All (c : String) : List LineInput → Type 0 where
  none_left : All c []
  one_more : (l : LineInput) (ls : List LineInput) → Good c l → All c ls → All c (l ∷ ls)

-- The sum of the amounts in a direction, from `acc`, in int64.
unfoldable pub sum64 : String → ℤ → List LineInput → ℤ
sum64 d acc [] = acc
sum64 d acc (l ∷ ls) = sum64 d (if l.direction == d then add64 acc l.amount_pence else acc) ls

pub reject_inv :
    {A : Type 0} (b : Bool) (e : Err) (k : Result A) {a : A}
    → (reject_if b e >> k) ≡ ok a
    → (b ≡ false) × (k ≡ ok a)
reject_inv true e k h = cc
reject_inv false e k h = (refl, h)

reject_last : (b : Bool) (e : Err) → reject_if b e ≡ ok tt → b ≡ false
reject_last true e h = cc
reject_last false e h = refl

pub bind_inv :
    {A B : Type 0} (r : Result A) (f : A → Result B) {b : B}
    → (r >>= f) ≡ ok b
    → (a : A) × (r ≡ ok a) × (f a ≡ ok b)
bind_inv (ok a) f h = (a, refl, h)
bind_inv (err e) f h = cc

ok_injective : {A : Type 0} {a b : A} → ok a ≡ ok b → a ≡ b
ok_injective h = cc (h)

same_total : (a b : ℤ) → (ltb_ℤ a b || ltb_ℤ b a) ≡ false → a ≡ b
same_total a b h = ground arith

one_of : (d s t : String) → (not (d == s) && not (d == t)) ≡ false → (d ≡ s) ⊎ (d ≡ t)
one_of d s t h = elim (Bool-cases (d == s)) [
  | inl e ↦ inl ((eq_iff d s).0 e)
  | inr e ↦ inr ((eq_iff d t).0 (ground arith))
]

same_or_first : (c n : String) → (not (c == "") && not (n == c)) ≡ false → (c ≡ "") ⊎ (c ≡ n)
same_or_first c n h = elim (Bool-cases (c == "")) [
  | inl e ↦ inl ((eq_iff c "").0 e)
  | inr e ↦ inr (sym ((eq_iff n c).0 (ground arith)))
]

pub then_inv :
    {A : Type 0} (r : Result (Unit {0})) (k : Result A) {a : A}
    → (r >> k) ≡ ok a
    → (r ≡ ok tt) × (k ≡ ok a)
then_inv (ok tt) k h = (refl, h)
then_inv (err e) k h = cc

check_lines-totals :
    (i : ℕ) (c : String) (t u : Totals) (ls : List LineInput)
    → check_lines i c t ls ≡ ok u
    → (u.debit ≡ sum64 "DR" t.debit (map normalized_line ls))
      × (u.credit ≡ sum64 "CR" t.credit (map normalized_line ls))
unfolding check_lines sum64 add_line
check_lines-totals i c t u [] h = (cc, cc)
check_lines-totals i c t u (l ∷ ls) h =
    check_lines-totals (suc i) (normalized l.currency) (add_line t l) u ls
      (then_inv (check_line i c l) _ h).1

-- What the checks of a line establish; `c` is the currency of the lines before it.
pub record Checked (c : String) (l : LineInput) : Type 0 where
  pub good : Good (normalized l.currency) (normalized_line l)
  pub three : byte_len (normalized l.currency) ≡ 3
  pub same : (c ≡ "") ⊎ (c ≡ normalized l.currency)

pub check_line-Checked :
    (i : ℕ) (c : String) (l : LineInput) → check_line i c l ≡ ok tt → Checked c l
unfolding check_line
check_line-Checked i c l h =
    let (account, h1) = reject_inv (l.account_type == "") _ _ h in
    let (owner, h2) = reject_inv _ _ _ h1 in
    let (way, h3) = reject_inv (not (l.direction == "DR") && not (l.direction == "CR")) _ _ h2 in
    let (positive, h4) = reject_inv (leb_ℤ l.amount_pence (pos 0)) _ _ h3 in
    let (size, h5) = reject_inv (not (eqb (byte_len (normalized l.currency)) 3)) _ _ h4 in
    let same = reject_last _ _ h5 in
    record {
      good = record {
        account = account;
        direction = one_of l.direction "DR" "CR" way;
        amount = ground arith;
        currency = refl;
      };
      three = ground arith;
      same = same_or_first c (normalized l.currency) same;
    }

-- The currency of the lines is that of the first of them.
check_lines-All :
    (i : ℕ) (c : String) (t u : Totals) (ls : List LineInput)
    → byte_len c ≡ 3
    → check_lines i c t ls ≡ ok u
    → All c (map normalized_line ls)
unfolding check_lines
check_lines-All i c t u [] k h = none_left
check_lines-All i c t u (l ∷ ls) k h =
    let (first, rest) = then_inv (check_line i c l) _ h in
    let x = check_line-Checked i c l first in
    let same : normalized l.currency ≡ c = elim x.same [
      | inl e ↦ cc (sym (ap byte_len e) ∙ k)
      | inr e ↦ sym e
    ] in
    one_more _ _ (subst (λ d. Good d (normalized_line l)) same x.good) (
      subst (λ d. All d (map normalized_line ls)) same
        (check_lines-All (suc i) (normalized l.currency) (add_line t l) u ls x.three rest))

-- Lines of positive amounts in one currency of three bytes, with the same sums in int64 on the debit
-- side and on the credit side.
record Accepted (lines : List LineInput) : Type 0 where
  pub currency : String
  pub three : byte_len currency ≡ 3
  pub good : All currency lines
  pub balanced : sum64 "DR" (pos 0) lines ≡ sum64 "CR" (pos 0) lines

check_entry-Accepted :
    (payment_id : String) (lines out : List LineInput)
    → check_entry payment_id lines ≡ ok out
    → Accepted out
unfolding check_entry check_lines
check_entry-Accepted payment_id [] out h =
    let (_, h1) = reject_inv (payment_id == "") _ _ h in
    let (impossible, _) = reject_inv true _ (ok []) h1 in
    subst (λ b. elim b [ true ↦ Unit | false ↦ Accepted out ]) impossible tt
check_entry-Accepted payment_id (l ∷ ls) out h =
    let (_, h1) = reject_inv (payment_id == "") _ _ h in
    let (_, h2) = reject_inv (not (at_least_two (l ∷ ls))) _ _ h1 in
    let (t, run, h3) = bind_inv (check_lines 0 "" zero_totals (l ∷ ls)) _ h2 in
    let (even, h4) = reject_inv (ltb_ℤ t.debit t.credit || ltb_ℤ t.credit t.debit) _ _ h3 in
    let (first, rest) = then_inv (check_line 0 "" l) _ run in
    let x = check_line-Checked 0 "" l first in
    let (debit, credit) = check_lines-totals 0 "" zero_totals t (l ∷ ls) run in
    subst Accepted (ok_injective h4) (record {
      currency = normalized l.currency;
      three = x.three;
      good =
          one_more _ _ x.good
            (check_lines-All 1 (normalized l.currency) (add_line zero_totals l) t ls x.three rest);
      balanced = sym debit ∙ (same_total t.debit t.credit even ∙ credit);
    })

-- The sum of the amounts in a direction, without wrap-around; the amounts are positive.
unfoldable pub total : String → List LineInput → ℕ
total d [] = 0
total d (l ∷ ls) = (if l.direction == d then pos_part l.amount_pence else 0) + total d ls

add64_pos :
    (a : ℕ) (z : ℤ) → pos 0 <ℤ z → a + pos_part z < 2 ^ 63 → add64 (pos a) z ≡ pos (a + pos_part z)
unfolding add64 ◌+ℤ◌ wrap64
add64_pos a (pos n) h k = ground arith
add64_pos a (negsuc n) h k = absurd (omega arith)

-- In int64 the sum is exact where it fits.
sum64-total :
    (d c : String) (acc : ℕ) (ls : List LineInput)
    → All c ls
    → acc + total d ls < 2 ^ 63
    → sum64 d (pos acc) ls ≡ pos (acc + total d ls)
unfolding sum64 total
sum64-total d c acc [] none_left h = cc (ap pos (plus_zero acc))
  where
    plus_zero : (n : ℕ) → n ≡ n + 0
    plus_zero n = omega arith
sum64-total d c acc (l ∷ ls) (one_more _ _ g k) h = elim (Bool-cases (l.direction == d)) [
  | inl y ↦
      let n = pos_part l.amount_pence in
      let fits : acc + n + total d ls < 2 ^ 63 = ground arith in
      let first = add64_pos acc l.amount_pence g.amount (omega arith) in
      let rest = sum64-total d c (acc + n) ls k fits in
      let same : acc + n + total d ls ≡ acc + (n + total d ls) = omega arith in
      rw y (rw first (rest ∙ ap pos same))
  | inr o ↦
      let same : acc + total d ls ≡ acc + (0 + total d ls) = omega arith in
      rw o (sum64-total d c acc ls k (ground arith) ∙ ap pos same)
]

-- Lines of positive amounts in one currency of three bytes, whose debits and credits have equal totals.
pub record Sound (lines : List LineInput) : Type 0 where
  pub currency : String
  pub three : byte_len currency ≡ 3
  pub good : All currency lines
  pub balanced : total "DR" lines ≡ total "CR" lines

-- The lines of an entry that is accepted are sound, if the total of the debits and the total of the
-- credits fit an int64.
pub check_entry-Sound :
    (payment_id : String) (lines out : List LineInput)
    → check_entry payment_id lines ≡ ok out
    → total "DR" out < 2 ^ 63
    → total "CR" out < 2 ^ 63
    → Sound out
check_entry-Sound payment_id lines out h d c =
    let a = check_entry-Accepted payment_id lines out h in
    let debit = sum64-total "DR" a.currency 0 out a.good (omega arith) in
    let credit = sum64-total "CR" a.currency 0 out a.good (omega arith) in
    let same : pos (0 + total "DR" out) ≡ pos (0 + total "CR" out) =
      sym debit ∙ (a.balanced ∙ credit) in
    record { currency = a.currency; three = a.three; good = a.good; balanced = ground arith }
