-- ===== src/Ledger/Store/Sums.antt =====
-- What a transaction of services/ledger-svc/internal/store.go does to the sums of the journal.
use vrp_oneclick_deposit_pla.Common.{
  Bool, true, String, List, [], ◌∷◌, ◌++◌, ◌≡◌, ℤ, pos, ◌+ℤ◌, ◌≤◌, arith, inl, inr, ◌⊎◌, subst, sym,
  ◌∙◌, ap, sum_rows, int_laws, Bool-cases, ◌==◌, eq_iff,
}
use mathlib.Core.List.{append-nil}
use vrp_oneclick_deposit_pla.Ledger.Journal.{
  Journal, LineRow, are_settled, drop_rows, count_lines, entry_sum, signed, of_entry,
}
use vrp_oneclick_deposit_pla.Ledger.Journal.Laws.{
  Balanced, Inserted, nothing, inserted, signed_sum, size, Inserted-total, Inserted-own,
  Inserted-other, Inserted-count, sum_rows-++, drop_rows-++, are_settled-zero,
}
use vrp_oneclick_deposit_pla.Ledger.Statements.Laws.{Added, Step, nothing_added, entry_added}

-- The sum over the old lines and the new ones.
grown_sum :
    (test : LineRow → Bool) (old new all : List LineRow)
    → all ≡ old ++ new
    → sum_rows test signed all ≡ sum_rows test signed old +ℤ sum_rows test signed new
grown_sum test old new all h = ap (λ ls. sum_rows test signed ls) h ∙ sum_rows-++ test old new

no_change :
    (test : LineRow → Bool) (old new all : List LineRow)
    → all ≡ old ++ new
    → sum_rows test signed old ≡ pos 0
    → sum_rows test signed new ≡ pos 0
    → sum_rows test signed all ≡ pos 0
no_change test old new all h o n =
    let zero : pos 0 +ℤ pos 0 ≡ pos 0 = omega int_laws in
    cc (grown_sum test old new all h, o, n, zero)

last_zero : (all old new k : ℤ) → all ≡ old +ℤ new → all ≡ pos 0 → old ≡ pos 0 → new ≡ k → k ≡ pos 0
last_zero all old new k s a o e =
    let zero : (pos 0 +ℤ k) ≡ k = omega int_laws in cc (s, a, o, e, zero)

-- The trigger has two lines or more sum up to zero.
trigger_sum :
    (before j : Journal) (entry : String) (ks : List (String × ℤ)) (rows : List LineRow)
    → Balanced before
    → 2 ≤ size ks
    → Inserted entry ks rows
    → j.lines ≡ before.lines ++ rows
    → are_settled j (drop_rows before.lines j.lines) ≡ true
    → signed_sum ks ≡ pos 0
unfolding size
trigger_sum before j entry [] [] b n nothing x h = absurd (omega arith)
trigger_sum before j entry _ _ b n (inserted row d z ks rows e f g rest) x h =
    let i = inserted row d z ks rows e f g rest in
    let fresh : drop_rows before.lines j.lines ≡ row ∷ rows =
      ap (λ ls. drop_rows before.lines ls) x ∙ drop_rows-++ before.lines (row ∷ rows) in
    let settled : are_settled j (row ∷ rows) ≡ true =
      subst (λ ls. are_settled j ls ≡ true) fresh h in
    let counted : 2 ≤ count_lines entry j.lines =
      subst (λ ls. 2 ≤ count_lines entry ls) (sym x)
        (let c = Inserted-count entry before.lines ((d, z) ∷ ks) (row ∷ rows) i in omega arith) in
    let final = are_settled-zero entry j row rows e counted settled in
    let grown = grown_sum (of_entry entry) before.lines (row ∷ rows) j.lines x in
    let old = b.entries entry in
    let own = Inserted-own entry ((d, z) ∷ ks) (row ∷ rows) i in
    last_zero _ _ _ _ grown final old own

-- The sum of an entry's new lines is zero, by themselves or by the trigger.
step_sum :
    (before j : Journal) (entry : String) (ks : List (String × ℤ))
    → Balanced before
    → (2 ≤ size ks) ⊎ (signed_sum ks ≡ pos 0)
    → Added before [] entry ks j
    → are_settled j (drop_rows before.lines j.lines) ≡ true
    → signed_sum ks ≡ pos 0
step_sum before j entry ks b (inr z) a h = z
step_sum before j entry ks b (inl n) a h =
    trigger_sum before j entry ks a.rows b n a.inserted_rows a.extends.lines h

pub Step-Balanced :
    (before j : Journal)
    → Balanced before
    → Step before j
    → are_settled j (drop_rows before.lines j.lines) ≡ true
    → Balanced j
Step-Balanced before j b (nothing_added x) h =
    let same : j.lines ≡ before.lines = x.lines ∙ append-nil before.lines in
    record {
      valid = x.valid;
      entries = λ e. ap (λ ls. sum_rows (of_entry e) signed ls) same ∙ b.entries e;
      all = ap (λ ls. sum_rows (λ (_ : LineRow). true) signed ls) same ∙ b.all;
    }
Step-Balanced before j b (entry_added entry ks c a) h =
    let z = step_sum before j entry ks b c a h in
    let total = Inserted-total entry ks a.rows a.inserted_rows in
    record {
      valid = a.extends.valid;
      entries = λ e. elim (Bool-cases (entry == e)) [
        | inl y ↦
            subst (λ x. entry_sum x j ≡ pos 0) ((eq_iff entry e).0 y)
              (no_change (of_entry entry) before.lines a.rows j.lines a.extends.lines
                (b.entries entry) (Inserted-own entry ks a.rows a.inserted_rows ∙ z))
        | inr n ↦
            no_change (of_entry e) before.lines a.rows j.lines a.extends.lines (b.entries e)
              (Inserted-other entry e ks a.rows n a.inserted_rows)
      ];
      all = no_change (λ _. true) before.lines a.rows j.lines a.extends.lines b.all (total ∙ z);
    }
