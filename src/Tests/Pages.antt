-- ===== src/Tests/Pages.antt =====
-- Runs of the consent service's handler, services/consent-svc/internal/handler.go.
use vrp_oneclick_deposit_pla.Common.{
  ◌≡◌, ◌<◌, ◌^◌, refl, sym, subst, ap, ◌∙◌, eqb, if◌then◌else◌, List, Bool, true, false, [], ◌∷◌,
  pos, map, suc, arith, String, ℕ,
}
use vrp_oneclick_deposit_pla.Common.Pages.{length}
use vrp_oneclick_deposit_pla.Domainerr.{ok}
use vrp_oneclick_deposit_pla.Postgres.{Session}
use vrp_oneclick_deposit_pla.Consent.{ConsentRow, Tables, active}
use vrp_oneclick_deposit_pla.Consent.Service.Reads.{Scan, matching, ordered}
use vrp_oneclick_deposit_pla.Common.Pages.Order.{KeyOnce}
use mathlib.Core.List.Permᴰ.{Permᴰ}
use mathlib.Core.List.Permᴰ
use mathlib.Core.List.Memᴰ.{Memᴰ, head, tail, not-nil}
use vrp_oneclick_deposit_pla.Consent.Handler.{unspecified, wanted_status, to_proto_consent}
use vrp_oneclick_deposit_pla.Consent.Handler.Paging.{pages, pages-listed}
use vrp_oneclick_deposit_pla.Tests.Sagas.{server}

abbrev consent : String → ℕ → ConsentRow
consent id at = record {
  id = id;
  merchant_id = "m";
  consumer_id = "consumer";
  bank_consent_ref = id;
  status = active;
  max_amount_pence = pos 100;
  max_monthly_pence = pos 1000;
  currency = "GBP";
  valid_from = 1;
  valid_until = 50;
  created_at = at;
  updated_at = at;
}

abbrev stored : Session Tables
stored = record {
  tables = record {
    consents = consent "a" 1 ∷ consent "b" 2 ∷ consent "c" 3 ∷ [];
    reservations = [];
    usages = [];
  };
  count = 0;
  aborted = false;
}

abbrev found : List ConsentRow
found = matching "consumer" "" (wanted_status unspecified) stored.tables.consents

three : length (ordered found) ≡ 3
unfolding matching ordered wanted_status
three = refl

abbrev swapped : List ConsentRow → List ConsentRow
swapped (a ∷ b ∷ more) = b ∷ a ∷ more
swapped more = more

swapped-Permᴰ : (cs : List ConsentRow) → Permᴰ (swapped cs) cs
swapped-Permᴰ [] = Permᴰ.refl []
swapped-Permᴰ (a ∷ []) = Permᴰ.refl (a ∷ [])
swapped-Permᴰ (a ∷ b ∷ more) = Permᴰ.swap refl refl

-- The first statement comes upon the consents in another order than the next ones.
abbrev scan : Scan
scan n cs = if eqb n 0 then swapped cs else cs

scan-Permᴰ : (n : ℕ) (cs : List ConsentRow) → Permᴰ (scan n cs) cs
scan-Permᴰ n cs = by_test (eqb n 0)
  where
    by_test : (b : Bool) → Permᴰ (if b then swapped cs else cs) cs
    by_test true = swapped-Permᴰ cs
    by_test false = Permᴰ.refl cs

-- The consent of a time.
abbrev at_time : ℕ → ConsentRow
at_time n = if eqb n 1 then consent "a" 1 else if eqb n 2 then consent "b" 2 else consent "c" 3

by_time : (c : ConsentRow) → Memᴰ c found → c ≡ at_time c.created_at
unfolding matching wanted_status
by_time c (head e) = rw e refl
by_time c (tail (head e)) = rw e refl
by_time c (tail (tail (head e))) = rw e refl
by_time c (tail (tail (tail m))) = absurd (not-nil m)

found-KeyOnce : KeyOnce (λ (c : ConsentRow). c.created_at) found
found-KeyOnce a b m n h = by_time a m ∙ (ap at_time h ∙ sym (by_time b n))

-- One consent to a page.
pages-listed_example :
    pages
      (λ c m. m)
      true
      server
      9
      "consumer"
      ""
      unspecified
      (pos 1)
      scan
      (suc (length (ordered found)))
      ""
      stored
    ≡ ok (map (to_proto_consent 9) (ordered found))
pages-listed_example =
    pages-listed (λ c m. m) true server 9 "consumer" "" unspecified (pos 1) scan (λ n. refl)
      scan-Permᴰ stored found-KeyOnce (subst (λ (n : ℕ). n < 2 ^ 63) (sym three) (omega arith))
