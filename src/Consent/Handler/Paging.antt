-- ===== src/Consent/Handler/Paging.antt =====
-- `ListConsents` of services/consent-svc/internal/handler.go, called page by page.
use mathlib.Core.List.{map-append, append-nil}
use mathlib.Core.List.Permᴰ.{Permᴰ}
use vrp_oneclick_deposit_pla.Common.Pages.Order.{Memᴰ-Permᴰ, KeyOnce, newest_first-Permᴰ}
use vrp_oneclick_deposit_pla.Common.{
  ℕ, zero, suc, ◌+◌, ◌^◌, ◌<◌, ◌≤◌, Bool, true, false, none, some, String, List, [], ◌∷◌, ◌++◌, map,
  ◌==◌, ltb, ltb_ℤ, ℤ, pos, pos_part, if◌then◌else◌, decimal, ◌≡◌, refl, sym, ap, ◌∙◌, arith,
  Bool-cases, inl, inr,
}
use vrp_oneclick_deposit_pla.Common.Pages.{length, page, drop, drop-all}
use vrp_oneclick_deposit_pla.Domainerr.{GrpcCode, Code, plain, annotated, wrapped, Result, ok, err}
use vrp_oneclick_deposit_pla.Postgres.{Server, Session}
use vrp_oneclick_deposit_pla.Consent.{ConsentRow, Tables}
use vrp_oneclick_deposit_pla.Consent.Service.Reads.{
  Scan, matching, ordered, counted_page, clamp_limit, list_rows, list_consents,
}
use vrp_oneclick_deposit_pla.Consent.Handler.{
  ConsentState, ConsentMessage, ListRequest, ListResponse, to_proto_consent, wanted_status,
  offset_of, page_of, next_token, list_response, list_at, list, sent_error,
}
use vrp_oneclick_deposit_pla.Consent.Handler.Tokens.{
  decimal-ne-empty, offset_of-decimal, offset_of_empty, past_end, page_rest, page_end, drop_zero,
  pool_statement-answered,
}

module _ (grpc_text : GrpcCode → String → String) (detailed : Bool) (server : Server) (now : ℕ)
    (consumer merchant : String) (status : ConsentState) (size : ℤ) (scan : Scan) where
  abbrev request : String → ListRequest
  request token = record {
    consumer_id = consumer;
    merchant_id = merchant;
    status = status;
    page = some (record { page_size = size; page_token = token });
  }

  -- A caller that asks for page after page, at most so many, until a reply has no further token.
  unfoldable pub pages : ℕ → String → Session Tables → Result (List ConsentMessage)
  pages zero token s = err (plain "more pages")
  pages (suc n) token s =
      let (r, t) = list grpc_text detailed server now scan (request token) s in
      elim r [
        | err e ↦ err e
        | ok p ↦ elim (p.next_page_token == "") [
          | true ↦ ok p.consents
          | false ↦ elim (pages n p.next_page_token t) [
            | err e ↦ err e
            | ok more ↦ ok (p.consents ++ more)
          ]
        ]
      ]

  module _ (answers : (n : ℕ) → server.fault n ≡ none)
      (same_rows : (n : ℕ) (cs : List ConsentRow) → Permᴰ (scan n cs) cs) where
    abbrev matched : Session Tables → List ConsentRow
    matched s = matching consumer merchant (wanted_status status) s.tables.consents

    abbrev rows : Session Tables → List ConsentRow
    rows s = ordered (matched s)

    -- No two of the consents were created at one time.
    abbrev Once : Session Tables → Type 0
    Once s = KeyOnce (λ (c : ConsentRow). c.created_at) (matched s)

    scanned : (n : ℕ) (s : Session Tables) → Once s → ordered (scan n (matched s)) ≡ rows s
    unfolding ordered
    scanned n s d =
        let p = same_rows n (matched s) in
        newest_first-Permᴰ (λ (c : ConsentRow). c.created_at) (scan n (matched s)) (matched s) p
          (λ a b k l.
            d a b (Memᴰ-Permᴰ a (scan n (matched s)) (matched s) p k)
              (Memᴰ-Permᴰ b (scan n (matched s)) (matched s) p l))

    -- The reply to a request, and the session behind it.
    abbrev reply : ℕ → ℕ → Session Tables → Result ListResponse × Session Tables
    reply limit offset s = (
      ok (list_response now offset (counted_page (clamp_limit limit) offset (rows s))),
      record s { count = suc s.count; aborted = false },
    )

    list_at-page :
        (limit offset : ℕ) (token : String) (s : Session Tables)
        → Once s
        → list_at grpc_text detailed server now scan (request token) (ok (limit, offset)) s
          ≡ reply limit offset s
    unfolding list_at list_consents list_rows
    list_at-page limit offset token s d =
        ap
          (λ (p : Result (List ConsentRow × ℕ) × Session Tables).
            let q : Result (List ConsentRow × ℕ) × Session Tables = elim p.0 [
              | ok a ↦ (ok a, p.1)
              | err e ↦ (err (annotated "list consents" e), p.1)
            ] in
            let r : Result (List ConsentRow × ℕ) × Session Tables = elim q.0 [
              | ok a ↦ (ok a, q.1)
              | err e ↦ (err (wrapped Code.internal "list consents" e), q.1)
            ] in
            let o : Result ListResponse × Session Tables = elim r.0 [
              | ok a ↦ (ok (list_response now offset a), r.1)
              | err e ↦ (err (sent_error grpc_text detailed server now e), r.1)
            ] in
            o)
          (pool_statement-answered server
            (λ (t : Tables). ok (
              counted_page (clamp_limit limit) offset (
                  ordered
                    (scan s.count (matching consumer merchant (wanted_status status) t.consents))),
              t,
            ))
            s (answers s.count)
            (ap
              (λ (cs : List ConsentRow). ok (counted_page (clamp_limit limit) offset cs, s.tables))
              (scanned s.count s d)))

    list-page :
        (limit offset : ℕ) (token : String) (s : Session Tables)
        → Once s
        → page_of (some (record { page_size = size; page_token = token })) ≡ ok (limit, offset)
        → list grpc_text detailed server now scan (request token) s ≡ reply limit offset s
    unfolding list
    list-page limit offset token s d h =
        ap (λ (p : Result (ℕ × ℕ)). list_at grpc_text detailed server now scan (request token) p s)
          h
        ∙ list_at-page limit offset token s d

    -- What follows a reply with these consents and this token.
    abbrev after : ℕ → List ConsentMessage → String → Session Tables → Result (List ConsentMessage)
    after n cs next t = elim (next == "") [
      | true ↦ ok cs
      | false ↦ elim (pages n next t) [ err e ↦ err e | ok more ↦ ok (cs ++ more) ]
    ]

    pages-after :
        (n limit offset : ℕ) (token : String) (s : Session Tables)
        → Once s
        → page_of (some (record { page_size = size; page_token = token })) ≡ ok (limit, offset)
        → pages (suc n) token s ≡ (
            let p : List ConsentRow × ℕ = counted_page (clamp_limit limit) offset (rows s) in
            after n
              (map (to_proto_consent now) p.0)
              (next_token offset p.0 p.1)
              (record s { count = suc s.count; aborted = false }))
    unfolding pages list_response
    pages-after n limit offset token s d h =
        ap
          (λ (q : Result ListResponse × Session Tables).
            let r : Result (List ConsentMessage) = elim q.0 [
              | err e ↦ err e
              | ok p ↦ after n p.consents p.next_page_token q.1
            ] in
            r)
          (list-page limit offset token s d h)

    abbrev asked : ℕ
    asked = if ltb_ℤ (pos 0) size then pos_part size else 20

    page_of-token :
        (offset : ℕ) (token : String)
        → offset_of token ≡ ok offset
        → page_of (some (record { page_size = size; page_token = token })) ≡ ok (asked, offset)
    unfolding page_of
    page_of-token offset token h =
        ap
          (λ (r : Result ℕ).
            let p : Result (ℕ × ℕ) = elim r [ err e ↦ err e | ok o ↦ ok (asked, o) ] in p)
          h

    clamp_limit_positive : (n : ℕ) → 0 < clamp_limit n
    unfolding clamp_limit
    clamp_limit_positive n = ground arith

    after_token :
        (n : ℕ) (cs : List ConsentMessage) (token : String) (t : Session Tables)
        (ms : List ConsentMessage)
        → (token == "") ≡ false
        → pages n token t ≡ ok ms
        → after n cs token t ≡ ok (cs ++ ms)
    after_token n cs token t ms h more =
        ap
          (λ (b : Bool).
            let r : Result (List ConsentMessage) = elim b [
              | true ↦ ok cs
              | false ↦ elim (pages n token t) [ err e ↦ err e | ok rest ↦ ok (cs ++ rest) ]
            ] in
            r)
          h
        ∙ ap
            (λ (q : Result (List ConsentMessage)).
              let r : Result (List ConsentMessage) = elim q [
                | err e ↦ err e
                | ok rest ↦ ok (cs ++ rest)
              ] in
              r)
            more

    -- The last page, and a page with a next one.
    after-last :
        (n offset : ℕ) (rs : List ConsentRow) (total : ℕ) (t : Session Tables)
        → ltb (offset + length rs) total ≡ false
        → after n (map (to_proto_consent now) rs) (next_token offset rs total) t
          ≡ ok (map (to_proto_consent now) rs)
    unfolding next_token
    after-last n offset rs total t h =
        ap
          (λ (b : Bool).
            after n (map (to_proto_consent now) rs) (if b then decimal (offset + length rs) else "")
              t)
          h

    after-more :
        (n offset : ℕ) (rs : List ConsentRow) (total : ℕ) (t : Session Tables)
        (ms : List ConsentMessage)
        → ltb (offset + length rs) total ≡ true
        → offset + length rs < 2 ^ 63
        → pages n (decimal (offset + length rs)) t ≡ ok ms
        → after n (map (to_proto_consent now) rs) (next_token offset rs total) t
          ≡ ok (map (to_proto_consent now) rs ++ ms)
    unfolding next_token
    after-more n offset rs total t ms h b more =
        ap
          (λ (b : Bool).
            after n (map (to_proto_consent now) rs) (if b then decimal (offset + length rs) else "")
              t)
          h
        ∙ after_token n _ (decimal (offset + length rs)) t ms
            (decimal-ne-empty (offset + length rs) b) more

    pages-drop :
        (n offset : ℕ) (token : String) (s : Session Tables)
        → Once s
        → offset_of token ≡ ok offset
        → offset ≤ length (rows s)
        → length (rows s) < n + offset
        → length (rows s) < 2 ^ 63
        → pages n token s ≡ ok (map (to_proto_consent now) (drop offset (rows s)))
    unfolding counted_page
    pages-drop zero offset token s d o b m w = absurd (omega arith)
    pages-drop (suc n) offset token s d o b m w =
        pages-after n asked offset token s d (page_of-token offset token o)
        ∙ by_page (page (clamp_limit asked) offset (rows s)) refl (pages-drop n)
      where
        by_page :
            (rs : List ConsentRow)
            → page (clamp_limit asked) offset (rows s) ≡ rs
            → ((k : ℕ) (next : String) (t : Session Tables)
                → Once t
                → offset_of next ≡ ok k
                → k ≤ length (rows t)
                → length (rows t) < n + k
                → length (rows t) < 2 ^ 63
                → pages n next t ≡ ok (map (to_proto_consent now) (drop k (rows t))))
            → (let total : ℕ = elim rs [ [] ↦ 0 | r ∷ more ↦ length (rows s) ] in
                after n
                  (map (to_proto_consent now) rs)
                  (next_token offset rs total)
                  (record s { count = suc s.count; aborted = false }))
              ≡ ok (map (to_proto_consent now) (drop offset (rows s)))
        by_page [] p ih =
            after-last n offset [] 0 _ (ground arith)
            ∙ ap (λ (d : List ConsentRow). ok (map (to_proto_consent now) d))
                (sym (
                  drop-all offset (rows s)
                    (past_end (clamp_limit asked) offset (rows s) (clamp_limit_positive asked) p)))
        by_page (r ∷ more) p ih =
            let k : ℕ = offset + length (r ∷ more) in
            let whole : r ∷ more ++ drop k (rows s) ≡ drop offset (rows s) =
              page_rest (clamp_limit asked) offset (rows s) (r ∷ more) p in
            let within : k ≤ length (rows s) =
              page_end (clamp_limit asked) offset (rows s) (r ∷ more) b p in
            elim (Bool-cases (ltb k (length (rows s)))) [
              | inl y ↦
                  after-more n offset (r ∷ more) (length (rows s)) _
                    (map (to_proto_consent now) (drop k (rows s))) y (omega arith)
                    (ih k (decimal k) (record s { count = suc s.count; aborted = false }) d
                      (offset_of-decimal k (omega arith)) within (omega arith) w)
                  ∙ ap ok (
                      sym (map-append (to_proto_consent now) (r ∷ more) (drop k (rows s)))
                      ∙ ap (map (to_proto_consent now)) whole)
              | inr x ↦
                  let done : length (rows s) ≤ k = ground arith in
                  after-last n offset (r ∷ more) (length (rows s)) _ x
                  ∙ ap (λ (d : List ConsentRow). ok (map (to_proto_consent now) d))
                      (sym (append-nil (r ∷ more))
                        ∙ ap (λ (d : List ConsentRow). r ∷ more ++ d)
                            (sym (drop-all k (rows s) done))
                        ∙ whole)
            ]

    -- A caller that asks page after page gets each consent that matches once, the newest first, where
    -- the database answers and no two of these consents were created at one time: with one call more
    -- than there are such consents at most, whatever page size it asks for, and in whatever order the
    -- server comes upon the rows, if the number of the consents is an int64.
    pub pages-listed :
        (s : Session Tables)
        → Once s
        → length (rows s) < 2 ^ 63
        → pages (suc (length (rows s))) "" s ≡ ok (map (to_proto_consent now) (rows s))
    pages-listed s d w =
        pages-drop (suc (length (rows s))) 0 "" s d offset_of_empty (omega arith) (omega arith) w
        ∙ ap (λ (d : List ConsentRow). ok (map (to_proto_consent now) d)) (drop_zero (rows s))
