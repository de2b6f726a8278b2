-- ===== src/Lib.antt =====
-- The payment platform's services, as far as they decide about money: a model of their Go code in
-- which every operation can be run, with theorems about it.
--
-- A merchant's deposit is a payment of services/payment-svc. Its saga (internal/saga.go) reserves the
-- amount at services/consent-svc, has it scored by services/risk-svc, initiates it at the bank, posts
-- it to services/ledger-svc, settles it together with an outbox row, and confirms the reservation; a
-- step that fails is compensated. Errors travel between the services by pkg/shared/domainerr.
--
--   Common      int64 with its wrap-around, texts, and tables as lists of rows.
--   Domainerr   pkg/shared/domainerr/errors.go: `Err` is an error of Go, `Result` a value or an error;
--               Domainerr/Grpc is `ToGRPC` and `FromGRPC`.
--   Postgres    statements and transactions through pgx: any statement may fail, as `Server.fault`
--               says, a failed one aborts its transaction, and an aborted one changes nothing.
--   Consent     services/consent-svc/internal: Consent/Repo is repo.go, Consent/Service is service.go,
--               Consent/Service/Reads the lists and `GetConsent` of both, and Consent/Handler is
--               handler.go with its page tokens.
--   Payment     services/payment-svc/internal: Payment/Repo is repo.go, Payment/Saga and
--               Payment/Saga/Compensate are saga.go, Payment/Fee the lines of the settlement, and
--               Payment/World what the saga acts on. A call of another service is recorded, and its
--               answer is any function of the calls so far (`Env`).
--               Payment/Initiate is `Initiate` of saga.go, Payment/Handler is handler.go, and
--               Payment/Idempotency is pkg/shared/idempotency/redis.go, with Redis in `Env`.
--               Payment/Outbox is outbox.go, with the broker as a parameter, and Payment/Reconcile
--               is reconciliation.go; their tickers are left out.
--   Risk        services/risk-svc/internal/rules.go; Redis is a parameter.
--   Ledger      services/ledger-svc/internal: what a posting accepts (store.go and server.go);
--               Ledger/Journal is migrations/ledger, the tables with their constraints and the
--               deferred trigger; Ledger/Statements, Ledger/Posting, Ledger/Reversal and
--               Ledger/Store are store.go on these tables.
--   Bank        services/bank-adapter/internal/adapter.go: Bank is the exchange with its retries and its
--               circuit breaker, which are parameters, and Bank/Calls the three calls.
--   Merchant    services/merchant-svc/internal: Merchant is domain.go, repo.go and migrations/merchant,
--               Merchant/Service is service.go, Merchant/Handler is handler.go. crypto/rand and bcrypt
--               are parameters (`Crypto`).
--   Webhook     pkg/shared/webhook/hmac.go, with HMAC-SHA256 as a parameter.
--   Notification  services/notification-svc/internal: Notification is deliver.go, with the merchant
--               service, net/http and the broker of the dead letters as parameters (`Outside`),
--               Notification/Consumer is consumer.go, and Notification/Relayed the JSON object of a
--               settled payment, from the keys of buildSettledPayload to the tags of PaymentEvent.
--   Gateway     services/gateway/internal/httpapi: Gateway is respond.go, Gateway/Convert convert.go and
--               types.go, Gateway/Middleware middleware.go with pkg/shared/auth/jwt.go, and
--               Gateway/Handlers handlers.go and router.go, whose data are in Gateway/Calls. The calls
--               of the services are recorded, and their answers, Redis and golang-jwt are parameters.
--   Tests       runs on concrete inputs.
--
-- `decimal`, the digits of a number, runs on fuel: the number and one more. `withSerializable` counts its
-- five attempts down, as the source does. `WaitForCompletion` runs on fuel: fifty polls, since each is
-- followed by 100 ms of the five seconds. The pages of a list run on fuel: the consents and one more,
-- since each page but the last has a consent.
-- Not modelled: generated code beyond the messages that are read; the mock bank; pkg/shared/money, which no
-- service calls; the handler of the risk service and the ledger's server beyond PostDoubleEntry; what the
-- consent service puts into its cache in Redis; health checks, the gateway's document, and start-up; logs
-- and traces; the interleaving of two calls, except where the server's answers stand for it. A time is a
-- number of seconds.
pub mod Bank
pub mod Common
pub mod Domainerr
pub mod Postgres
pub mod Consent
pub mod Payment
pub mod Risk
pub mod Ledger
pub mod Merchant
pub mod Gateway
pub mod Webhook
pub mod Notification
pub mod Tests
