-- ===== src/Tests.antt =====
-- Examples that the theorems apply to: each stands for one theorem and runs the code it is about.
mod Banks
mod Sagas
mod Rules
mod Consents
mod Texts
mod Ledgers
mod Relays
mod Requests
mod Pages
mod Merchants
mod Webhooks
mod Gateways
