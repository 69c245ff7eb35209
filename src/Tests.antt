-- ===== src/Tests.antt =====
-- Runs of the modelled code on the data of the samples.
mod Accounts
mod Options
mod Web
mod Brokers
mod Payloads
mod FuturesRuns
mod Ingest
mod Devices
