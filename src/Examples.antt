-- ===== src/Examples.antt =====
-- The theorems applied to concrete inputs of the code.
mod Session
mod Budgets
mod Stream
mod Hosts
mod Proxy
mod Address
mod Observe
mod Pages
mod Server
mod Traffic
mod Certs
mod Legacy
mod Watch
mod Spared
mod Told
