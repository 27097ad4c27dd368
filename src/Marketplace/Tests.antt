-- ===== src/Marketplace/Tests.antt =====
-- Runs of the domain package on the concrete supplier, and the theorems at inputs.
mod Histories
mod Offers
mod Remote
mod Amounts
