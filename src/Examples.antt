-- ===== src/Examples.antt =====
-- The theorems at concrete inputs.
mod Checking
mod Pooling
mod Tiers
mod Rollouts
mod Publishing
mod Boarding
mod Frictions
mod Preflighting
mod Routings
mod Cards
