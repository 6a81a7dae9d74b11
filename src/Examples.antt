-- ===== src/Examples.antt =====
-- The theorems at concrete inputs.
mod Instances
mod Queries
mod Fields
mod Globs
mod Limits
mod Events
mod Lines
mod Sets
mod Accounts
mod Bells
mod Correlations
mod Stages
mod Listings
mod Changes
