-- ===== src/Tests.antt =====
-- The theorems at concrete requests, states and times.
mod Samples
mod Register
mod Accounts
mod Parts
mod Relay
mod GroupSamples
mod Group
mod Joins
mod Settings
