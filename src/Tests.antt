-- ===== src/Tests.antt =====
-- A concrete platform, runs of the code on it, and the theorems at concrete inputs.
mod ListCache
mod Sample
mod Held
mod Client
mod Benches
mod Objects
mod AsyncSample
mod AsyncRuns
mod ServerRuns
