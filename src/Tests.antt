-- ===== src/Tests.antt =====
-- Concrete inputs for the theorems, and runs of the code on them.
mod Fixtures
mod Jobs
mod Postgres
mod Database
mod Config
mod Main
mod Start
mod Tasks
mod Users
mod Requests
