-- ===== src/Tests.antt =====
-- Runs of the definitions at concrete inputs, and the theorems applied to them.
mod Boards
mod Games
mod Texts
mod Accounts
mod Hashing
mod Doors
mod Engines
mod Protocols
mod Settings
mod Sessions
