-- ===== src/Tests.antt =====
-- Concrete runs, and the theorems at concrete inputs.
mod Tables
mod Database
mod Mail
mod Input
mod Words
mod Pending
mod Upkeep
mod Collecting
mod Passing
mod Loading
mod Formats
