-- ===== src/Tests.antt =====
-- The theorems applied to small concrete states.
mod Events
mod Pages
mod Windows
mod Feed
mod Accounts
mod Tables
mod Http
mod Keys
mod Settings
