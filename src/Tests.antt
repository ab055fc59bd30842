-- ===== src/Tests.antt =====
-- The properties at concrete inputs.
mod Tables
mod Memory
mod Pools
mod Cursors
mod Requests
mod Words
mod Stores
mod Files
mod Loads
mod Engines
