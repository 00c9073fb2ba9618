-- ===== src/Client.antt =====
-- The client of sdk/src/client.ts.
pub mod World
pub mod Index
pub mod Builders
pub mod Methods
pub mod Tables
pub mod Encoder
pub mod Idl
pub mod Canonical
pub mod Built
pub mod Created
pub mod Decoded
pub mod Bundled
pub mod Sent
pub mod Nonce
pub mod Started
pub mod Setup
pub mod Waits
pub mod Tabled
pub mod Scratch
pub mod Proposed
