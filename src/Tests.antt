-- ===== src/Tests.antt =====
-- The theorems applied to concrete inputs.
pub mod Terminal
pub mod Board
pub mod Columns
pub mod Bridge
pub mod Requests
pub mod Files
pub mod Hosts
pub mod Cards
pub mod Returning
pub mod Keys
