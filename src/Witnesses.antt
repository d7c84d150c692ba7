-- ===== src/Witnesses.antt =====
-- Concrete runs of the theorems, with the code outside the repository as concrete functions.
pub mod Calls
pub mod Deciding
pub mod Refunding
pub mod Delivering
pub mod Leasing
pub mod Listing
pub mod Fetching
pub mod Paying
pub mod Limiting
pub mod Escaping
pub mod Authenticating
pub mod Replaying
pub mod Mocking
pub mod Requesting
pub mod Configuring
