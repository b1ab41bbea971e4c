-- ===== src/Examples.antt =====
-- One user with one bucket, and what the theorems say of requests to it.
pub mod Memory
pub mod Sqlite
pub mod Data
mod Objects
mod Tables
mod Access
mod Reading
mod Links
mod Parts
mod Listings
mod Copies
mod Collector
mod Aborts
