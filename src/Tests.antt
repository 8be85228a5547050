-- ===== src/Tests.antt =====
-- Concrete runs of the definitions, and the theorems applied to them.
mod Breakers
mod Retries
mod Runtimes
mod Contracts
mod Routing
mod Stores
mod Tables
mod Directories
mod Calls
mod Faults
mod Members
