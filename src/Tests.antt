-- ===== src/Tests.antt =====
-- Concrete modules, files and servers, and the theorems applied to them.
mod Data
mod Hub
mod Modules
mod Records
mod Decimal
mod Minds
mod Oracles
mod Tools
