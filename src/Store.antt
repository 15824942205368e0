-- ===== src/Store.antt =====
-- The package internal/store: the rows of the database and the statements that read and write them.
pub mod Types
pub mod Clock
pub mod Calendar
pub mod Lists
pub mod Table
pub mod Distinct
pub mod Results
pub mod Models
pub mod Providers
pub mod Usage
pub mod Budgets
pub mod RateLimits
pub mod Users
pub mod ApiKeys
pub mod Accounts
pub mod Catalog
