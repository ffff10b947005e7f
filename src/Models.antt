-- ===== src/Models.antt =====
-- models.py: the enumerations, the rows of the tables, and the database that a session works on.
mod Enums
mod Tests
mod Accounts
mod Requests
mod Billing
mod Messages
mod Schema
mod Lookups
pub use Enums.*
pub use Tests.*
pub use Accounts.*
pub use Requests.*
pub use Billing.*
pub use Messages.*
pub use Schema.*
pub use Lookups.*
