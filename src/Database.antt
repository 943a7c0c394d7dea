-- ===== src/Database.antt =====
-- src/prisma/schema.prisma: the rows of each table, and the whole database. Floats of hours are
-- natural numbers of minutes (24 hours are 1440). The columns `createdAt` and `updatedAt` are left
-- out: no service reads them but to order lists.
mod Rows
mod Models
pub mod Action
pub mod Constraints
pub mod Triple
pub mod Keeps
pub mod Runs
pub use Rows.*
pub use Models.*
