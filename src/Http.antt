-- ===== src/Http.antt =====
-- The REST interface: src/routes, src/middleware, src/types/schemas.ts and the controllers.
pub mod Schemas
pub mod Routes
pub mod Server
pub mod Frame
pub mod Outside
pub mod Bounds
pub mod History
pub mod Tenants
pub mod Lists
pub mod Reports
pub mod Administration
pub mod Admission
pub mod Privileges
