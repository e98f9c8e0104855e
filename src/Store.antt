-- ===== src/Store.antt =====
-- The database behind apps/trustee-api, as far as the modelled services read and write it: the tables
-- of packages/database/prisma/schema.prisma, the environment of a call, and the calls themselves.
pub mod Table
pub mod Every
pub mod Keyed
pub mod Query
pub mod Rows
pub mod PaykhRows
pub mod Db
pub mod Action
