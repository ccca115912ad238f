-- ===== src/Database.antt =====
-- The Prisma client, a third-party library, as the services use it: `findFirst` (and `findUnique`),
-- `findMany`, `updateMany` (and `update`), `count` and `create` on one table. The client is a
-- parameter of every service; its laws are what the services rely on.
pub mod Rows
pub mod Methods
pub mod Memory
pub mod Keys
