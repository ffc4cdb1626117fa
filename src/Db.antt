-- ===== src/Db.antt =====
-- src/db: the tables of the SQLite database, the statements that run on them, and the pool.
pub mod Replay
pub mod AuditLog
pub mod Migrations
pub mod Pool
