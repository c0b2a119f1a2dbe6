-- ===== src/Postgres.antt =====
-- internal/store/postgres/repository.go: the repository on PostgreSQL.
pub mod Tables
pub mod Methods
pub mod Leases
pub mod Mirror
pub mod Outboxed
pub mod Fencing
