-- ===== src/Store.antt =====
-- internal/store/store.go: the store in memory, and the store in MySQL.
pub mod Users
pub mod Friends
pub mod Interface
pub mod Mysql
mod Tests
