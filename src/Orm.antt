-- ===== src/Orm.antt =====
-- pkg/orm: the maps and the times that go to the database and to JSON, and the calls of gorm.
pub mod Map
pub mod Time
pub mod Gorm
pub mod Logger
pub mod OneRow
pub mod Update
