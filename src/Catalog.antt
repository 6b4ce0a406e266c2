-- ===== src/Catalog.antt =====
-- catalog: the names of tables, columns and indexes with their ids.
pub mod Names
pub mod Table
pub mod Schema
pub mod Root
