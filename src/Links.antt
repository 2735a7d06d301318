-- ===== src/Links.antt =====
-- Rings of doubly linked cells, as the order books keep their orders and their price levels.
pub mod Distinct
pub mod Ring
pub mod Neighbours
pub mod Pigeonhole
