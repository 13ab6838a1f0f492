-- ===== src/Store/Tables.antt =====
-- The configuration tables of data/DataClassItemConfig.cpp.
pub mod Devdata
pub mod Param
pub mod Runtime
pub mod Personalset
