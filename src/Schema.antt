-- ===== src/Schema.antt =====
-- src/cameractrl/zc_settings_schema.cpp and .h: the settings catalogs and the wire contract.
pub mod Tables
pub mod Wire
pub mod Trace
pub mod Naming
