-- ===== src/Config.antt =====
-- config_file (lars_reactor/include/config_file.h, lars_reactor/src/config_file.cc): the settings that
-- every server reads.
pub mod Trim
pub mod Load
pub mod Values
pub mod Database
mod Examples
