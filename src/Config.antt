-- ===== src/Config.antt =====
-- `src/config.c`: the keys of the configuration.
pub mod Keys
pub mod KeysRun
mod Runs
