-- ===== src/S3If.antt =====
-- `src/s3if.c`: the paths of files and their addresses.
pub mod Path
pub mod Url
pub mod PathRun
pub mod UrlRun
pub mod CleanRun
mod Runs
