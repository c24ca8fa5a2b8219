-- ===== src/Fuse.antt =====
-- `src/fuseif.c`: which file operations the file system allows.
pub mod Access
pub mod Directories
pub mod Operations
pub mod AccessRun
pub mod DirectoriesRun
pub mod OpenRun
mod Runs
