-- ===== src/S3Comms.antt =====
-- `src/s3comms.c`: building a signed S3 request, the callbacks that libcurl calls, and the status of
-- the answer. Strings are the lists of their bytes before the terminator.
pub mod Region
pub mod RegionRun
pub mod Header
pub mod Signature
pub mod SignHeader
pub mod SignatureRun
pub mod Status
pub mod Callbacks
pub mod CallbacksRun
pub mod Request
pub mod RequestRun
pub mod SubmitRun
pub mod HeaderRun
mod Runs
