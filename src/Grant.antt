-- ===== src/Grant.antt =====
-- `src/grant.c`: the privileged process that changes the owner of cached files, publishes them and copies
-- chunks of them, and the requests that src/downloadqueue.c sends to it.
pub mod Params
pub mod Calls
pub mod Requests
pub mod Confined
pub mod Decimal
pub mod Exchange
pub mod Copy
pub mod CopyRun
pub mod Parts
mod Runs
