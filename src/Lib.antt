-- ===== src/Lib.antt =====
-- aws-s3fs mounts an Amazon S3 bucket as a file system. A FUSE process translates file operations into
-- S3 requests, keeps the information on files and directories in two caches, and asks a second process
-- for file contents, which keeps them in a file cache and moves them through a transfer queue.
-- This library models the parts that a request passes on its way to S3, the two caches, and of the second
-- process its database, its transfer queue and the privileged process that it asks to move files:
--
-- * Base64 (src/base64.c): `EncodeBase64` is `encode` (Base64/Encode.antt), `DecodeBase64` is
--   `decode` (Base64/Decode.antt). The working buffer's size is an argument; both functions return
--   `none` where the code would write outside a buffer or block.
-- * Digest (src/digest.c): the words of Word.antt, the state of State.antt (`DigestState`), the MD5
--   and SHA-1 compression functions (Md5Block.antt, Sha1Block.antt), the functions that feed a
--   message and finish it (Md5.antt, Sha1.antt), `DigestBuffer` and the encodings (Output.antt),
--   `HMAC` (Hmac.antt). A 32-bit word is a number with its wrap-around written out. Chain.antt is
--   the iteration that RFC 1321 and RFC 3174 describe, Md5Rfc.antt and Sha1Rfc.antt their
--   compression functions, by the number of the step; F and G of MD5 are in the form with two
--   exclusive ors there, as in the code. `HMAC` does not initialise its array, so what lies on the
--   stack is an argument of `hmac`.
-- * S3Comms (src/s3comms.c): host names and addresses (Region.antt), header values (Header.antt),
--   `CreateAwsSignature` (Signature.antt), `BuildS3Request` and `s3_SubmitS3Request`
--   (Request.antt), the three callbacks (Callbacks.antt), `ConvertHttpStatusToErrno` (Status.antt).
--   Request.antt calls the signature, which calls Digest's `hmac`, which calls Base64's `encode`.
--   libcurl is the function `perform` from a request to an answer, the date's text is an argument.
--   The fixed arrays' sizes are those of the code: `none` stands for a write behind one.
-- * StatCache (src/statcache.c): Table.antt states what uthash documents, as a record of operations
--   and laws; Cache.antt has the four operations over any such table, Lru.antt the list of entries
--   that they implement.
-- * DirCache (src/dircache.c): the array of five slots (Slots.antt) with its loops, and the
--   operations on it (Cache.antt); SlotsRun.antt says what the loops do to the list of slots.
-- * S3If (src/s3if.c): the functions on paths (Path.antt) and `EncodeUrl` (Url.antt); `none` is an
--   access outside the string, or a result without a terminator.
--
-- * Grant (src/grant.c): the privileged process. Params.antt has the functions that read a request,
--   Calls.antt the handlers, whose result is the list of system calls that they make (`none` is the
--   overflow of an `int`, and what stands in the buffer behind a request is an argument), Copy.antt
--   the copy of a part of a file with `NumberOfMultiparts` (src/filecache.c) and the part's size as
--   `CreateFilePart` (src/downloadqueue.c) computes it, Requests.antt the requests that
--   `MoveToSharedCache` and `CreateFilePart` send. `none` of the latter is a request that overruns
--   its block. `pread` is a function from a size and an offset to bytes. `copy_loop` runs on fuel,
--   one for each round: CopyRun.antt shows that 101 is enough, since a part has at most 100 pieces.
-- * CacheDb (src/filecachedb.c): Tables.antt has the five tables and their constraints, Rows.antt
--   what a statement does with a table (SQLite's documented semantics), Files.antt, Transfers.antt
--   and Uploads.antt a function for each `Query_` function, with its SQL statement in it. A table
--   is the list of its rows, the latest one first. The row that a `LIMIT 1` without an order leaves
--   is chosen by a function that is an argument. Statements are prepared and bound without an error
--   of SQLite, ids are below 2^31, since `Query_FindPendingUpload` reads 32 bits, and a `LEFT JOIN`
--   that the foreign keys leave no `NULL` in is an inner join. History.antt is any sequence of the
--   queries that change a table.
-- * TransferQueue (src/downloadqueue.c): State.antt has the queue, the three transferers, the
--   threads and the clients, with one function for what happens between two locks of the queue's
--   mutex; the queries of CacheDb are called as the code calls them. Steps.antt is the step
--   relation: clients, the main loop, threads that end, and the file cache's use of the database,
--   in any order. `fill_transferers` runs on fuel, one more than there are transferers ready
--   (Filling.antt). A spurious wake-up of a waiting client is not modelled, nor are the requests to
--   S3 and to the privileged process that a transfer consists of; whether an upload has a pending
--   part is looked up when its thread starts.
-- * Fuse (src/fuseif.c): Access.antt has `VerifyAccessPermission` over the calling process and the
--   system's user and group databases, Directories.antt the scan of a path, Operations.antt what
--   `s3fs_getattr`, `s3fs_open`, `s3fs_opendir` and `s3fs_access` decide. `S3FileStat` and GLib's
--   `g_path_get_dirname` are arguments. The loop over the directories runs on fuel, one more than
--   the directory's name has bytes (DirectoriesRun.antt shows that it is enough).
-- * Config (src/config.c): Keys.antt has `ExtractKey` and `ConfigSetKey`, with the strings and the
--   error flag that they set as their result.
--
-- The other loops are recursion on the data they read, or on a count, so they need no fuel.
-- Strings are lists of the bytes before the terminator. Memory that is freed, mutexes and log messages
-- are not modelled, with one exception: the calls of delete functions in StatCache. Not modelled are
-- src/filecache.c except `NumberOfMultiparts`, src/filecacheclient.c, the rest of src/s3if.c,
-- the operations of src/fuseif.c that only call src/s3if.c, and the rest of src/config.c with the other
-- files of the configuration; src/logger.c, src/socket.c and the programs' entry points are input and
-- output.
pub mod Common
pub mod Base64
pub mod Digest
pub mod S3Comms
pub mod StatCache
pub mod S3If
pub mod Config
pub mod DirCache
pub mod Grant
pub mod CacheDb
pub mod TransferQueue
pub mod Fuse
