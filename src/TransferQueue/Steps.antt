-- ===== src/TransferQueue/Steps.antt =====
-- The steps that the threads of src/downloadqueue.c take, in any order, and the states that they lead to.
use aws_s3fs.Common.{ℕ, ◌≡◌, Bool, true, false, Option, some, List}
use aws_s3fs.CacheDb.Rows.{last_where}
use aws_s3fs.CacheDb.Uploads.{UploadRow}
use aws_s3fs.CacheDb.History.{Statement, execute}
use aws_s3fs.TransferQueue.State.{
  Job, download_job, upload_job, State, receive_download, unsubscribe_from_download, Limit,
  find_available_transferer, start_transfer, in_slot, finish_download, free_subscription,
  begin_upload, finish_upload,
}

-- The thread in a slot works on a job.
abbrev pub Runs : State → ℕ → Job → Type 0
Runs st slot job = last_where (in_slot slot) st.threads ≡ some (record { slot = slot; job = job })

-- Any client's request, a round of the main loop, the start of an upload's thread,
-- the end of a transfer that succeeded or failed, a client that has
-- been woken, and what the file cache does with the database.
pub data Step (limit : Limit) (limit_upload : List UploadRow → Option UploadRow) (s : State)
    : State → Type 0 where
  receives : (file_id owner : ℕ) → Step limit limit_upload s (receive_download file_id owner s)
  starts :
      {t : State}
      → start_transfer limit s (find_available_transferer s.transferers) ≡ some t
      → Step limit limit_upload s t
  ends_download :
      (slot address file_id : ℕ) (status : Bool)
      → Runs s slot (download_job address file_id)
      → Step limit limit_upload s (finish_download slot address file_id status s)
  begins_upload :
      (slot file_id : ℕ)
      → Runs s slot (upload_job file_id false)
      → Step limit limit_upload s (begin_upload limit_upload slot file_id s)
  ends_upload :
      (slot file_id : ℕ) (status : Bool)
      → Runs s slot (upload_job file_id true)
      → Step limit limit_upload s (finish_upload slot file_id status s)
  unsubscribes : (address : ℕ) → Step limit limit_upload s (unsubscribe_from_download address s)
  frees : (address : ℕ) → Step limit limit_upload s (free_subscription address s)
  executes :
      (statement : Statement) → Step limit limit_upload s (record s { db = execute statement s.db })

-- Any number of steps.
pub data Steps (limit : Limit) (limit_upload : List UploadRow → Option UploadRow) (s : State)
    : State → Type 0 where
  start : Steps limit limit_upload s s
  later :
      {t u : State}
      → Steps limit limit_upload s t
      → Step limit limit_upload t u
      → Steps limit limit_upload s u
