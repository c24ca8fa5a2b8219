-- ===== src/TransferQueue/Runs.antt =====
-- Runs of the transfer queue.
use aws_s3fs.Common.{◌≡◌, ◌≤◌, ◌<◌, refl, arith, false, Option, none, some, List, [], ◌∷◌, length}
use aws_s3fs.CacheDb.Rows.{
  count_where, exists_row, last_where, or_else, rows_where, pairs_with, join_on,
}
use aws_s3fs.CacheDb.Tables.{upload, Database}
use aws_s3fs.CacheDb.Transfers.{query_add_download, insert_transfer}
use aws_s3fs.CacheDb.Uploads.{UploadRow, file_of, query_find_pending_upload}
use aws_s3fs.CacheDb.History.{new_database}
use aws_s3fs.TransferQueue.State.{
  Limit, State, download_job, initial_state, receive_download, subscribe_to, find_in_download_queue,
  find_available_transferer, get_subscription_from_download_queue, start_download,
  start_download_if, start_transfer, fill_transferers, finish_download,
}
use aws_s3fs.TransferQueue.Steps.{Runs, Steps, start, later, receives, starts, ends_download}
use aws_s3fs.TransferQueue.Capacity.{ready, capacity, threads_at_most_three, finish_download-lost}
use aws_s3fs.TransferQueue.Queue.{IsSingle}
use aws_s3fs.TransferQueue.QueueRun.{Steps-IsSingle}
use aws_s3fs.TransferQueue.Slots.{IsOwned, Steps-IsOwned}
use aws_s3fs.TransferQueue.Filling.{
  Filled, fill_transferers-Filled, Uploading, fill_transferers-same_upload,
}

abbrev first_row : Limit
first_row [] = none
first_row (row ∷ rows) = some row

abbrev no_upload : List UploadRow → Option UploadRow
no_upload rows = none

-- A client asks for the file 7, its download is started, and fails.
abbrev requested : State
requested = receive_download 7 1000 (initial_state new_database)

abbrev started : State
started =
    start_download 0 (record { address = 1; file_id = 7; download_active = false; subscribers = 1 })
      requested

abbrev failed : State
failed = finish_download 0 1 7 false started

it_starts :
    start_transfer first_row requested (find_available_transferer requested.transferers)
    ≡ some started
unfolding receive_download subscribe_to find_in_download_queue find_available_transferer
    start_transfer start_download_if start_download get_subscription_from_download_queue
    query_find_pending_upload rows_where join_on file_of query_add_download insert_transfer
    exists_row
it_starts = refl

it-Runs : Runs started 0 (download_job 1 7)
unfolding start_download last_where or_else receive_download subscribe_to find_in_download_queue
it-Runs = refl

path : Steps first_row no_upload (initial_state new_database) failed
path =
    later (later (later start (receives 7 1000)) (starts it_starts))
      (ends_download 0 1 7 false it-Runs)

threads_at_most_three_example : length failed.threads ≤ 3
threads_at_most_three_example = threads_at_most_three first_row no_upload new_database failed path

finish_download-lost_example : capacity failed < capacity started
finish_download-lost_example =
    finish_download-lost first_row no_upload started failed 0 1 7 it-Runs start

Steps-IsOwned_example : IsOwned failed
Steps-IsOwned_example =
    Steps-IsOwned first_row no_upload (initial_state new_database) failed path
      (record { busy = tt; own = tt })

few_ready : ready requested.transferers < 4
unfolding count_where receive_download subscribe_to find_in_download_queue
few_ready = omega arith

fill_transferers-Filled_example :
    (t : State) × (fill_transferers 4 first_row requested ≡ some t) × Filled first_row t
fill_transferers-Filled_example = fill_transferers-Filled 4 first_row requested few_ready

-- A database with a part of an upload that waits.
abbrev with_upload : Database
with_upload = record new_database {
  transfers =
      record {
        id = 1;
        owner = 1000;
        file = 9;
        filesize = some 5;
        direction = upload;
        uploadid = none;
      }
      ∷ [];
  transferparts =
      record { id = 1; transfer = 1; part = 1; inprogress = false; completed = false; etag = none }
      ∷ [];
}

pending_found : query_find_pending_upload first_row with_upload ≡ 9
unfolding query_find_pending_upload rows_where join_on pairs_with file_of
pending_found = refl

all_ready : ready (initial_state with_upload).transferers < 4
unfolding count_where
all_ready = omega arith

fill_transferers-same_upload_example :
    (t : State) × (fill_transferers 4 first_row (initial_state with_upload) ≡ some t)
    × Uploading 9 (initial_state with_upload) t
fill_transferers-same_upload_example =
    fill_transferers-same_upload 4 9 first_row (initial_state with_upload) pending_found
      (λ e. omega (arith, e)) all_ready

Steps-IsSingle_example : IsSingle failed
Steps-IsSingle_example =
    Steps-IsSingle first_row no_upload (initial_state new_database) failed path
      (record { files = tt; addresses = tt; below = tt; active = tt; single = tt })
