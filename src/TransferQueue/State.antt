-- ===== src/TransferQueue/State.antt =====
-- The shared state of src/downloadqueue.c and the functions on it. A change between two locks of
-- `mainLoop_mutex` is one function; what S3 and the permission process do in between is its parameters.
use aws_s3fs.Common.{
  ℕ, zero, suc, ◌+◌, ◌-◌, Bool, true, false, Option, none, some, List, [], ◌∷◌, ◌++◌, ◌==◌,
  if◌then◌else◌,
}
use aws_s3fs.CacheDb.Rows.{rows_where, update_where, remove_where}
use aws_s3fs.CacheDb.Tables.{Transfer, TransferPart, Database}
use aws_s3fs.CacheDb.Files.{query_mark_file_as_cached}
use aws_s3fs.CacheDb.Transfers.{
  query_add_download, query_delete_transfer, query_delete_upload_transfer,
}
use aws_s3fs.CacheDb.Uploads.{Upload, UploadRow, query_find_pending_upload, query_get_upload}

-- A `struct DownloadSubscription` at an address.
pub record Subscription : Type 0 where
  pub address : ℕ
  pub file_id : ℕ
  pub download_active : Bool
  pub subscribers : ℕ

-- What the thread of `BeginDownload` or `BeginUpload` works on, with the latter's `uploadPending`, false until
-- it is set.
pub data Job : Type 0 where
  download_job : (address file_id : ℕ) → Job
  upload_job : (file_id : ℕ) (upload_pending : Bool) → Job

pub record Thread : Type 0 where
  pub slot : ℕ
  pub job : Job

-- `transferers` with their `isReady`, `downloadQueue`, the subscriptions that are no longer in it and not yet
-- freed, the running threads, and the clients that wait for a subscription or have been woken.
pub record State : Type 0 where
  pub transferers : List Bool
  pub download_queue : List Subscription
  pub finished : List Subscription
  pub threads : List Thread
  pub waiting : List ℕ
  pub woken : List ℕ
  pub next_address : ℕ
  pub db : Database

-- `MAX_SIMULTANEOUS_TRANSFERS` transferers, as `ProcessTransferQueues` sets them up.
abbrev pub initial_state : Database → State
initial_state db = record {
  transferers = true ∷ true ∷ true ∷ [];
  download_queue = [];
  finished = [];
  threads = [];
  waiting = [];
  woken = [];
  next_address = 1;
  db = db;
}

unfoldable pub find_in_download_queue : ℕ → List Subscription → Option Subscription
find_in_download_queue file_id [] = none
find_in_download_queue file_id (subscription ∷ queue) =
    if subscription.file_id == file_id
    then some subscription
    else find_in_download_queue file_id queue

abbrev pub at_address : ℕ → Subscription → Bool
at_address address subscription = subscription.address == address

-- `ReceiveDownload` until it waits.
unfoldable pub subscribe_to : ℕ → ℕ → State → Option Subscription → State
subscribe_to file_id owner st none = record st {
  download_queue =
      st.download_queue
      ++ (record {
        address = st.next_address;
        file_id = file_id;
        download_active = false;
        subscribers = 1;
      }
          ∷ []);
  waiting = st.next_address ∷ st.waiting;
  next_address = st.next_address + 1;
  db = (query_add_download file_id owner st.db).1;
}
subscribe_to file_id owner st (some found) = record st {
  download_queue =
      update_where (at_address found.address)
        (λ (s : Subscription). record s { subscribers = s.subscribers + 1 }) st.download_queue;
  waiting = found.address ∷ st.waiting;
}

unfoldable pub receive_download : ℕ → ℕ → State → State
receive_download file_id owner st =
    subscribe_to file_id owner st (find_in_download_queue file_id st.download_queue)

unfoldable pub remove_one : ℕ → List ℕ → List ℕ
remove_one address [] = []
remove_one address (client ∷ clients) =
    if client == address then clients else client ∷ remove_one address clients

-- `UnsubscribeFromDownload` of a client that was woken.
unfoldable pub unsubscribe_from_download : ℕ → State → State
unsubscribe_from_download address st = record st {
  finished =
      update_where (at_address address)
        (λ (s : Subscription). record s { subscribers = s.subscribers - 1 }) st.finished;
  woken = remove_one address st.woken;
}

unfoldable pub next_slot : Option ℕ → Option ℕ
next_slot none = none
next_slot (some slot) = some (suc slot)

-- The first transferer that is ready.
unfoldable pub find_available_transferer : List Bool → Option ℕ
find_available_transferer [] = none
find_available_transferer (true ∷ transferers) = some 0
find_available_transferer (false ∷ transferers) = next_slot (find_available_transferer transferers)

unfoldable pub set_ready : ℕ → Bool → List Bool → List Bool
set_ready slot ready [] = []
set_ready zero ready (b ∷ transferers) = ready ∷ transferers
set_ready (suc slot) ready (b ∷ transferers) = b ∷ set_ready slot ready transferers

unfoldable pub get_subscription_from_download_queue : List Subscription → Option Subscription
get_subscription_from_download_queue [] = none
get_subscription_from_download_queue (subscription ∷ queue) =
    if subscription.download_active
    then get_subscription_from_download_queue queue
    else some subscription

unfoldable pub start_upload : ℕ → ℕ → State → State
start_upload slot file_id st = record st {
  transferers = set_ready slot false st.transferers;
  threads = record { slot = slot; job = upload_job file_id false } ∷ st.threads;
}

unfoldable pub start_download : ℕ → Subscription → State → State
start_download slot subscription st = record st {
  transferers = set_ready slot false st.transferers;
  download_queue =
      update_where (at_address subscription.address)
        (λ (s : Subscription). record s { download_active = true }) st.download_queue;
  threads =
      record { slot = slot; job = download_job subscription.address subscription.file_id }
      ∷ st.threads;
}

abbrev pub Limit : Type 0
Limit = List (TransferPart × Transfer) → Option (TransferPart × Transfer)

-- One round of the loop that fills the transferers; `none` leaves the loop.
unfoldable pub start_download_if : ℕ → State → Option Subscription → Option State
start_download_if slot st none = none
start_download_if slot st (some subscription) = some (start_download slot subscription st)

unfoldable pub start_transfer : Limit → State → Option ℕ → Option State
start_transfer limit st none = none
start_transfer limit st (some slot) =
    let file_id = query_find_pending_upload limit st.db in
    if file_id == 0
    then start_download_if slot st (get_subscription_from_download_queue st.download_queue)
    else some (start_upload slot file_id st)

unfoldable pub fill_next : (State → Option State) → State → Option State → Option State
fill_next fill st none = some st
fill_next fill st (some next) = fill next

-- The loop of `ProcessTransferQueues` until it waits; `none` is the end of the fuel.
unfoldable pub fill_transferers : ℕ → Limit → State → Option State
fill_transferers zero limit st = none
fill_transferers (suc fuel) limit st =
    fill_next (fill_transferers fuel limit) st
      (start_transfer limit st (find_available_transferer st.transferers))

abbrev pub in_slot : ℕ → Thread → Bool
in_slot slot thread = thread.slot == slot

-- The end of the thread of `BeginDownload` in a slot, with the result of the transfer.
unfoldable pub finish_download : ℕ → ℕ → ℕ → Bool → State → State
finish_download slot address file_id false st = record st {
  threads = remove_where (in_slot slot) st.threads;
}
finish_download slot address file_id true st = record st {
  transferers = set_ready slot true st.transferers;
  download_queue = remove_where (at_address address) st.download_queue;
  finished =
      update_where (at_address address) (λ (s : Subscription). record s { download_active = false })
        (rows_where (at_address address) st.download_queue)
      ++ st.finished;
  threads = remove_where (in_slot slot) st.threads;
  waiting = remove_where (λ (client : ℕ). client == address) st.waiting;
  woken = rows_where (λ (client : ℕ). client == address) st.waiting ++ st.woken;
  db = query_mark_file_as_cached file_id (query_delete_transfer file_id st.db).1;
}

-- The acknowledgment, or a minute: `free( subscription )`.
unfoldable pub free_subscription : ℕ → State → State
free_subscription address st = record st {
  finished = remove_where (at_address address) st.finished;
}

-- The job of a thread whose `uploadPending` is true.
unfoldable pub mark_pending : Job → Job
mark_pending (download_job address file_id) = download_job address file_id
mark_pending (upload_job file_id upload_pending) = upload_job file_id true

-- The start of the thread of `BeginUpload` in a slot. Without a pending part it ends at once.
unfoldable pub begin_upload_of : ℕ → State → Option Upload → State
begin_upload_of slot st none = record st { threads = remove_where (in_slot slot) st.threads }
begin_upload_of slot st (some pending) = record st {
  threads =
      update_where (in_slot slot) (λ (t : Thread). record t { job = mark_pending t.job })
        st.threads;
}

unfoldable pub begin_upload : (List UploadRow → Option UploadRow) → ℕ → ℕ → State → State
begin_upload limit slot file_id st = begin_upload_of slot st (query_get_upload limit file_id st.db)

-- The end of the thread of `BeginUpload` in a slot, with the result of the transfer of the part that was
-- pending at its start.
unfoldable pub finish_upload : ℕ → ℕ → Bool → State → State
finish_upload slot file_id false st = record st { threads = remove_where (in_slot slot) st.threads }
finish_upload slot file_id true st = record st {
  transferers = set_ready slot true st.transferers;
  threads = remove_where (in_slot slot) st.threads;
  db = (query_delete_upload_transfer file_id st.db).1;
}
