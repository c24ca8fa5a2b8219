-- ===== src/TransferQueue/QueueRun.antt =====
-- Every step of the threads of src/downloadqueue.c keeps each file once in the queue and in one download.
use aws_s3fs.Common.{
  ℕ, ◌≡◌, refl, ◌∙◌, arith, Bool, true, false, Option, none, some, List, [], ◌∷◌, ◌==◌, All,
}
use aws_s3fs.CacheDb.Rows.{update_where}
use aws_s3fs.Common.{◌&&◌, ◌++◌, ◌<◌, All-append}
use aws_s3fs.CacheDb.Rows.{remove_where}
use aws_s3fs.CacheDb.RowLaws.{All-imp, All-remove, Distinct-remove}
use aws_s3fs.CacheDb.Uploads.{Upload, UploadRow, query_get_upload}
use aws_s3fs.TransferQueue.State.{
  Job, Subscription, download_job, upload_job, Thread, State, find_in_download_queue, subscribe_to,
  receive_download, unsubscribe_from_download, Limit, in_slot, finish_download, free_subscription,
  mark_pending, begin_upload_of, begin_upload, finish_upload,
}
use aws_s3fs.TransferQueue.State.{at_address}
use aws_s3fs.CacheDb.RowLaws.{exists-update, Distinct-update, All-update}
use aws_s3fs.Common.{◌+◌}
use aws_s3fs.TransferQueue.Steps.{
  Runs, Step, receives, starts, ends_download, begins_upload, ends_upload, unsubscribes, frees,
  executes, Steps, start, later,
}
use aws_s3fs.TransferQueue.Capacity.{start_transfer-cases}
use aws_s3fs.TransferQueue.Queue.{
  IsSingle, same_file, same_address, same_download, same_job, is_active, Distinct-last,
  not_found_lem,
}
use aws_s3fs.TransferQueue.Active.{
  exists-append, others_differ, still_active, start_download-IsSingle, start_upload-IsSingle,
}

is_active-append :
    (queue rest : List Subscription) (job : Job)
    → is_active queue job ≡ true
    → is_active (queue ++ rest) job ≡ true
is_active-append queue rest (upload_job f p) h = refl
is_active-append queue rest (download_job b f) h =
    exists-append (λ (x : Subscription). x.address == b && x.download_active) queue rest h

is_active-count :
    (address : ℕ) (queue : List Subscription) (job : Job)
    → is_active queue job ≡ true
    → is_active
        (update_where
          (at_address address)
          (λ (x : Subscription). record x { subscribers = x.subscribers + 1 })
          queue)
        job
      ≡ true
is_active-count address queue (upload_job f p) h = refl
is_active-count address queue (download_job b f) h =
    exists-update (λ (x : Subscription). x.address == b && x.download_active) (at_address address)
      (λ (x : Subscription). record x { subscribers = x.subscribers + 1 }) (λ x. refl) queue
    ∙ h

subscribe_to-IsSingle :
    (file_id owner : ℕ) (s : State) (found : Option Subscription)
    → find_in_download_queue file_id s.download_queue ≡ found
    → IsSingle s
    → IsSingle (subscribe_to file_id owner s found)
unfolding subscribe_to
subscribe_to-IsSingle file_id owner s none absent i =
    let new : Subscription = record {
      address = s.next_address;
      file_id = file_id;
      download_active = false;
      subscribers = 1;
    } in
    record {
      files =
          Distinct-last same_file s.download_queue new i.files
            (not_found_lem file_id s.download_queue absent);
      addresses = Distinct-last same_address s.download_queue new i.addresses (
          All-imp (λ (x : Subscription). x.address < s.next_address)
            (λ (x : Subscription). (x.address == s.next_address) ≡ false) (λ x k. ground (arith, k))
            s.download_queue i.below);
      below =
          All-append (λ (x : Subscription). x.address < s.next_address + 1) s.download_queue
            (new ∷ [])
            (All-imp (λ (x : Subscription). x.address < s.next_address)
              (λ (x : Subscription). x.address < s.next_address + 1) (λ x k. omega (arith, k))
              s.download_queue i.below)
            (omega arith, tt);
      active =
          All-imp (λ (t : Thread). is_active s.download_queue t.job ≡ true)
            (λ (t : Thread). is_active (s.download_queue ++ (new ∷ [])) t.job ≡ true)
            (λ t k. is_active-append s.download_queue (new ∷ []) t.job k) s.threads i.active;
      single = i.single;
    }
subscribe_to-IsSingle file_id owner s (some found) there i =
    let p = at_address found.address in
    let f = λ (x : Subscription). record x { subscribers = x.subscribers + 1 } in
    record {
      files = Distinct-update same_file p f (λ a b. refl) (λ a b. refl) s.download_queue i.files;
      addresses =
          Distinct-update same_address p f (λ a b. refl) (λ a b. refl) s.download_queue i.addresses;
      below =
          All-update (λ (x : Subscription). x.address < s.next_address) p f (λ x k. k)
            s.download_queue i.below;
      active =
          All-imp (λ (t : Thread). is_active s.download_queue t.job ≡ true)
            (λ (t : Thread). is_active (update_where p f s.download_queue) t.job ≡ true)
            (λ t k. is_active-count found.address s.download_queue t.job k) s.threads i.active;
      single = i.single;
    }

-- A thread that ends and leaves the queue as it is.
thread_ends-IsSingle :
    (s : State) (slot : ℕ)
    → IsSingle s
    → IsSingle (record s { threads = remove_where (in_slot slot) s.threads })
thread_ends-IsSingle s slot i = record {
  files = i.files;
  addresses = i.addresses;
  below = i.below;
  active =
      All-remove (λ (t : Thread). is_active s.download_queue t.job ≡ true) (in_slot slot) s.threads
        i.active;
  single = Distinct-remove same_download (in_slot slot) s.threads i.single;
}

All-both :
    (P Q R : Thread → Type 0)
    → ((t : Thread) → P t → Q t → R t)
    → (threads : List Thread) → All P threads
    → All Q threads
    → All R threads
All-both P Q R f [] h k = tt
All-both P Q R f (t ∷ threads) h k = (f t h.0 k.0, All-both P Q R f threads h.1 k.1)

finish_download-IsSingle :
    (s : State) (slot address file_id : ℕ) (status : Bool)
    → Runs s slot (download_job address file_id)
    → IsSingle s
    → IsSingle (finish_download slot address file_id status s)
unfolding finish_download
finish_download-IsSingle s slot address file_id false runs i =
    let j = thread_ends-IsSingle s slot i in
    record {
      files = j.files;
      addresses = j.addresses;
      below = j.below;
      active = j.active;
      single = j.single;
    }
finish_download-IsSingle s slot address file_id true runs i =
    let p = at_address address in
    let left = remove_where (in_slot slot) s.threads in
    record {
      files = Distinct-remove same_file p s.download_queue i.files;
      addresses = Distinct-remove same_address p s.download_queue i.addresses;
      below =
          All-remove (λ (x : Subscription). x.address < s.next_address) p s.download_queue i.below;
      active =
          All-both (λ (t : Thread). same_job (download_job address file_id) t.job ≡ false)
            (λ (t : Thread). is_active s.download_queue t.job ≡ true)
            (λ (t : Thread). is_active (remove_where p s.download_queue) t.job ≡ true)
            (λ t differs k. still_active address file_id s.download_queue t.job differs k) left
            (others_differ slot s.threads
              (record { slot = slot; job = download_job address file_id }) i.single runs)
            (All-remove (λ (t : Thread). is_active s.download_queue t.job ≡ true) (in_slot slot)
              s.threads i.active);
      single = Distinct-remove same_download (in_slot slot) s.threads i.single;
    }

mark_pending-is_active :
    (queue : List Subscription) (job : Job)
    → is_active queue (mark_pending job) ≡ is_active queue job
unfolding mark_pending
mark_pending-is_active queue (download_job address f) = refl
mark_pending-is_active queue (upload_job f p) = refl

mark_pending-same_job :
    (a b : Job)
    → (same_job (mark_pending a) b ≡ same_job a b) × (same_job a (mark_pending b) ≡ same_job a b)
unfolding mark_pending
mark_pending-same_job (download_job a f) (download_job b g) = (refl, refl)
mark_pending-same_job (download_job a f) (upload_job g q) = (refl, refl)
mark_pending-same_job (upload_job f p) (download_job b g) = (refl, refl)
mark_pending-same_job (upload_job f p) (upload_job g q) = (refl, refl)

begin_upload_of-IsSingle :
    (s : State) (slot : ℕ) (pending : Option Upload)
    → IsSingle s
    → IsSingle (begin_upload_of slot s pending)
unfolding begin_upload_of
begin_upload_of-IsSingle s slot none i = thread_ends-IsSingle s slot i
begin_upload_of-IsSingle s slot (some pending) i =
    let f = λ (t : Thread). record t { job = mark_pending t.job } in
    record {
      files = i.files;
      addresses = i.addresses;
      below = i.below;
      active =
          All-update (λ (t : Thread). is_active s.download_queue t.job ≡ true) (in_slot slot) f
            (λ t k. mark_pending-is_active s.download_queue t.job ∙ k) s.threads i.active;
      single =
          Distinct-update same_download (in_slot slot) f
            (λ a b. (mark_pending-same_job a.job b.job).0)
            (λ a b. (mark_pending-same_job a.job b.job).1) s.threads i.single;
    }

finish_upload-IsSingle :
    (s : State) (slot file_id : ℕ) (status : Bool)
    → IsSingle s
    → IsSingle (finish_upload slot file_id status s)
unfolding finish_upload
finish_upload-IsSingle s slot file_id false i = thread_ends-IsSingle s slot i
finish_upload-IsSingle s slot file_id true i =
    let j = thread_ends-IsSingle s slot i in
    record {
      files = j.files;
      addresses = j.addresses;
      below = j.below;
      active = j.active;
      single = j.single;
    }

Step-IsSingle :
    (limit : Limit) (limit_upload : List UploadRow → Option UploadRow) (s t : State)
    → Step limit limit_upload s t
    → IsSingle s
    → IsSingle t
unfolding receive_download unsubscribe_from_download free_subscription begin_upload
Step-IsSingle limit limit_upload s _ (receives file_id owner) i =
    subscribe_to-IsSingle file_id owner s (find_in_download_queue file_id s.download_queue) refl i
Step-IsSingle limit limit_upload s t (starts h) i =
    start_transfer-cases IsSingle limit s
      (λ slot file_id free. start_upload-IsSingle s slot file_id i)
      (λ slot subscription free found. start_download-IsSingle s slot subscription found i) t h
Step-IsSingle limit limit_upload s _ (ends_download slot address file_id status runs) i =
    finish_download-IsSingle s slot address file_id status runs i
Step-IsSingle limit limit_upload s _ (begins_upload slot file_id runs) i =
    begin_upload_of-IsSingle s slot (query_get_upload limit_upload file_id s.db) i
Step-IsSingle limit limit_upload s _ (ends_upload slot file_id status runs) i =
    finish_upload-IsSingle s slot file_id status i
Step-IsSingle limit limit_upload s _ (unsubscribes address) i = record {
  files = i.files;
  addresses = i.addresses;
  below = i.below;
  active = i.active;
  single = i.single;
}
Step-IsSingle limit limit_upload s _ (frees address) i = record {
  files = i.files;
  addresses = i.addresses;
  below = i.below;
  active = i.active;
  single = i.single;
}
Step-IsSingle limit limit_upload s _ (executes statement) i = record {
  files = i.files;
  addresses = i.addresses;
  below = i.below;
  active = i.active;
  single = i.single;
}

-- In every state that is reached from one in which it holds, such as the initial one, no file is in the download queue
-- twice; each thread that downloads works on a subscription that is in the queue and marked as active; and no two
-- threads download for the same subscription.
pub Steps-IsSingle :
    (limit : Limit) (limit_upload : List UploadRow → Option UploadRow) (s t : State)
    → Steps limit limit_upload s t
    → IsSingle s
    → IsSingle t
Steps-IsSingle limit limit_upload s _ start i = i
Steps-IsSingle limit limit_upload s u (later {t} path step) i =
    Step-IsSingle limit limit_upload t u step (Steps-IsSingle limit limit_upload s t path i)
