-- ===== src/TransferQueue/Capacity.antt =====
-- The transferers of src/downloadqueue.c: who uses them, and how many can be used.
use aws_s3fs.Common.{
  ℕ, zero, suc, ◌+◌, ◌≡◌, ◌≤◌, ◌<◌, refl, sym, ap, ◌∙◌, arith, Bool, true, false, Option, none,
  some, List, [], ◌∷◌, length, ◌==◌, Bool-cases, inl, inr, Option-cases,
}
use mathlib.Core.Path.{subst}
use mathlib.Core.Option.{none-ne-some, some-injective}
use aws_s3fs.CacheDb.Rows.{count_where, remove_where, update_where, last_where}
use aws_s3fs.CacheDb.RowLaws.{last-skip}
use aws_s3fs.CacheDb.Tables.{Database}
use aws_s3fs.CacheDb.Uploads.{Upload, UploadRow, query_find_pending_upload, query_get_upload}
use aws_s3fs.TransferQueue.State.{
  Subscription, download_job, upload_job, Thread, State, initial_state, find_in_download_queue,
  subscribe_to, receive_download, unsubscribe_from_download, Limit, next_slot,
  find_available_transferer, set_ready, get_subscription_from_download_queue, start_upload,
  start_download, start_download_if, start_transfer, in_slot, finish_download, free_subscription,
  mark_pending, begin_upload_of, begin_upload, finish_upload,
}
use aws_s3fs.TransferQueue.Steps.{
  Runs, Step, receives, starts, ends_download, begins_upload, ends_upload, unsubscribes, frees,
  executes, Steps, start, later,
}

-- The number of transferers that are ready.
abbrev pub ready : List Bool → ℕ
ready transferers = count_where (λ (b : Bool). b) transferers

-- How many transfers can run at a time: the transferers that are ready, and those that a thread uses.
abbrev pub capacity : State → ℕ
capacity st = ready st.transferers + length st.threads

pub available-ready :
    (transferers : List Bool) (slot : ℕ)
    → find_available_transferer transferers ≡ some slot
    → ready (set_ready slot false transferers) + 1 ≡ ready transferers
unfolding find_available_transferer next_slot set_ready count_where
available-ready [] slot h = absurd (none-ne-some slot h)
available-ready (true ∷ transferers) zero h = omega arith
available-ready (true ∷ transferers) (suc slot) h =
    absurd (omega (arith, some-injective 0 (suc slot) h))
available-ready (false ∷ transferers) slot h =
    elim (Option-cases (find_available_transferer transferers)) [
      | inl nothing ↦ absurd (none-ne-some slot (sym (ap next_slot nothing) ∙ h))
      | inr (k, e) ↦
          let same : suc k ≡ slot = some-injective (suc k) slot (sym (ap next_slot e) ∙ h) in
          subst (λ n. ready (set_ready n false (false ∷ transferers)) + 1 ≡ ready transferers) same
            (available-ready transferers k e)
    ]

set_ready-ready :
    (slot : ℕ) (transferers : List Bool)
    → ready (set_ready slot true transferers) ≤ ready transferers + 1
unfolding set_ready count_where
set_ready-ready slot [] = omega arith
set_ready-ready zero (true ∷ transferers) = omega arith
set_ready-ready zero (false ∷ transferers) = omega arith
set_ready-ready (suc slot) (true ∷ transferers) =
    let rest = set_ready-ready slot transferers in omega (arith, rest)
set_ready-ready (suc slot) (false ∷ transferers) = set_ready-ready slot transferers

length-remove :
    (p : Thread → Bool) (threads : List Thread) → length (remove_where p threads) ≤ length threads
unfolding remove_where
length-remove p [] = omega arith
length-remove p (t ∷ threads) =
    let rest = length-remove p threads in
    elim (Bool-cases (p t)) [
      | inl hit ↦ rw hit (omega (arith, rest))
      | inr miss ↦ rw miss (omega (arith, rest))
    ]

-- The thread that ends was one of the threads.
length-remove_one :
    (p : Thread → Bool) (threads : List Thread) (t : Thread)
    → last_where p threads ≡ some t
    → length (remove_where p threads) + 1 ≤ length threads
unfolding remove_where last_where
length-remove_one p [] t h = absurd (none-ne-some t h)
length-remove_one p (x ∷ threads) t h = elim (Bool-cases (p x)) [
  | inl hit ↦ let rest = length-remove p threads in rw hit (omega (arith, rest))
  | inr miss ↦
      let rest = length-remove_one p threads t (sym (last-skip p x threads miss) ∙ h) in
      rw miss (omega (arith, rest))
]

module _ (P : State → Type 0) (limit : Limit) (s : State)
    (uploads : (slot file_id : ℕ)
      → find_available_transferer s.transferers ≡ some slot
      → P (start_upload slot file_id s))
    (downloads : (slot : ℕ) (subscription : Subscription)
      → find_available_transferer s.transferers ≡ some slot
      → get_subscription_from_download_queue s.download_queue ≡ some subscription
      → P (start_download slot subscription s)) where
  download_started :
      (slot : ℕ) (t : State) (found : Option Subscription)
      → find_available_transferer s.transferers ≡ some slot
      → get_subscription_from_download_queue s.download_queue ≡ found
      → start_download_if slot s found ≡ some t
      → P t
  unfolding start_download_if
  download_started slot t none free found h = absurd (none-ne-some t h)
  download_started slot t (some subscription) free found h =
      subst P (some-injective (start_download slot subscription s) t h)
        (downloads slot subscription free found)

  transfer_started :
      (t : State) (free : Option ℕ)
      → find_available_transferer s.transferers ≡ free
      → start_transfer limit s free ≡ some t
      → P t
  unfolding start_transfer
  transfer_started t none free h = absurd (none-ne-some t h)
  transfer_started t (some slot) free h =
      let file_id = query_find_pending_upload limit s.db in
      elim (Bool-cases (file_id == 0)) [
        | inl none_pending ↦
            download_started slot t (get_subscription_from_download_queue s.download_queue) free
              refl (sym (rw none_pending refl) ∙ h)
        | inr pending ↦
            let same : start_upload slot file_id s ≡ t =
              some-injective (start_upload slot file_id s) t (sym (rw pending refl) ∙ h) in
            subst P same (uploads slot file_id free)
      ]

  -- What holds after an upload or a download is started holds after a round of the main loop.
  pub start_transfer-cases :
      (t : State) → start_transfer limit s (find_available_transferer s.transferers) ≡ some t → P t
  start_transfer-cases t h = transfer_started t (find_available_transferer s.transferers) refl h

-- A round of the main loop turns a transferer that is ready into one that is used.
pub start_transfer-capacity :
    (limit : Limit) (s t : State)
    → start_transfer limit s (find_available_transferer s.transferers) ≡ some t
    → capacity t ≡ capacity s
unfolding start_upload start_download
start_transfer-capacity limit s t h =
    start_transfer-cases (λ u. capacity u ≡ capacity s) limit s
      (λ slot file_id free. let one = available-ready s.transferers slot free in omega (arith, one))
      (λ slot subscription free found.
        let one = available-ready s.transferers slot free in omega (arith, one))
      t h

subscribe_to-capacity :
    (file_id owner : ℕ) (s : State) (found : Option Subscription)
    → capacity (subscribe_to file_id owner s found) ≡ capacity s
unfolding subscribe_to
subscribe_to-capacity file_id owner s none = refl
subscribe_to-capacity file_id owner s (some found) = refl

finish_download-capacity :
    (s : State) (slot address file_id : ℕ) (status : Bool)
    → Runs s slot (download_job address file_id)
    → capacity (finish_download slot address file_id status s) ≤ capacity s
unfolding finish_download
finish_download-capacity s slot address file_id false runs =
    let one = length-remove (in_slot slot) s.threads in omega (arith, one)
finish_download-capacity s slot address file_id true runs =
    let one =
      length-remove_one (in_slot slot) s.threads
        (record { slot = slot; job = download_job address file_id }) runs in
    let up = set_ready-ready slot s.transferers in omega (arith, one, up)

length-update :
    (p : Thread → Bool) (f : Thread → Thread) (threads : List Thread)
    → length (update_where p f threads) ≡ length threads
unfolding update_where
length-update p f [] = refl
length-update p f (t ∷ threads) = ap suc (length-update p f threads)

begin_upload_of-capacity :
    (s : State) (slot : ℕ) (pending : Option Upload)
    → capacity (begin_upload_of slot s pending) ≤ capacity s
unfolding begin_upload_of
begin_upload_of-capacity s slot none =
    let one = length-remove (in_slot slot) s.threads in omega (arith, one)
begin_upload_of-capacity s slot (some pending) =
    let e =
      length-update (in_slot slot) (λ (t : Thread). record t { job = mark_pending t.job })
        s.threads in
    omega (arith, e)

finish_upload-capacity :
    (s : State) (slot file_id : ℕ) (status : Bool)
    → Runs s slot (upload_job file_id true)
    → capacity (finish_upload slot file_id status s) ≤ capacity s
unfolding finish_upload
finish_upload-capacity s slot file_id false runs =
    let one = length-remove (in_slot slot) s.threads in omega (arith, one)
finish_upload-capacity s slot file_id true runs =
    let one =
      length-remove_one (in_slot slot) s.threads
        (record { slot = slot; job = upload_job file_id true }) runs in
    let up = set_ready-ready slot s.transferers in omega (arith, one, up)

Step-capacity :
    (limit : Limit) (limit_upload : List UploadRow → Option UploadRow) (s t : State)
    → Step limit limit_upload s t
    → capacity t ≤ capacity s
unfolding receive_download unsubscribe_from_download free_subscription begin_upload
Step-capacity limit limit_upload s _ (receives file_id owner) =
    let e =
      subscribe_to-capacity file_id owner s (find_in_download_queue file_id s.download_queue) in
    omega (arith, e)
Step-capacity limit limit_upload s t (starts h) =
    let e = start_transfer-capacity limit s t h in omega (arith, e)
Step-capacity limit limit_upload s _ (ends_download slot address file_id status runs) =
    finish_download-capacity s slot address file_id status runs
Step-capacity limit limit_upload s _ (begins_upload slot file_id runs) =
    begin_upload_of-capacity s slot (query_get_upload limit_upload file_id s.db)
Step-capacity limit limit_upload s _ (ends_upload slot file_id status runs) =
    finish_upload-capacity s slot file_id status runs
Step-capacity limit limit_upload s _ (unsubscribes address) = omega arith
Step-capacity limit limit_upload s _ (frees address) = omega arith
Step-capacity limit limit_upload s _ (executes statement) = omega arith

Steps-capacity :
    (limit : Limit) (limit_upload : List UploadRow → Option UploadRow) (s t : State)
    → Steps limit limit_upload s t
    → capacity t ≤ capacity s
Steps-capacity limit limit_upload s _ start = omega arith
Steps-capacity limit limit_upload s u (later {t} path step) =
    let before = Steps-capacity limit limit_upload s t path in
    let one = Step-capacity limit limit_upload t u step in omega (arith, before, one)

-- In every state that is reached from the initial one, whatever happens in whatever order, at most three threads
-- transfer a file.
pub threads_at_most_three :
    (limit : Limit) (limit_upload : List UploadRow → Option UploadRow) (db : Database) (t : State)
    → Steps limit limit_upload (initial_state db) t
    → length t.threads ≤ 3
unfolding count_where
threads_at_most_three limit limit_upload db t path =
    let bound = Steps-capacity limit limit_upload (initial_state db) t path in omega (arith, bound)

-- When the transfer of a download fails, its transferer is lost: in every state that is reached afterwards,
-- fewer transfers can run at a time than before, by at least one.
pub finish_download-lost :
    (limit : Limit) (limit_upload : List UploadRow → Option UploadRow) (s t : State)
    (slot address file_id : ℕ)
    → Runs s slot (download_job address file_id)
    → Steps limit limit_upload (finish_download slot address file_id false s) t
    → capacity t < capacity s
unfolding finish_download
finish_download-lost limit limit_upload s t slot address file_id runs path =
    let one =
      length-remove_one (in_slot slot) s.threads
        (record { slot = slot; job = download_job address file_id }) runs in
    let after =
      Steps-capacity limit limit_upload (finish_download slot address file_id false s) t path in
    omega (arith, one, after)
