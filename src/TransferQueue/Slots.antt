-- ===== src/TransferQueue/Slots.antt =====
-- Each running thread of src/downloadqueue.c has a transferer of its own, which is not ready.
use aws_s3fs.Common.{
  ℕ, zero, suc, ◌≡◌, refl, sym, ap, ◌∙◌, arith, Bool, true, false, Option, none, some, List, [],
  ◌∷◌, get_or, ==_iff, ◌==◌, All, Bool-cases, inl, inr, Option-cases,
}
use mathlib.Core.Path.{subst}
use mathlib.Core.Option.{none-ne-some, some-injective}
use aws_s3fs.CacheDb.Rows.{remove_where, Distinct}
use aws_s3fs.CacheDb.RowLaws.{All-imp, All-remove, Distinct-remove, All-update, Distinct-update}
use aws_s3fs.CacheDb.Uploads.{Upload, UploadRow, query_get_upload}
use aws_s3fs.TransferQueue.State.{
  Job, Subscription, download_job, upload_job, Thread, State, find_in_download_queue, subscribe_to,
  receive_download, unsubscribe_from_download, Limit, next_slot, find_available_transferer,
  set_ready, start_upload, start_download, start_transfer, in_slot, finish_download,
  free_subscription, mark_pending, begin_upload_of, begin_upload, finish_upload,
}
use aws_s3fs.TransferQueue.Steps.{
  Step, receives, starts, ends_download, begins_upload, ends_upload, unsubscribes, frees, executes,
  Steps, start, later,
}
use aws_s3fs.TransferQueue.Capacity.{start_transfer-cases}

abbrev pub same_slot : Thread → Thread → Bool
same_slot a b = a.slot == b.slot

-- A transferer that exists and is not ready.
abbrev pub is_ready : List Bool → ℕ → Bool
is_ready transferers slot = get_or transferers slot true

pub record IsOwned (s : State) : Type 0 where
  pub busy : All (λ (t : Thread). is_ready s.transferers t.slot ≡ false) s.threads
  pub own : Distinct same_slot s.threads

available-is_ready :
    (transferers : List Bool) (slot : ℕ)
    → find_available_transferer transferers ≡ some slot
    → (is_ready transferers slot ≡ true)
      × (is_ready (set_ready slot false transferers) slot ≡ false)
unfolding find_available_transferer next_slot set_ready
available-is_ready [] slot h = absurd (none-ne-some slot h)
available-is_ready (true ∷ transferers) zero h = (refl, refl)
available-is_ready (true ∷ transferers) (suc slot) h =
    absurd (omega (arith, some-injective 0 (suc slot) h))
available-is_ready (false ∷ transferers) slot h =
    elim (Option-cases (find_available_transferer transferers)) [
      | inl nothing ↦ absurd (none-ne-some slot (sym (ap next_slot nothing) ∙ h))
      | inr (k, e) ↦
          let same : suc k ≡ slot = some-injective (suc k) slot (sym (ap next_slot e) ∙ h) in
          subst
            (λ n.
              (is_ready (false ∷ transferers) n ≡ true)
              × (is_ready (set_ready n false (false ∷ transferers)) n ≡ false))
            same (available-is_ready transferers k e)
    ]

set_false-is_ready :
    (transferers : List Bool) (slot other : ℕ)
    → is_ready transferers other ≡ false
    → is_ready (set_ready slot false transferers) other ≡ false
unfolding set_ready
set_false-is_ready [] slot other h = h
set_false-is_ready (b ∷ transferers) zero zero h = refl
set_false-is_ready (b ∷ transferers) zero (suc other) h = h
set_false-is_ready (b ∷ transferers) (suc slot) zero h = h
set_false-is_ready (b ∷ transferers) (suc slot) (suc other) h =
    set_false-is_ready transferers slot other h

set_other-is_ready :
    (transferers : List Bool) (slot other : ℕ) (b : Bool)
    → (other == slot) ≡ false
    → is_ready (set_ready slot b transferers) other ≡ is_ready transferers other
unfolding set_ready
set_other-is_ready [] slot other b h = refl
set_other-is_ready (x ∷ transferers) zero zero b h = absurd (ground (arith, h))
set_other-is_ready (x ∷ transferers) zero (suc other) b h = refl
set_other-is_ready (x ∷ transferers) (suc slot) zero b h = refl
set_other-is_ready (x ∷ transferers) (suc slot) (suc other) b h =
    set_other-is_ready transferers slot other b (ground (arith, h))

-- A thread that starts in a transferer that was ready.
started-IsOwned :
    (transferers : List Bool) (threads : List Thread) (slot : ℕ) (job : Job)
    → find_available_transferer transferers ≡ some slot
    → All (λ (t : Thread). is_ready transferers t.slot ≡ false) threads
    → Distinct same_slot threads
    → All
        (λ (t : Thread). is_ready (set_ready slot false transferers) t.slot ≡ false)
        (record { slot = slot; job = job } ∷ threads)
      × Distinct same_slot (record { slot = slot; job = job } ∷ threads)
started-IsOwned transferers threads slot job free busy own =
    let (was, now) = available-is_ready transferers slot free in
    (
      (
        now,
        All-imp (λ (t : Thread). is_ready transferers t.slot ≡ false)
            (λ (t : Thread). is_ready (set_ready slot false transferers) t.slot ≡ false)
            (λ t h. set_false-is_ready transferers slot t.slot h) threads busy,
      ),
      (
        All-imp (λ (t : Thread). is_ready transferers t.slot ≡ false)
            (λ (t : Thread). (slot == t.slot) ≡ false)
            (λ t h. different slot t.slot transferers was h) threads busy,
        own,
      ),
    )
  where
    different :
        (a b : ℕ) (transferers : List Bool)
        → is_ready transferers a ≡ true
        → is_ready transferers b ≡ false
        → (a == b) ≡ false
    different a b transferers h k = elim (Bool-cases (a == b)) [
      | inl same ↦
          let e = (==_iff a b).0 same in
          let k' : is_ready transferers a ≡ false =
            subst (λ n. is_ready transferers n ≡ false) (sym e) k in
          let bad : false ≡ true = sym k' ∙ h in cc
      | inr other ↦ other
    ]

-- What is left when the thread in a slot ends.
ended_busy :
    (transferers : List Bool) (slot : ℕ) (threads : List Thread)
    → All (λ (t : Thread). is_ready transferers t.slot ≡ false) threads
    → All
        (λ (t : Thread). is_ready (set_ready slot true transferers) t.slot ≡ false)
        (remove_where (in_slot slot) threads)
unfolding remove_where
ended_busy transferers slot [] h = tt
ended_busy transferers slot (t ∷ threads) h = elim (Bool-cases (t.slot == slot)) [
  | inl hit ↦ rw hit (ended_busy transferers slot threads h.1)
  | inr miss ↦ rw miss (
    set_other-is_ready transferers slot t.slot true miss ∙ h.0,
    ended_busy transferers slot threads h.1,
  )
]

start_transfer-IsOwned :
    (limit : Limit) (s t : State)
    → IsOwned s
    → start_transfer limit s (find_available_transferer s.transferers) ≡ some t
    → IsOwned t
unfolding start_upload start_download
start_transfer-IsOwned limit s t o h =
    start_transfer-cases IsOwned limit s
      (λ slot file_id free.
        let (busy, own) =
          started-IsOwned s.transferers s.threads slot (upload_job file_id false) free o.busy
            o.own in
        record { busy = busy; own = own })
      (λ slot subscription free found.
        let (busy, own) =
          started-IsOwned s.transferers s.threads slot
            (download_job subscription.address subscription.file_id) free o.busy o.own in
        record { busy = busy; own = own })
      t h

subscribe_to-IsOwned :
    (file_id owner : ℕ) (s : State) (found : Option Subscription)
    → IsOwned s
    → IsOwned (subscribe_to file_id owner s found)
unfolding subscribe_to
subscribe_to-IsOwned file_id owner s none o = record { busy = o.busy; own = o.own }
subscribe_to-IsOwned file_id owner s (some found) o = record { busy = o.busy; own = o.own }

finish_download-IsOwned :
    (s : State) (slot address file_id : ℕ) (status : Bool)
    → IsOwned s
    → IsOwned (finish_download slot address file_id status s)
unfolding finish_download
finish_download-IsOwned s slot address file_id false o = record {
  busy =
      All-remove (λ (t : Thread). is_ready s.transferers t.slot ≡ false) (in_slot slot) s.threads
        o.busy;
  own = Distinct-remove same_slot (in_slot slot) s.threads o.own;
}
finish_download-IsOwned s slot address file_id true o = record {
  busy = ended_busy s.transferers slot s.threads o.busy;
  own = Distinct-remove same_slot (in_slot slot) s.threads o.own;
}

begin_upload_of-IsOwned :
    (s : State) (slot : ℕ) (pending : Option Upload)
    → IsOwned s
    → IsOwned (begin_upload_of slot s pending)
unfolding begin_upload_of
begin_upload_of-IsOwned s slot none o = record {
  busy =
      All-remove (λ (t : Thread). is_ready s.transferers t.slot ≡ false) (in_slot slot) s.threads
        o.busy;
  own = Distinct-remove same_slot (in_slot slot) s.threads o.own;
}
begin_upload_of-IsOwned s slot (some pending) o =
    let f = λ (t : Thread). record t { job = mark_pending t.job } in
    record {
      busy =
          All-update (λ (t : Thread). is_ready s.transferers t.slot ≡ false) (in_slot slot) f
            (λ t k. k) s.threads o.busy;
      own = Distinct-update same_slot (in_slot slot) f (λ a b. refl) (λ a b. refl) s.threads o.own;
    }

finish_upload-IsOwned :
    (s : State) (slot file_id : ℕ) (status : Bool)
    → IsOwned s
    → IsOwned (finish_upload slot file_id status s)
unfolding finish_upload
finish_upload-IsOwned s slot file_id false o = record {
  busy =
      All-remove (λ (t : Thread). is_ready s.transferers t.slot ≡ false) (in_slot slot) s.threads
        o.busy;
  own = Distinct-remove same_slot (in_slot slot) s.threads o.own;
}
finish_upload-IsOwned s slot file_id true o = record {
  busy = ended_busy s.transferers slot s.threads o.busy;
  own = Distinct-remove same_slot (in_slot slot) s.threads o.own;
}

Step-IsOwned :
    (limit : Limit) (limit_upload : List UploadRow → Option UploadRow) (s t : State)
    → Step limit limit_upload s t
    → IsOwned s
    → IsOwned t
unfolding receive_download unsubscribe_from_download free_subscription begin_upload
Step-IsOwned limit limit_upload s _ (receives file_id owner) o =
    subscribe_to-IsOwned file_id owner s (find_in_download_queue file_id s.download_queue) o
Step-IsOwned limit limit_upload s t (starts h) o = start_transfer-IsOwned limit s t o h
Step-IsOwned limit limit_upload s _ (ends_download slot address file_id status runs) o =
    finish_download-IsOwned s slot address file_id status o
Step-IsOwned limit limit_upload s _ (begins_upload slot file_id runs) o =
    begin_upload_of-IsOwned s slot (query_get_upload limit_upload file_id s.db) o
Step-IsOwned limit limit_upload s _ (ends_upload slot file_id status runs) o =
    finish_upload-IsOwned s slot file_id status o
Step-IsOwned limit limit_upload s _ (unsubscribes address) o = record { busy = o.busy; own = o.own }
Step-IsOwned limit limit_upload s _ (frees address) o = record { busy = o.busy; own = o.own }
Step-IsOwned limit limit_upload s _ (executes statement) o = record { busy = o.busy; own = o.own }

-- In every state that is reached from one in which it holds, such as the initial one, each thread that transfers a file has a
-- transferer that is not ready for another transfer, and no two threads have the same one.
pub Steps-IsOwned :
    (limit : Limit) (limit_upload : List UploadRow → Option UploadRow) (s t : State)
    → Steps limit limit_upload s t
    → IsOwned s
    → IsOwned t
Steps-IsOwned limit limit_upload s _ start o = o
Steps-IsOwned limit limit_upload s u (later {t} path step) o =
    Step-IsOwned limit limit_upload t u step (Steps-IsOwned limit limit_upload s t path o)
