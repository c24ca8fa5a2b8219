-- ===== src/TransferQueue/Filling.antt =====
-- The loop of `ProcessTransferQueues` of src/downloadqueue.c that fills the transferers.
use aws_s3fs.Common.{
  ℕ, zero, suc, ◌+◌, ◌≡◌, ◌≢◌, ◌<◌, ◌⊎◌, refl, sym, ap, ◌∙◌, arith, Bool, true, false, Option, none,
  All, some, List, [], ◌∷◌, ◌==◌, Bool-cases, inl, inr, Option-cases,
}
use mathlib.Core.Option.{none-ne-some}
use aws_s3fs.CacheDb.Rows.{count_where}
use aws_s3fs.CacheDb.Uploads.{query_find_pending_upload}
use aws_s3fs.TransferQueue.State.{
  Subscription, download_job, upload_job, Thread, State, Limit, next_slot,
  find_available_transferer, get_subscription_from_download_queue, start_upload, start_download,
  start_download_if, start_transfer,
}
use aws_s3fs.TransferQueue.State.{fill_next, fill_transferers}
use aws_s3fs.TransferQueue.Capacity.{ready, available-ready, start_transfer-cases}

-- Nothing is left to start: no transferer is ready, or no upload is pending and each download is active.
abbrev pub Filled : Limit → State → Type 0
Filled limit t =
    (ready t.transferers ≡ 0)
    ⊎ ((query_find_pending_upload limit t.db ≡ 0)
        × All (λ (s : Subscription). s.download_active ≡ true) t.download_queue)

none-ready :
    (transferers : List Bool) → find_available_transferer transferers ≡ none → ready transferers ≡ 0
unfolding find_available_transferer next_slot count_where
none-ready [] h = refl
none-ready (true ∷ transferers) h = absurd (none-ne-some 0 (sym h))
none-ready (false ∷ transferers) h = elim (Option-cases (find_available_transferer transferers)) [
  | inl nothing ↦ none-ready transferers nothing
  | inr (slot, e) ↦ absurd (none-ne-some (suc slot) (sym h ∙ ap next_slot e))
]

none_waits :
    (queue : List Subscription)
    → get_subscription_from_download_queue queue ≡ none
    → All (λ (s : Subscription). s.download_active ≡ true) queue
unfolding get_subscription_from_download_queue
none_waits [] h = tt
none_waits (s ∷ queue) h = elim (Bool-cases s.download_active) [
  | inl active ↦ (active, none_waits queue (sym (rw active refl) ∙ h))
  | inr waits ↦ absurd (none-ne-some s (sym h ∙ rw waits refl))
]

start_none :
    (slot : ℕ) (s : State) (found : Option Subscription)
    → start_download_if slot s found ≡ none
    → found ≡ none
unfolding start_download_if
start_none slot s none h = refl
start_none slot s (some subscription) h =
    absurd (none-ne-some (start_download slot subscription s) (sym h))

nothing_to_start :
    (limit : Limit) (s : State) (free : Option ℕ)
    → find_available_transferer s.transferers ≡ free
    → start_transfer limit s free ≡ none
    → Filled limit s
unfolding start_transfer
nothing_to_start limit s none free h = inl (none-ready s.transferers free)
nothing_to_start limit s (some slot) free h =
    let file_id = query_find_pending_upload limit s.db in
    elim (Bool-cases (file_id == 0)) [
      | inl none_pending ↦ inr (
        ground (arith, none_pending),
        none_waits s.download_queue (
            start_none slot s (get_subscription_from_download_queue s.download_queue)
              (sym (rw none_pending refl) ∙ h)),
      )
      | inr pending ↦ absurd (none-ne-some (start_upload slot file_id s) (sym h ∙ rw pending refl))
    ]

fewer_ready :
    (limit : Limit) (s t : State)
    → start_transfer limit s (find_available_transferer s.transferers) ≡ some t
    → ready t.transferers + 1 ≡ ready s.transferers
unfolding start_upload start_download
fewer_ready limit s t h =
    start_transfer-cases (λ u. ready u.transferers + 1 ≡ ready s.transferers) limit s
      (λ slot file_id free. available-ready s.transferers slot free)
      (λ slot subscription free found. available-ready s.transferers slot free) t h

-- The loop ends after at most one round more than there are transferers ready, and it does not end before no
-- transferer is ready, or no upload is pending and no download waits.
pub fill_transferers-Filled :
    (fuel : ℕ) (limit : Limit) (s : State)
    → ready s.transferers < fuel
    → (t : State) × (fill_transferers fuel limit s ≡ some t) × Filled limit t
unfolding fill_transferers fill_next
fill_transferers-Filled zero limit s enough = absurd (omega (arith, enough))
fill_transferers-Filled (suc fuel) limit s enough =
    elim (Option-cases (start_transfer limit s (find_available_transferer s.transferers))) [
      | inl done ↦ (
        s,
        ap (fill_next (fill_transferers fuel limit) s) done,
        nothing_to_start limit s (find_available_transferer s.transferers) refl done,
      )
      | inr (next, e) ↦
          let fewer = fewer_ready limit s next e in
          let (t, run, filled) =
            fill_transferers-Filled fuel limit next (omega (arith, enough, fewer)) in
          (t, ap (fill_next (fill_transferers fuel limit) s) e ∙ run, filled)
    ]

abbrev pub uploads_file : ℕ → Thread → Bool
uploads_file file_id thread = elim thread.job [
  | download_job address other ↦ false
  | upload_job other pending ↦ other == file_id
]

-- The state with `count` transferers taken by uploads of one file.
abbrev pub Uploading : ℕ → State → State → Type 0
Uploading file_id s t =
    (ready t.transferers ≡ 0)
    × (t.download_queue ≡ s.download_queue)
    × (count_where (uploads_file file_id) t.threads
        ≡ count_where (uploads_file file_id) s.threads + ready s.transferers)

upload_started :
    (limit : Limit) (s : State) (file_id slot : ℕ)
    → query_find_pending_upload limit s.db ≡ file_id
    → file_id ≢ 0
    → start_transfer limit s (some slot) ≡ some (start_upload slot file_id s)
unfolding start_transfer
upload_started limit s file_id slot found positive =
    let test : (file_id == 0) ≡ false = ground (arith, positive) in rw (found, test) refl

-- While the database has an upload that is found pending, the loop starts that same upload in every transferer that
-- is ready, and no download.
pub fill_transferers-same_upload :
    (fuel file_id : ℕ) (limit : Limit) (s : State)
    → query_find_pending_upload limit s.db ≡ file_id
    → file_id ≢ 0
    → ready s.transferers < fuel
    → (t : State) × (fill_transferers fuel limit s ≡ some t) × Uploading file_id s t
unfolding fill_transferers fill_next start_transfer start_upload count_where
fill_transferers-same_upload zero file_id limit s found positive enough =
    absurd (omega (arith, enough))
fill_transferers-same_upload (suc fuel) file_id limit s found positive enough =
    let again = fill_next (fill_transferers fuel limit) s in
    elim (Option-cases (find_available_transferer s.transferers)) [
      | inl full ↦
          let nothing = none-ready s.transferers full in
          (
            s,
            ap (λ o. again (start_transfer limit s o)) full,
            (nothing, refl, omega (arith, nothing)),
          )
      | inr (slot, free) ↦
          let next = start_upload slot file_id s in
          let one = available-ready s.transferers slot free in
          let (t, run, (all, queue, more)) =
            fill_transferers-same_upload fuel file_id limit next found positive
              (omega (arith, one, enough)) in
          let same : (file_id == file_id) ≡ true = ground arith in
          let first : count_where (uploads_file file_id) next.threads
              ≡ 1 + count_where (uploads_file file_id) s.threads =
            rw same refl in
          (
            t,
            ap (λ o. again (start_transfer limit s o)) free
                ∙ (ap again (upload_started limit s file_id slot found positive) ∙ run),
            (all, queue, omega (arith, more, one, first)),
          )
    ]
