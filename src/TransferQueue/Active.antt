-- ===== src/TransferQueue/Active.antt =====
-- The active downloads in the queue of src/downloadqueue.c, when one is started and when one ends.
use aws_s3fs.Common.{
  ℕ, ◌≡◌, refl, sym, ◌∙◌, arith, Bool, true, false, none, some, List, [], ◌∷◌, ==_iff, ◌==◌, All,
  Bool-cases, inl, inr,
}
use mathlib.Core.Path.{subst}
use aws_s3fs.CacheDb.Rows.{exists_row, update_where, last_where}
use aws_s3fs.Common.{if◌then◌else◌, ◌&&◌, ◌++◌, ◌<◌}
use aws_s3fs.CacheDb.Rows.{remove_where, Distinct}
use aws_s3fs.CacheDb.RowLaws.{All-imp, All-remove}
use aws_s3fs.TransferQueue.State.{
  Job, Subscription, download_job, upload_job, Thread, State, start_upload, start_download, in_slot,
}
use aws_s3fs.TransferQueue.State.{get_subscription_from_download_queue, at_address}
use aws_s3fs.CacheDb.RowLaws.{
  Distinct-update, All-update, exists-false, exists-remove, last-some, last-skip, or_some, some_if,
}
use aws_s3fs.TransferQueue.Queue.{
  same_file, same_address, same_job, same_download, is_active, IsSingle, chosen-All, chosen_idle,
  none_exists,
}

exists_mono :
    (q p : Subscription → Bool) (f : Subscription → Subscription)
    → ((x : Subscription) → q x ≡ true → q (f x) ≡ true)
    → (queue : List Subscription) → exists_row q queue ≡ true
    → exists_row q (update_where p f queue) ≡ true
unfolding exists_row update_where
exists_mono q p f keep [] h = h
exists_mono q p f keep (x ∷ queue) h = elim (Bool-cases (q x)) [
  | inl here ↦ elim (Bool-cases (p x)) [
    | inl hit ↦ rw (hit, keep x here) refl
    | inr miss ↦ rw (miss, here) refl
  ]
  | inr absent ↦
      let later = exists_mono q p f keep queue (ground (arith, h, absent)) in ground (arith, later)
]

pub exists-append :
    (q : Subscription → Bool) (queue rest : List Subscription)
    → exists_row q queue ≡ true
    → exists_row q (queue ++ rest) ≡ true
unfolding exists_row
exists-append q [] rest h = absurd (ground (arith, h))
exists-append q (x ∷ queue) rest h = elim (Bool-cases (q x)) [
  | inl here ↦ rw here refl
  | inr absent ↦
      let later = exists-append q queue rest (ground (arith, h, absent)) in ground (arith, later)
]

chosen_there :
    (queue : List Subscription) (chosen : Subscription)
    → get_subscription_from_download_queue queue ≡ some chosen
    → exists_row (at_address chosen.address) queue ≡ true
chosen_there queue chosen h = elim (Bool-cases (exists_row (at_address chosen.address) queue)) [
  | inl there ↦ there
  | inr absent ↦
      let other =
        chosen-All (λ (x : Subscription). (x.address == chosen.address) ≡ false) queue chosen h
          (exists-false (at_address chosen.address) queue absent) in
      absurd (ground (arith, other))
]

-- The subscriptions at an address, marked as active.
abbrev activate : Subscription → Subscription
activate x = record x { download_active = true }

activated :
    (address : ℕ) (queue : List Subscription)
    → exists_row (at_address address) queue ≡ true
    → exists_row
        (λ (x : Subscription). x.address == address && x.download_active)
        (update_where (at_address address) activate queue)
      ≡ true
unfolding exists_row update_where
activated address [] h = h
activated address (x ∷ queue) h = elim (Bool-cases (x.address == address)) [
  | inl hit ↦ rw (hit, hit) refl
  | inr miss ↦
      let later = activated address queue (ground (arith, h, miss)) in ground (arith, later)
]

is_active-activate :
    (address : ℕ) (queue : List Subscription) (job : Job)
    → is_active queue job ≡ true
    → is_active (update_where (at_address address) activate queue) job ≡ true
is_active-activate address queue (upload_job f p) h = refl
is_active-activate address queue (download_job b f) h =
    exists_mono (λ (x : Subscription). x.address == b && x.download_active) (at_address address)
      activate (λ x k. ground (arith, k)) queue h

job_differs :
    (queue : List Subscription) (chosen : Subscription)
    → get_subscription_from_download_queue queue ≡ some chosen
    → Distinct same_address queue
    → (job : Job) → is_active queue job ≡ true
    → same_job (download_job chosen.address chosen.file_id) job ≡ false
job_differs queue chosen h d (upload_job f p) k = refl
job_differs queue chosen h d (download_job b f) k = elim (Bool-cases (chosen.address == b)) [
  | inl same ↦
      let idle =
        subst (λ n. is_active queue (download_job n f) ≡ false) ((==_iff chosen.address b).0 same)
          (chosen_idle queue chosen f h d) in
      let bad : false ≡ true = sym idle ∙ k in cc
  | inr other ↦ other
]

same_job-sym : (a b : Job) → same_job a b ≡ false → same_job b a ≡ false
same_job-sym (download_job a f) (download_job b g) h = ground (arith, h)
same_job-sym (download_job a f) (upload_job g q) h = refl
same_job-sym (upload_job f p) (download_job b g) h = refl
same_job-sym (upload_job f p) (upload_job g q) h = refl

-- The threads that are left when one ends work on other subscriptions.
pub others_differ :
    (slot : ℕ) (threads : List Thread) (x : Thread)
    → Distinct same_download threads
    → last_where (in_slot slot) threads ≡ some x
    → All (λ t. same_download x t ≡ false) (remove_where (in_slot slot) threads)
unfolding remove_where
others_differ slot [] x d h = tt
others_differ slot (t ∷ threads) x d h = elim (Bool-cases (t.slot == slot)) [
  | inl hit ↦
      elim (or_some (last_where (in_slot slot) threads) (if t.slot == slot then some t else none) x
        (unfold last_where in h)) [
          | inl later ↦ rw hit (others_differ slot threads x d.1 later)
          | inr (nothing, here) ↦
              let same = (some_if (t.slot == slot) t x here).1 in
              rw hit (
                All-remove (λ other. same_download x other ≡ false) (in_slot slot) threads
                  (subst (λ y. All (λ other. same_download y other ≡ false) threads) same d.0))
        ]
  | inr miss ↦
      let later = sym (last-skip (in_slot slot) t threads miss) ∙ h in
      let apart =
        (last-some (λ y. same_download t y ≡ false) (in_slot slot) threads x later d.0).1 in
      rw miss (same_job-sym t.job x.job apart, others_differ slot threads x d.1 later)
]

All-any : {A : Type 0} (P : A → Type 0) → ((a : A) → P a) → (rows : List A) → All P rows
All-any P f [] = tt
All-any P f (a ∷ rows) = (f a, All-any P f rows)

pub still_active :
    (address f : ℕ) (queue : List Subscription) (job : Job)
    → same_job (download_job address f) job ≡ false
    → is_active queue job ≡ true
    → is_active (remove_where (at_address address) queue) job ≡ true
still_active address f queue (upload_job g q) differs h = refl
still_active address f queue (download_job b g) differs h =
    exists-remove (λ (x : Subscription). x.address == b && x.download_active) (at_address address)
      queue h
      (none_exists
        (λ (x : Subscription). x.address == address && (x.address == b && x.download_active)) queue
        (All-any
          (λ (x : Subscription).
            (x.address == address && (x.address == b && x.download_active)) ≡ false)
          (λ x. ground (arith, differs)) queue))

pub start_download-IsSingle :
    (s : State) (slot : ℕ) (chosen : Subscription)
    → get_subscription_from_download_queue s.download_queue ≡ some chosen
    → IsSingle s
    → IsSingle (start_download slot chosen s)
unfolding start_download
start_download-IsSingle s slot chosen h i =
    let p = at_address chosen.address in
    record {
      files =
          Distinct-update same_file p activate (λ a b. refl) (λ a b. refl) s.download_queue i.files;
      addresses =
          Distinct-update same_address p activate (λ a b. refl) (λ a b. refl) s.download_queue
            i.addresses;
      below =
          All-update (λ (x : Subscription). x.address < s.next_address) p activate (λ x k. k)
            s.download_queue i.below;
      active = (
        activated chosen.address s.download_queue (chosen_there s.download_queue chosen h),
        All-imp (λ (t : Thread). is_active s.download_queue t.job ≡ true)
            (λ (t : Thread). is_active (update_where p activate s.download_queue) t.job ≡ true)
            (λ t k. is_active-activate chosen.address s.download_queue t.job k) s.threads i.active,
      );
      single = (
        All-imp (λ (t : Thread). is_active s.download_queue t.job ≡ true)
            (λ (t : Thread). same_job (download_job chosen.address chosen.file_id) t.job ≡ false)
            (λ t k. job_differs s.download_queue chosen h i.addresses t.job k) s.threads i.active,
        i.single,
      );
    }

pub start_upload-IsSingle :
    (s : State) (slot file_id : ℕ) → IsSingle s → IsSingle (start_upload slot file_id s)
unfolding start_upload
start_upload-IsSingle s slot file_id i = record {
  files = i.files;
  addresses = i.addresses;
  below = i.below;
  active = (refl, i.active);
  single = (
    All-any (λ (t : Thread). same_job (upload_job file_id false) t.job ≡ false) (λ t. refl)
        s.threads,
    i.single,
  );
}
