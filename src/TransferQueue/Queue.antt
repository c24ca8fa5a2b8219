-- ===== src/TransferQueue/Queue.antt =====
-- The queue of downloads of src/downloadqueue.c: no file is in it twice, and none is downloaded twice at a time.
use aws_s3fs.Common.{and_false}
use aws_s3fs.Common.{
  ℕ, ◌≡◌, refl, sym, ◌∙◌, arith, Bool, true, false, none, some, List, [], ◌∷◌, ◌==◌, All,
  Bool-cases, inl, inr,
}
use mathlib.Core.Path.{subst}
use mathlib.Core.Option.{none-ne-some, some-injective}
use aws_s3fs.CacheDb.Rows.{exists_row}
use aws_s3fs.Common.{◌&&◌, ◌++◌, ◌<◌, All-append}
use aws_s3fs.CacheDb.Rows.{Distinct}
use aws_s3fs.CacheDb.RowLaws.{All-imp}
use aws_s3fs.TransferQueue.State.{
  Job, Subscription, download_job, upload_job, Thread, State, find_in_download_queue,
}
use aws_s3fs.TransferQueue.State.{get_subscription_from_download_queue}

abbrev pub same_file : Subscription → Subscription → Bool
same_file a b = a.file_id == b.file_id

abbrev pub same_address : Subscription → Subscription → Bool
same_address a b = a.address == b.address

-- Two downloads of one subscription.
abbrev pub same_job : Job → Job → Bool
same_job (download_job a f) (download_job b g) = a == b
same_job (download_job a f) (upload_job g q) = false
same_job (upload_job f p) other = false

abbrev pub same_download : Thread → Thread → Bool
same_download a b = same_job a.job b.job

-- The subscription that a job works on is in the queue, and active.
abbrev pub is_active : List Subscription → Job → Bool
is_active queue (upload_job f p) = true
is_active queue (download_job address f) =
    exists_row (λ (s : Subscription). s.address == address && s.download_active) queue

pub record IsSingle (s : State) : Type 0 where
  pub files : Distinct same_file s.download_queue
  pub addresses : Distinct same_address s.download_queue
  pub below : All (λ (x : Subscription). x.address < s.next_address) s.download_queue
  pub active : All (λ (t : Thread). is_active s.download_queue t.job ≡ true) s.threads
  pub single : Distinct same_download s.threads

pub Distinct-last :
    (clash : Subscription → Subscription → Bool) (queue : List Subscription) (new : Subscription)
    → Distinct clash queue
    → All (λ x. clash x new ≡ false) queue
    → Distinct clash (queue ++ (new ∷ []))
Distinct-last clash [] new d h = (tt, tt)
Distinct-last clash (x ∷ queue) new d h = (
  All-append (λ other. clash x other ≡ false) queue (new ∷ []) d.0 (h.0, tt),
  Distinct-last clash queue new d.1 h.1,
)

pub not_found_lem :
    (file_id : ℕ) (queue : List Subscription)
    → find_in_download_queue file_id queue ≡ none
    → All (λ (x : Subscription). (x.file_id == file_id) ≡ false) queue
unfolding find_in_download_queue
not_found_lem file_id [] h = tt
not_found_lem file_id (x ∷ queue) h = elim (Bool-cases (x.file_id == file_id)) [
  | inl hit ↦ absurd (none-ne-some x (sym h ∙ rw hit refl))
  | inr miss ↦ (miss, not_found_lem file_id queue (sym (rw miss refl) ∙ h))
]

-- What is chosen is one of the subscriptions.
pub chosen-All :
    (P : Subscription → Type 0) (queue : List Subscription) (chosen : Subscription)
    → get_subscription_from_download_queue queue ≡ some chosen
    → All P queue
    → P chosen
unfolding get_subscription_from_download_queue
chosen-All P [] chosen h all = absurd (none-ne-some chosen h)
chosen-All P (x ∷ queue) chosen h all = elim (Bool-cases x.download_active) [
  | inl active ↦ chosen-All P queue chosen (sym (rw active refl) ∙ h) all.1
  | inr idle ↦ subst P (some-injective x chosen (sym (rw idle refl) ∙ h)) all.0
]

pub none_exists :
    (p : Subscription → Bool) (queue : List Subscription)
    → All (λ x. p x ≡ false) queue
    → exists_row p queue ≡ false
unfolding exists_row
none_exists p [] h = refl
none_exists p (x ∷ queue) h = rw (h.0, none_exists p queue h.1) refl

-- The subscription that is chosen is not active, nor is another at its address.
pub chosen_idle :
    (queue : List Subscription) (chosen : Subscription) (file_id : ℕ)
    → get_subscription_from_download_queue queue ≡ some chosen
    → Distinct same_address queue
    → is_active queue (download_job chosen.address file_id) ≡ false
unfolding get_subscription_from_download_queue exists_row
chosen_idle [] chosen file_id h d = refl
chosen_idle (x ∷ queue) chosen file_id h d = elim (Bool-cases x.download_active) [
  | inl active ↦
      let later = sym (rw active refl) ∙ h in
      let other = chosen-All (λ y. same_address x y ≡ false) queue chosen later d.0 in
      rw (other, chosen_idle queue chosen file_id later d.1) refl
  | inr idle ↦
      let same = some-injective x chosen (sym (rw idle refl) ∙ h) in
      subst
        (λ (c : Subscription).
          exists_row (λ (s : Subscription). s.address == c.address && s.download_active) (x ∷ queue)
          ≡ false)
        same
        (rw (idle, and_false (x.address == x.address))
          (none_exists (λ (s : Subscription). s.address == x.address && s.download_active) queue
            (All-imp (λ y. same_address x y ≡ false)
              (λ (s : Subscription). (s.address == x.address && s.download_active) ≡ false)
              (λ y n. ground (arith, n)) queue d.0)))
]
