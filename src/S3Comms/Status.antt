-- ===== src/S3Comms/Status.antt =====
-- `ConvertHttpStatusToErrno` of src/s3comms.c. A result `-E` is the name of the error, 0 is `success`.
use aws_s3fs.Common.{
  ℕ, ◌≡◌, ◌≤◌, ◌<◌, ◌↔◌, ◌⊎◌, refl, arith, ◌&&◌, ◌||◌, leb, ltb, ◌==◌, if◌then◌else◌,
}

pub data Errno : Type 0 where
  success enoent eacces ebadmsg einprogress eio enetreset enotsup enetunreach etimedout : Errno

unfoldable pub client_error : ℕ → Errno
client_error http_status =
    if http_status == 404 || http_status == 410
    then enoent
    else (if http_status == 401
          || (http_status == 403
              || (http_status == 402 || (http_status == 407 || http_status == 408)))
        then eacces
        else (if http_status == 400 || (http_status == 405 || http_status == 406)
            then ebadmsg
            else (if http_status == 409 then einprogress else eio)))

unfoldable pub server_error : ℕ → Errno
server_error http_status =
    if http_status == 500
    then enetreset
    else (if http_status == 501 || http_status == 505
        then enotsup
        else (if http_status == 502 || http_status == 503
            then enetunreach
            else (if http_status == 504 then etimedout else eio)))

unfoldable pub convert_http_status_to_errno : ℕ → Errno
convert_http_status_to_errno http_status =
    if leb http_status 299
    then success
    else (if leb 300 http_status && leb http_status 399
        then enoent
        else (if ltb 400 http_status && leb http_status 499
            then client_error http_status
            else (if leb 500 http_status && leb http_status 599
                then server_error http_status
                else eio)))

-- An HTTP status is converted to success exactly when it is below 300.
pub success_iff : (s : ℕ) → (convert_http_status_to_errno s ≡ success) ↔ (s < 300)
unfolding convert_http_status_to_errno client_error server_error
success_iff s = ground arith

-- `ENOENT` is the result exactly of a redirection (300 to 399), of 404 and of 410.
enoent_iff :
    (s : ℕ)
    → (convert_http_status_to_errno s ≡ enoent)
      ↔ (((300 ≤ s) × (s < 400)) ⊎ ((s ≡ 404) ⊎ (s ≡ 410)))
unfolding convert_http_status_to_errno client_error server_error
enoent_iff s = ground arith

-- `EBADMSG` is the result exactly of 405 and 406, and so not of 400 (Bad Request).
pub ebadmsg_iff : (s : ℕ) → (convert_http_status_to_errno s ≡ ebadmsg) ↔ ((s ≡ 405) ⊎ (s ≡ 406))
unfolding convert_http_status_to_errno client_error server_error
ebadmsg_iff s = ground arith

bad_request : convert_http_status_to_errno 400 ≡ eio
unfolding convert_http_status_to_errno client_error server_error
bad_request = refl
