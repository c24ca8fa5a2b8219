-- ===== src/S3Comms/SubmitRun.antt =====
-- What `s3_SubmitS3Request` of src/s3comms.c returns for a `GET`.
use aws_s3fs.Common.{ℕ, ◌≡◌, ◌↔◌, ◌<◌, refl, arith, none, some, List}
use aws_s3fs.Base64.Encode.{codes}
use aws_s3fs.S3Comms.Region.{get_s3_host_name_by_region, request_url}
use aws_s3fs.S3Comms.Status.{success, success_iff}
use aws_s3fs.S3Comms.CallbacksRun.{receive}
use aws_s3fs.S3Comms.Request.{
  S3Comm, CurlRequest, CurlAnswer, received_body, build_s3_request, same_string, receive_answer,
  submit_status, submit_s3_request,
}

submit_status-success :
    (answer : CurlAnswer)
    → (submit_status answer ≡ success) ↔ ((answer.curl_status ≡ 0) × (answer.http_status < 300))
unfolding submit_status
submit_status-success answer =
    let (to, from) = success_iff answer.http_status in ground (arith, to, from)

module _ (perform : CurlRequest → CurlAnswer) (instance_ : S3Comm) (date : List ℕ)
    (headers : List (List ℕ)) (filename stack : List ℕ) (signed : List (List ℕ)) where
  -- libcurl's answer to the request with the signed headers.
  abbrev get_answer : CurlAnswer
  get_answer = perform (record {
    verb = codes "GET";
    url = request_url instance_.region instance_.bucket filename;
    headers = signed;
  })

  -- When the headers could be built and signed, a `GET` returns the blocks of the body as received, and its
  -- status is a success exactly when libcurl succeeds with an HTTP status below 300.
  submit_s3_request-get :
      build_s3_request instance_
          (codes "GET")
          (get_s3_host_name_by_region instance_.region instance_.bucket)
          date
          headers
          filename
          stack
        ≡ some signed
      → (submit_s3_request perform instance_ (codes "GET") date headers filename stack
          ≡ some (
            submit_status get_answer,
            received_body (receive (record { written = none; size = 0 }) get_answer.body),
          ))
        × ((submit_status get_answer ≡ success)
            ↔ ((get_answer.curl_status ≡ 0) × (get_answer.http_status < 300)))
  unfolding submit_s3_request receive_answer same_string
  submit_s3_request-get built = (rw built refl, submit_status-success get_answer)
