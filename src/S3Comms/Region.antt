-- ===== src/S3Comms/Region.antt =====
-- `GetS3HostNameByRegion` of src/s3comms.c, with the regions of src/s3comms.h.
use aws_s3fs.Common.{ℕ, ◌+◌, Bool, true, false, List, [], ◌∷◌, ◌++◌, length, ◌==◌, if◌then◌else◌}
use aws_s3fs.Base64.Encode.{codes}

pub data BucketRegions : Type 0 where
  us_standard oregon northern_california ireland singapore tokyo sao_paulo : BucketRegions

-- `amazonHost`
unfoldable pub amazon_host : BucketRegions → List ℕ
amazon_host us_standard = codes "s3"
amazon_host oregon = codes "s3-us-west-2"
amazon_host northern_california = codes "s3-us-west-1"
amazon_host ireland = codes "s3-eu-west-1"
amazon_host singapore = codes "s3-ap-southeast-1"
amazon_host tokyo = codes "s3-ap-northeast-1"
amazon_host sao_paulo = codes "s3-sa-east-1"

-- `region == US_STANDARD`
abbrev pub is_us_standard : BucketRegions → Bool
is_us_standard us_standard = true
is_us_standard _ = false

-- `toAlloc`
unfoldable pub hostname_room : List ℕ → ℕ
hostname_room bucket =
    length (codes "s3-ap-southeast-1") + length (codes "..amazonaws.com") + length bucket + 1

unfoldable pub get_s3_host_name_by_region : BucketRegions → List ℕ → List ℕ
get_s3_host_name_by_region region bucket =
    if is_us_standard region
    then codes "s3.amazonaws.com"
    else bucket ++ (codes "." ++ (amazon_host region ++ codes ".amazonaws.com"))

-- `url` and `urlLength` of `s3_SubmitS3Request`
unfoldable pub leading_slash : List ℕ → List ℕ
leading_slash [] = codes "/"
leading_slash (ch ∷ filename) = if ch == b'/' then [] else codes "/"

unfoldable pub request_url : BucketRegions → List ℕ → List ℕ → List ℕ
request_url region bucket filename =
    let host_name = get_s3_host_name_by_region region bucket in
    if is_us_standard region
    then codes "https://"
      ++ (host_name ++ (codes "/" ++ (bucket ++ (leading_slash filename ++ filename))))
    else codes "https://" ++ (host_name ++ (leading_slash filename ++ filename))

unfoldable pub url_length : BucketRegions → List ℕ → List ℕ → ℕ
url_length region bucket filename =
    length (get_s3_host_name_by_region region bucket)
    + length (codes "https://")
    + (length bucket + 1)
    + length filename
    + 1
    + 1
