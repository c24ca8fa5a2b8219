-- ===== src/S3Comms/RegionRun.antt =====
-- The host name and the address of a request in the blocks that are allocated for them.
use aws_s3fs.Common.{ℕ, ◌+◌, ◌≤◌, arith, List, [], ◌∷◌, ◌++◌, length, length-append}
use aws_s3fs.Base64.Encode.{codes}
use aws_s3fs.S3Comms.Region.{
  BucketRegions, us_standard, oregon, northern_california, ireland, singapore, tokyo, sao_paulo,
  amazon_host, hostname_room, get_s3_host_name_by_region, leading_slash, request_url, url_length,
}

-- Whatever the region and the bucket, the host name and its terminator fit the block allocated.
hostname_fits :
    (region : BucketRegions) (bucket : List ℕ)
    → length (get_s3_host_name_by_region region bucket) + 1 ≤ hostname_room bucket
unfolding get_s3_host_name_by_region hostname_room amazon_host
hostname_fits us_standard bucket = omega arith
hostname_fits oregon bucket =
    omega (arith, length-append {0} bucket (codes ".s3-us-west-2.amazonaws.com"))
hostname_fits northern_california bucket =
    omega (arith, length-append {0} bucket (codes ".s3-us-west-1.amazonaws.com"))
hostname_fits ireland bucket =
    omega (arith, length-append {0} bucket (codes ".s3-eu-west-1.amazonaws.com"))
hostname_fits singapore bucket =
    omega (arith, length-append {0} bucket (codes ".s3-ap-southeast-1.amazonaws.com"))
hostname_fits tokyo bucket =
    omega (arith, length-append {0} bucket (codes ".s3-ap-northeast-1.amazonaws.com"))
hostname_fits sao_paulo bucket =
    omega (arith, length-append {0} bucket (codes ".s3-sa-east-1.amazonaws.com"))

length-leading_slash : (filename : List ℕ) → length (leading_slash filename) ≤ 1
unfolding leading_slash
length-leading_slash [] = omega arith
length-leading_slash (ch ∷ filename) = ground arith

-- Whatever the region, the bucket and the file's name, the address and its terminator fit the block
-- of `urlLength` bytes.
request_url_fits :
    (region : BucketRegions) (bucket filename : List ℕ)
    → length (request_url region bucket filename) + 1 ≤ url_length region bucket filename
unfolding request_url url_length
request_url_fits region bucket filename =
    let host = get_s3_host_name_by_region region bucket in
    let slash = leading_slash filename in
    let short = length-leading_slash filename in
    let end = length-append {0} slash filename in
    let direct = length-append {0} host (slash ++ filename) in
    let middle = length-append {0} bucket (slash ++ filename) in
    let virtual = length-append {0} host (codes "/" ++ (bucket ++ (slash ++ filename))) in
    ground (arith, short, end, direct, middle, virtual)
