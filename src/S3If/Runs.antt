-- ===== src/S3If/Runs.antt =====
-- The theorems on the paths of src/s3if.c at concrete inputs.
use aws_s3fs.Common.{◌≡◌, refl, arith, false}
use aws_s3fs.Base64.Encode.{codes}
use aws_s3fs.S3If.Path.{clean_loop}
use aws_s3fs.S3If.Url.{encode_url}
use aws_s3fs.S3If.UrlRun.{decode_url, decode_url-encode_url}
use aws_s3fs.S3If.CleanRun.{SingleSlashes, squeeze, clean_loop-SingleSlashes}

clean_loop-SingleSlashes_example :
    (clean_loop false false (codes "//a") ≡ squeeze (codes "//a"))
    × SingleSlashes false (clean_loop false false (codes "//a"))
clean_loop-SingleSlashes_example = clean_loop-SingleSlashes (codes "//a") (refl, (refl, (refl, tt)))

decode_url-encode_url_example : decode_url (encode_url (codes "a b&c")) ≡ codes "a b&c"
decode_url-encode_url_example = decode_url-encode_url (codes "a b&c") (omega arith)
