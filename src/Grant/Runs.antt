-- ===== src/Grant/Runs.antt =====
-- Runs of the requests and the copies at concrete inputs.
use aws_s3fs.Common.{
  ℕ, ◌+◌, ◌*◌, ◌-◌, ◌≡◌, ◌≤◌, ◌⊎◌, refl, arith, Option, some, List, [], ◌∷◌, ◌++◌, map, length,
  take, drop, replicate, length-replicate, All,
}
use aws_s3fs.Base64.Encode.{codes, ◌>>=◌}
use aws_s3fs.S3Comms.Header.{has_name}
use aws_s3fs.Grant.Params.{
  number, get_int_parameter, get_file_parameter, skip_symbols, read_name, verify_filename,
}
use aws_s3fs.Grant.Calls.{
  SystemCall, chown, rename, rmdir, grant_publish, behind, dispatch, serve_request,
}
use aws_s3fs.Grant.Requests.{decimal, move_to_shared_cache}
use aws_s3fs.Grant.Copy.{
  preferred_size, part_size, number_of_multiparts, copy_file_chunk, joined_parts,
}
use aws_s3fs.Grant.Confined.{IsCacheName, IsConfined, serve_request-IsConfined}
use aws_s3fs.Grant.Decimal.{get_int_parameter-decimal}
use aws_s3fs.Grant.Exchange.{dispatch-move_to_shared_cache}
use aws_s3fs.Grant.CopyRun.{copy_file_chunk-part}
use aws_s3fs.Grant.Parts.{joined_parts-whole, joined_parts-lost}

abbrev files : List ℕ
files = codes "/cache/files/"

abbrev inprogress : List ℕ
inprogress = codes "/cache/inprogress/"

abbrev parent : List ℕ
parent = codes "dIr3ct"

abbrev name : List ℕ
name = codes "aB3dE9"

parent-IsCacheName : IsCacheName parent
parent-IsCacheName = record { six = refl; plain = refl }

name-IsCacheName : IsCacheName name
name-IsCacheName = record { six = refl; plain = refl }

get_int_parameter-decimal_example :
    get_int_parameter (decimal 1000 ++ (codes ":" ++ name)) ≡ (number 1000, codes ":" ++ name)
get_int_parameter-decimal_example = get_int_parameter-decimal 1000 name (omega arith)

dispatch-move_to_shared_cache_example :
    (move_to_shared_cache parent 0 0 name 1000 100
      >>= (λ (requests : List (List ℕ)). some (map (dispatch files inprogress []) requests)))
    ≡ some (
        some (chown (files ++ parent) 0 0 ∷ [])
        ∷ some (chown (files ++ (parent ++ (codes "/" ++ name))) 1000 100 ∷ [])
        ∷ some (
            rename (inprogress ++ parent) (files ++ parent)
            ∷ rmdir (inprogress ++ parent)
            ∷ rename (inprogress ++ name) (files ++ (parent ++ (codes "/" ++ name)))
            ∷ [])
        ∷ [])
dispatch-move_to_shared_cache_example =
    dispatch-move_to_shared_cache files inprogress [] parent name 0 0 1000 100 parent-IsCacheName
      name-IsCacheName (omega arith) (omega arith) (omega arith) (omega arith)

abbrev request : List ℕ
request = codes "PUBLISH dIr3ct:aB3dE9"

abbrev calls : List SystemCall
calls =
    rename (inprogress ++ parent) (files ++ parent)
    ∷ rmdir (inprogress ++ parent)
    ∷ rename (inprogress ++ name) (files ++ (parent ++ (codes "/" ++ name)))
    ∷ []

served : serve_request files inprogress [] 7 7 request ≡ some (calls, codes "ACK")
unfolding serve_request dispatch has_name grant_publish behind get_file_parameter skip_symbols
    read_name verify_filename
served = refl

serve_request-IsConfined_example :
    All (IsConfined files inprogress) calls × ((◌≡◌ {A = ℕ} 7 7) ⊎ (calls ≡ []))
serve_request-IsConfined_example =
    serve_request-IsConfined files inprogress [] 7 7 request calls (codes "ACK") served

abbrev small : List ℕ
small = codes "contents"

abbrev read_small : ℕ → ℕ → Option (List ℕ)
read_small count offset = some (take count (drop offset small))

inside : (1 - 1) * preferred_size + part_size 1 8 ≤ 8
unfolding part_size number_of_multiparts
inside = omega arith

copy_file_chunk-part_example :
    copy_file_chunk read_small 101 1 8
    ≡ some (take (part_size 1 8) (drop ((1 - 1) * preferred_size) small))
copy_file_chunk-part_example =
    copy_file_chunk-part small read_small (λ c o. refl) 101 1 (omega arith) (omega arith) inside

joined_parts-whole_example : joined_parts read_small 101 (number_of_multiparts 8) 8 ≡ some small
joined_parts-whole_example =
    joined_parts-whole small read_small (λ c o. refl) (omega arith) (omega arith) 101 (omega arith)
      (omega arith)

-- A file of any length, which is not computed.
full : ℕ → List ℕ
full filesize = replicate filesize b'x'

length-full : (filesize : ℕ) → length (full filesize) ≡ filesize
unfolding full
length-full filesize = length-replicate filesize b'x'

abbrev one_part : List ℕ
one_part = full preferred_size

read_full : ℕ → ℕ → Option (List ℕ)
read_full count offset = some (take count (drop offset one_part))

reads_full : (count offset : ℕ) → read_full count offset ≡ some (take count (drop offset one_part))
unfolding read_full
reads_full count offset = refl

joined_parts-lost_example :
    (copy_file_chunk read_full 101 (number_of_multiparts (length one_part)) (length one_part)
      ≡ some [])
    × (joined_parts read_full 101 (number_of_multiparts (length one_part)) (length one_part)
        ≡ some (take (length one_part - preferred_size) one_part))
joined_parts-lost_example =
    let e = length-full preferred_size in
    joined_parts-lost one_part read_full reads_full (omega (arith, e)) (omega (arith, e)) 101
      (omega arith) (omega (arith, e))
