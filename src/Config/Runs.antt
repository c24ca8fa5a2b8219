-- ===== src/Config/Runs.antt =====
-- Runs of `ConfigSetKey`.
use aws_s3fs.Common.{ℕ, ◌≡◌, refl, true, false, none, some, List}
use aws_s3fs.Base64.Encode.{codes}
use aws_s3fs.Config.Keys.{read_key, next_key, extract_key, set_secret_key, config_set_key}
use aws_s3fs.Config.KeysRun.{config_set_key-pair}

two_keys : config_set_key (some (codes " ID :\t: SECRET ")) false ≡ record {
  key_id = some (codes "ID");
  secret_key = some (codes "SECRET");
  config_error = false;
}
unfolding config_set_key set_secret_key extract_key read_key next_key
two_keys = refl

one_key :
    config_set_key (some (codes "ID:")) false
    ≡ record { key_id = some (codes "ID"); secret_key = some (codes "*"); config_error = true }
unfolding config_set_key set_secret_key extract_key read_key next_key
one_key = refl

no_key :
    config_set_key none false
    ≡ record { key_id = none; secret_key = some (codes "*"); config_error = true }
unfolding config_set_key set_secret_key extract_key
no_key = refl

abbrev secret : List ℕ
secret = codes "KEY"

config_set_key-pair_example :
    config_set_key (some (codes "ID : SKEY")) false
    ≡ record { key_id = some (codes "ID"); secret_key = some (codes "SKEY"); config_error = false }
config_set_key-pair_example =
    config_set_key-pair (codes "ID") (codes " ") (codes " ") b'S' secret false
      ((refl, refl), ((refl, refl), tt)) (refl, tt) (refl, tt)
      ((refl, refl), ((refl, refl), ((refl, refl), ((refl, refl), tt))))
