-- ===== src/Auth/Signing/Tests.antt =====
-- A first start and a second one, and the theorems at them.
use Prim.Native.String.{◌++◌ as concat}
use jwt_exchange.Prelude.{String, ◌≡◌, refl, none, [], ◌∷◌}
use jwt_exchange.Result.{ok}
use jwt_exchange.Config.{auto_generate}
use jwt_exchange.Maps.{lookup, insert}
use jwt_exchange.Auth.Signing.{
  Disk, Files, Rsa, KeyPairResult, write, set_file_permissions, save_key_pair,
  generate_and_save_key_pair, exists, resolve_key_pair,
}
use jwt_exchange.Auth.Signing.Restart.{IsSaved, resolve_key_pair_again}

abbrev pub disk : Disk
disk = record {
  read_fault = λ path. none;
  write_fault = λ path. none;
  stat_fault = λ path. none;
  chmod_fault = λ path. none;
  mkdir_fault = λ path. none;
  fresh_mode = 420;
  join = λ dir name. concat dir (concat "/" name);
}

abbrev pub rsa : Rsa
rsa = record {
  EncodingKey = String;
  generated = ok "pem";
  self_signed = λ pem. ok "cert";
  from_rsa_pem = λ pem. ok pem;
}

abbrev pub pair : KeyPairResult String
pair = record { encoding_key = "pem"; public_cert_pem = "cert" }

abbrev pub files : Files
files =
    ("certs/private.pem", record { content = "pem"; mode = 384 })
    ∷ ("certs/public.pem", record { content = "cert"; mode = 420 })
    ∷ []

first_start : resolve_key_pair rsa disk (auto_generate "certs") [] ≡ (ok pair, files)
unfolding resolve_key_pair exists generate_and_save_key_pair save_key_pair write
    set_file_permissions insert lookup
first_start = refl

resolve_key_pair_again_example :
    IsSaved rsa "certs/private.pem" "certs/public.pem" files pair
    × (resolve_key_pair rsa disk (auto_generate "certs") files ≡ (ok pair, files))
unfolding lookup exists
resolve_key_pair_again_example =
    resolve_key_pair_again rsa disk disk "certs" [] files pair refl refl first_start refl refl refl
      refl refl
