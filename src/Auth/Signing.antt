-- ===== src/Auth/Signing.antt =====
-- src/auth/signing.rs on Unix: the key pair from files, or a new one that is saved. The file system is
-- a map from paths to files; a call on it may fail, and then changes nothing. An error is its text.
pub mod Files
pub mod Restart
pub mod Tests
use Prim.Native.String.{◌++◌ as concat}
use jwt_exchange.Prelude.{
  ℕ, ◌%◌, String, Bool, true, false, not, ◌&&◌, Option, none, some, is_some, ◌==◌, if◌then◌else◌,
}
use jwt_exchange.Result.{Result, ok, err, map_err}
use jwt_exchange.Task.{Task, lift, ◌>>=◌}
use jwt_exchange.Maps.{Map, lookup, insert}
use jwt_exchange.Config.{RsaSource, load, auto_generate, missing_keys}

pub record File : Type 0 where
  pub content : String
  pub mode : ℕ

abbrev pub Files : Type 0
Files = Map File

-- What the calls on the file system do beside their effect: the fault of each on a path, the mode
-- of a new file, and `Path::join`.
pub record Disk : Type 0 where
  pub read_fault : String → Option String
  pub write_fault : String → Option String
  pub stat_fault : String → Option String
  pub chmod_fault : String → Option String
  pub mkdir_fault : String → Option String
  pub fresh_mode : ℕ
  pub join : String → String → String

-- What rcgen and jsonwebtoken make: a new private key, the certificate for one, and the key to sign
-- with from a private key.
pub record Rsa : Type 1 where
  pub EncodingKey : Type 0
  pub generated : Result String String
  pub self_signed : String → Result String String
  pub from_rsa_pem : String → Result EncodingKey String

pub record KeyPairResult (EncodingKey : Type 0) : Type 0 where
  pub encoding_key : EncodingKey
  pub public_cert_pem : String

-- 0o600
abbrev pub owner_only : ℕ
owner_only = 384

abbrev pub no_such_file : String
no_such_file = "No such file or directory (os error 2)"

-- A call that has a fault, or else what it answers for a file that is there.
abbrev on_file {ℓ} : {A : Type ℓ} → Option String → Option File → (File → A) → Result A String
on_file (some e) o f = err e
on_file none none f = err no_such_file
on_file none (some file) f = ok (f file)

-- `std::fs::read_to_string`
unfoldable pub read_to_string : Disk → String → Files → Result String String
read_to_string d path fs = on_file (d.read_fault path) (lookup path fs) (λ f. f.content)

abbrev mode_of : Option File → ℕ → ℕ
mode_of none fresh = fresh
mode_of (some f) fresh = f.mode

-- `std::fs::write`: a file that is there keeps its mode.
unfoldable pub write : Disk → String → String → Task Files String (Unit {0})
write d path text fs = elim (d.write_fault path) [
  | some e ↦ (err e, fs)
  | none ↦ (
    ok tt,
    insert path (record { content = text; mode = mode_of (lookup path fs) d.fresh_mode }) fs,
  )
]

-- `mode() & 0o777`
unfoldable pub check_file_permissions : Disk → String → Files → Result ℕ String
check_file_permissions d path fs = on_file (d.stat_fault path) (lookup path fs) (λ f. f.mode % 512)

abbrev changed : Result File String → String → ℕ → Files → Result (Unit {0}) String × Files
changed (err e) path mode fs = (err e, fs)
changed (ok f) path mode fs = (ok tt, insert path (record f { mode = mode }) fs)

-- `Path::exists`: also false where the metadata cannot be read.
unfoldable pub exists : Disk → String → Files → Bool
exists d path fs = elim (d.stat_fault path) [ some e ↦ false | none ↦ is_some (lookup path fs) ]

-- `set_file_permissions`: its two calls have one fault here.
unfoldable pub set_file_permissions : Disk → String → ℕ → Task Files String (Unit {0})
set_file_permissions d path mode fs =
    changed (on_file (d.chmod_fault path) (lookup path fs) (λ f. f)) path mode fs

abbrev fixed : Result ℕ String → Disk → String → Files → Files
fixed (err e) d path fs = fs
fixed (ok mode) d path fs =
    if not (mode == owner_only) then (set_file_permissions d path owner_only fs).1 else fs

unfoldable pub fix_key_permissions : Disk → String → Files → Files
fix_key_permissions d path fs = fixed (check_file_permissions d path fs) d path fs

-- The text of an error, with the path that it is about.
abbrev told : String → String → String → String
told what path e = concat what (concat path (concat "': " e))

abbrev saved : String → String → Task Files String (Unit {0}) → Task Files String (Unit {0})
saved what path task fs = let (r, t) = task fs in (map_err (told what path) r, t)

module _ (R : Rsa) where
  open R use {EncodingKey, generated, self_signed, from_rsa_pem}

  unfoldable pub load_key_pair :
      Disk → String → String → Task Files String (KeyPairResult EncodingKey)
  load_key_pair d private_key_path public_cert_path fs =
      (do
        private_key_pem ← lift (
            map_err (told "failed to read private key '" private_key_path)
              (read_to_string d private_key_path fs))
        public_cert_pem ← lift (
            map_err (told "failed to read public certificate '" public_cert_path)
              (read_to_string d public_cert_path fs))
        encoding_key ←
            lift (
              map_err (λ e. concat "invalid RSA private key PEM: " e)
                (from_rsa_pem private_key_pem))
        lift (ok (record { encoding_key = encoding_key; public_cert_pem = public_cert_pem })))
        fs

  -- What is done once there is a private key and its certificate.
  unfoldable pub save_key_pair :
      Disk
      → String
      → String
      → (private_key_pem cert_pem : String) → Task Files String (KeyPairResult EncodingKey)
  save_key_pair d private_key_path public_cert_path private_key_pem cert_pem = do
    _ ←
        saved "failed to write private key '" private_key_path
          (write d private_key_path private_key_pem)
    _ ← set_file_permissions d private_key_path owner_only
    _ ←
        saved "failed to write public certificate '" public_cert_path
          (write d public_cert_path cert_pem)
    encoding_key ←
        lift
          (map_err (λ e. concat "failed to create encoding key: " e) (from_rsa_pem private_key_pem))
    lift (ok (record { encoding_key = encoding_key; public_cert_pem = cert_pem }))

  unfoldable pub generate_and_save_key_pair :
      Disk → String → String → Task Files String (KeyPairResult EncodingKey)
  generate_and_save_key_pair d private_key_path public_cert_path = do
    private_key_pem ← lift (map_err (λ e. concat "failed to generate RSA key pair: " e) generated)
    cert_pem ← lift (
        map_err (λ e. concat "failed to create self-signed certificate: " e)
          (self_signed private_key_pem))
    save_key_pair d private_key_path public_cert_path private_key_pem cert_pem

  -- The private key's mode is fixed before the pair is loaded.
  unfoldable pub load_fixed : Disk → String → String → Task Files String (KeyPairResult EncodingKey)
  unfolding fix_key_permissions
  load_fixed d pk cert fs = load_key_pair d pk cert (fix_key_permissions d pk fs)

  abbrev pub made : Disk → String → Result (Unit {0}) String
  made d directory = elim (d.mkdir_fault directory) [ none ↦ ok tt | some e ↦ err e ]

  unfoldable pub resolve_key_pair : Disk → RsaSource → Task Files String (KeyPairResult EncodingKey)
  resolve_key_pair d missing_keys fs = (
    err
        "RSA key configuration missing. Provide either: (a) RSA_PRIVATE_KEY_PATH + RSA_PUBLIC_CERT_PATH, or (b) RSA_KEY_PATH (directory for auto-generated keys)",
    fs,
  )
  resolve_key_pair d (load private_key public_cert) fs = load_fixed d private_key public_cert fs
  resolve_key_pair d (auto_generate directory) fs =
      let pk = d.join directory "private.pem" in
      let cert = d.join directory "public.pem" in
      let generate = (do _ ← lift (made d directory); generate_and_save_key_pair d pk cert) in
      if exists d pk fs && exists d cert fs then load_fixed d pk cert fs else generate fs
