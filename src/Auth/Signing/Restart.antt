-- ===== src/Auth/Signing/Restart.antt =====
-- Starts of the service one after another: `resolve_key_pair` of src/auth/signing.rs.
use mathlib.Core.Path.{subst}
use jwt_exchange.Prelude.{
  ℕ, String, ◌≡◌, refl, sym, ap, ◌∙◌, true, false, ◌&&◌, Option, none, some, arith, str_eq, eq_iff,
}
use jwt_exchange.Result.{Result, ok, map_err, map_err-eq-ok}
use jwt_exchange.Task.{continue-eq-ok, continue-ind}
use jwt_exchange.Maps.{lookup, insert}
use jwt_exchange.Config.{load, auto_generate}
use jwt_exchange.Auth.Signing.{
  File, Files, Disk, Rsa, KeyPairResult, owner_only, read_to_string, write, set_file_permissions,
  fix_key_permissions, saved, load_key_pair, save_key_pair, generate_and_save_key_pair, load_fixed,
  made, resolve_key_pair, exists, mode_of,
}
use jwt_exchange.Auth.Signing.Files.{
  lookup-insert_self, lookup-insert_other, saved-write-eq-ok, set_file_permissions-eq-ok,
  fix_key_permissions_kept, content_at, fix_key_permissions-content,
}

str_eq-sym : (p q : String) → str_eq p q ≡ false → str_eq q p ≡ false
str_eq-sym p q h = ground (arith, eq_iff p q, eq_iff q p)

module _ (R : Rsa) where
  open R use {EncodingKey, generated, self_signed, from_rsa_pem}

  -- The pair on the disk: the private key, for its owner only, and its certificate.
  pub record IsSaved (pk cert : String) (fs : Files) (r : KeyPairResult EncodingKey) : Type 0 where
    pub pem : String
    pub mode : ℕ
    pub private_file : lookup pk fs ≡ some (record { content = pem; mode = owner_only })
    pub cert_file : lookup cert fs ≡ some (record { content = r.public_cert_pem; mode = mode })
    pub usable : from_rsa_pem pem ≡ ok r.encoding_key

  -- The three writes of a new pair, one after another.
  writes-saved :
      (pk cert pem text : String) (m m' : ℕ) (fs fs₁ fs₂ fs₃ : Files) (f : File)
      → str_eq pk cert ≡ false
      → fs₁ ≡ insert pk (record { content = pem; mode = m }) fs
      → lookup pk fs₁ ≡ some f
      → fs₂ ≡ insert pk (record f { mode = owner_only }) fs₁
      → fs₃ ≡ insert cert (record { content = text; mode = m' }) fs₂
      → (lookup pk fs₃ ≡ some (record { content = pem; mode = owner_only }))
        × (lookup cert fs₃ ≡ some (record { content = text; mode = m' }))
  writes-saved pk cert pem text m m' fs fs₁ fs₂ fs₃ f apart e₁ l e₂ e₃ =
      let held : some f ≡ some (record { content = pem; mode = m }) =
        sym l ∙ ap (lookup pk) e₁ ∙ lookup-insert_self pk (record { content = pem; mode = m }) fs in
      (
        ap (lookup pk) e₃
            ∙ lookup-insert_other cert pk (record { content = text; mode = m' }) fs₂
                (str_eq-sym pk cert apart)
            ∙ ap (lookup pk) e₂
            ∙ lookup-insert_self pk (record f { mode = owner_only }) fs₁
            ∙ ap (λ (o : Option File). restricted o) held,
        ap (lookup cert) e₃ ∙ lookup-insert_self cert (record { content = text; mode = m' }) fs₂,
      )
    where
      restricted : Option File → Option File
      restricted none = none
      restricted (some g) = some (record g { mode = owner_only })

  finished :
      (pk cert pem text : String) (m' : ℕ) (fs₃ fs' : Files) (key : EncodingKey)
      (r : KeyPairResult EncodingKey)
      → (lookup pk fs₃ ≡ some (record { content = pem; mode = owner_only }))
        × (lookup cert fs₃ ≡ some (record { content = text; mode = m' }))
      → from_rsa_pem pem ≡ ok key
      → ◌≡◌ {A = Result (KeyPairResult EncodingKey) String × Files}
          (ok (record { encoding_key = key; public_cert_pem = text }), fs₃)
          (ok r, fs')
      → IsSaved pk cert fs' r
  finished pk cert pem text m' fs₃ fs' key r w k h =
      let same : ◌≡◌ {A = KeyPairResult EncodingKey}
          (record { encoding_key = key; public_cert_pem = text }) r =
        inj (ap (λ z. z.0) h) in
      let files : fs₃ ≡ fs' = ap (λ z. z.1) h in
      record {
        pem = pem;
        mode = m';
        private_file =
            subst (λ fs. lookup pk fs ≡ some (record { content = pem; mode = owner_only })) files
              w.0;
        cert_file =
            subst (λ fs. lookup cert fs ≡ some (record { content = r.public_cert_pem; mode = m' }))
              files
              (w.1
                ∙ ap
                    (λ (z : KeyPairResult EncodingKey).
                      some (record { content = z.public_cert_pem; mode = m' }))
                    same);
        usable = k ∙ ap (λ (z : KeyPairResult EncodingKey). ok z.encoding_key) same;
      }
    where
      inj :
          {a b : KeyPairResult EncodingKey}
          → ◌≡◌ {A = Result (KeyPairResult EncodingKey) String} (ok a) (ok b)
          → a ≡ b
      inj q = cc

  save-IsSaved :
      (d : Disk) (pk cert pem text : String) (fs fs' : Files) (r : KeyPairResult EncodingKey)
      → str_eq pk cert ≡ false
      → save_key_pair R d pk cert pem text fs ≡ (ok r, fs')
      → IsSaved pk cert fs' r
  unfolding save_key_pair
  save-IsSaved d pk cert pem text fs fs' r apart h =
      let (_, p₁, h₁) = continue-eq-ok (saved _ pk (write d pk pem) fs) _ h in
      let fs₁ = (saved "failed to write private key '" pk (write d pk pem) fs).1 in
      let (_, p₂, h₂) = continue-eq-ok (set_file_permissions d pk owner_only fs₁) _ h₁ in
      let fs₂ = (set_file_permissions d pk owner_only fs₁).1 in
      let (_, p₃, h₃) = continue-eq-ok (saved _ cert (write d cert text) fs₂) _ h₂ in
      let fs₃ = (saved "failed to write public certificate '" cert (write d cert text) fs₂).1 in
      let (key, p₄, h₄) = continue-eq-ok (map_err _ (from_rsa_pem pem), fs₃) _ h₃ in
      let (f, l, e₂) = set_file_permissions-eq-ok d pk owner_only fs₁ fs₂ p₂ in
      finished pk cert pem text (mode_of (lookup cert fs₂) d.fresh_mode) fs₃ fs' key r
        (writes-saved pk cert pem text (mode_of (lookup pk fs) d.fresh_mode)
          (mode_of (lookup cert fs₂) d.fresh_mode) fs fs₁ fs₂ fs₃ f apart
          (saved-write-eq-ok d _ pk pk pem fs fs₁ p₁) l e₂
          (saved-write-eq-ok d _ cert cert text fs₂ fs₃ p₃))
        (map_err-eq-ok _ (from_rsa_pem pem) (ap (λ z. z.0) p₄)) h₄

  generate-IsSaved :
      (d : Disk) (pk cert : String) (fs fs' : Files) (r : KeyPairResult EncodingKey)
      → str_eq pk cert ≡ false
      → generate_and_save_key_pair R d pk cert fs ≡ (ok r, fs')
      → IsSaved pk cert fs' r
  unfolding generate_and_save_key_pair
  generate-IsSaved d pk cert fs fs' r apart h =
      let (pem, _, h₁) = continue-eq-ok (map_err _ generated, fs) _ h in
      let (text, _, h₂) = continue-eq-ok (map_err _ (self_signed pem), fs) _ h₁ in
      save-IsSaved d pk cert pem text fs fs' r apart h₂

  -- A saved pair is loaded as it is, by any disk that can read the two files.
  load-IsSaved :
      (d : Disk) (pk cert : String) (fs : Files) (r : KeyPairResult EncodingKey)
      → IsSaved pk cert fs r
      → d.read_fault pk ≡ none
      → d.read_fault cert ≡ none
      → load_fixed R d pk cert fs ≡ (ok r, fs)
  unfolding load_fixed
  load-IsSaved d pk cert fs r v n n' =
      ap (load_key_pair R d pk cert) (
        fix_key_permissions_kept d pk fs (record { content = v.pem; mode = owner_only })
          v.private_file refl)
      ∙ unfold load_key_pair read_to_string in
        rw (n, v.private_file, n', v.cert_file, v.usable) refl

  exists_there :
      (d : Disk) (path : String) (fs : Files) (f : File)
      → d.stat_fault path ≡ none
      → lookup path fs ≡ some f
      → exists d path fs ≡ true
  unfolding exists
  exists_there d path fs f k l = rw (k, exists, l) refl

  resolve-IsSaved :
      (d : Disk) (directory : String) (fs : Files) (r : KeyPairResult EncodingKey)
      → IsSaved (d.join directory "private.pem") (d.join directory "public.pem") fs r
      → d.read_fault (d.join directory "private.pem") ≡ none
      → d.read_fault (d.join directory "public.pem") ≡ none
      → d.stat_fault (d.join directory "private.pem") ≡ none
      → d.stat_fault (d.join directory "public.pem") ≡ none
      → resolve_key_pair R d (auto_generate directory) fs ≡ (ok r, fs)
  unfolding resolve_key_pair
  resolve-IsSaved d directory fs r v n n' k k' =
      let pk = d.join directory "private.pem" in
      let cert = d.join directory "public.pem" in
      rw (exists_there d pk fs _ k v.private_file, exists_there d cert fs _ k' v.cert_file)
        (load-IsSaved d pk cert fs r v n n')

  -- A start that generates a pair in a directory leaves a private key that only its owner can read
  -- and the certificate, and every later start with that directory that can read the two files
  -- and their metadata loads the same pair and changes no file, if the names of the two files differ.
  pub resolve_key_pair_again :
      (d d' : Disk) (directory : String) (fs fs' : Files) (r : KeyPairResult EncodingKey)
      → str_eq (d.join directory "private.pem") (d.join directory "public.pem") ≡ false
      → exists d (d.join directory "private.pem") fs && exists d (d.join directory "public.pem") fs
        ≡ false
      → resolve_key_pair R d (auto_generate directory) fs ≡ (ok r, fs')
      → d.join ≡ d'.join
      → d'.read_fault (d'.join directory "private.pem") ≡ none
      → d'.read_fault (d'.join directory "public.pem") ≡ none
      → d'.stat_fault (d'.join directory "private.pem") ≡ none
      → d'.stat_fault (d'.join directory "public.pem") ≡ none
      → IsSaved (d.join directory "private.pem") (d.join directory "public.pem") fs' r
        × (resolve_key_pair R d' (auto_generate directory) fs' ≡ (ok r, fs'))
  unfolding resolve_key_pair
  resolve_key_pair_again d d' directory fs fs' r apart absent h same n n' k k' =
      let pk = d.join directory "private.pem" in
      let cert = d.join directory "public.pem" in
      let (_, _, g) = continue-eq-ok (made R d directory, fs) _ (rw absent at h) in
      let v = generate-IsSaved d pk cert fs fs' r apart g in
      (
        v,
        resolve-IsSaved d' directory fs' r
            (subst (λ j. IsSaved (j directory "private.pem") (j directory "public.pem") fs' r) same
              v)
            n n' k k',
      )

  -- Loading a pair from two paths changes the content of no file, whether it succeeds or not.
  pub resolve_key_pair-content :
      (d : Disk) (pk cert path : String) (fs : Files)
      → content_at path (resolve_key_pair R d (load pk cert) fs).1 ≡ content_at path fs
  unfolding resolve_key_pair load_fixed
  resolve_key_pair-content d pk cert path fs =
      ap (content_at path) (load_kept (fix_key_permissions d pk fs))
      ∙ fix_key_permissions-content d pk path fs
    where
      load_kept : (t : Files) → (load_key_pair R d pk cert t).1 ≡ t
      load_kept t =
          unfold load_key_pair in
          continue-ind (λ z. z.1 ≡ t) (map_err _ (read_to_string d pk t), t) _
            (λ pem _.
              continue-ind (λ z. z.1 ≡ t) (map_err _ (read_to_string d cert t), t) _
                (λ text _.
                  continue-ind (λ z. z.1 ≡ t) (map_err _ (from_rsa_pem pem), t) _ (λ key _. refl)
                    (λ e _. refl))
                (λ e _. refl))
            (λ e _. refl)
