-- ===== src/Auth/Signing/Files.antt =====
-- What the calls on the file system do to a file, and which of them keep every content.
use mathlib.Core.Path.{subst}
use jwt_exchange.Prelude.{
  ℕ, String, ◌≡◌, refl, sym, ap, ◌∙◌, false, Option, none, some, arith, str_eq, eq_refl, eq_iff,
  Option-cases, Bool-cases, inl, inr, ◌==◌, if◌then◌else◌,
}
use jwt_exchange.Result.{Result, ok, err}
use jwt_exchange.Maps.{lookup, insert, lookup-insert}
use jwt_exchange.Auth.Signing.{
  File, Files, Disk, owner_only, on_file, changed, mode_of, write, check_file_permissions,
  set_file_permissions, fixed, fix_key_permissions, saved,
}

pub lookup-insert_self : (p : String) (f : File) (fs : Files) → lookup p (insert p f fs) ≡ some f
lookup-insert_self p f fs =
    lookup-insert p p f fs ∙ ap (λ b. if b then some f else lookup p fs) (eq_refl p)

pub lookup-insert_other :
    (p q : String) (f : File) (fs : Files)
    → str_eq p q ≡ false
    → lookup q (insert p f fs) ≡ lookup q fs
lookup-insert_other p q f fs h =
    lookup-insert p q f fs ∙ ap (λ b. if b then some f else lookup q fs) h

pub saved-write-eq-ok :
    (d : Disk) (what path path' text : String) (fs fs' : Files)
    → saved what path (write d path' text) fs ≡ (ok tt, fs')
    → fs'
      ≡ insert path' (record { content = text; mode = mode_of (lookup path' fs) d.fresh_mode }) fs
unfolding write
saved-write-eq-ok d what path path' text fs fs' h = elim (Option-cases (d.write_fault path')) [
  | inl n ↦ sym (ap (λ z. z.1) (rw (n, write) at h))
  | inr (e, n) ↦ absurd (let g = ap (λ z. z.0) (rw (n, write) at h) in ground arith)
]

changed-eq-ok :
    (o : Option String) (l : Option File) (path : String) (mode : ℕ) (fs fs' : Files)
    → changed (on_file o l (λ f. f)) path mode fs ≡ (ok tt, fs')
    → (f : File) × (l ≡ some f) × (fs' ≡ insert path (record f { mode = mode }) fs)
changed-eq-ok (some e) l path mode fs fs' h = absurd (let g = ap (λ z. z.0) h in ground arith)
changed-eq-ok none none path mode fs fs' h = absurd (let g = ap (λ z. z.0) h in ground arith)
changed-eq-ok none (some f) path mode fs fs' h = (f, refl, sym (ap (λ z. z.1) h))

pub set_file_permissions-eq-ok :
    (d : Disk) (path : String) (mode : ℕ) (fs fs' : Files)
    → set_file_permissions d path mode fs ≡ (ok tt, fs')
    → (f : File) × (lookup path fs ≡ some f) × (fs' ≡ insert path (record f { mode = mode }) fs)
unfolding set_file_permissions
set_file_permissions-eq-ok d path mode fs fs' h =
    changed-eq-ok (d.chmod_fault path) (lookup path fs) path mode fs fs' h

-- A key that only its owner can read is left alone.
pub fix_key_permissions_kept :
    (d : Disk) (path : String) (fs : Files) (f : File)
    → lookup path fs ≡ some f
    → f.mode ≡ owner_only
    → fix_key_permissions d path fs ≡ fs
unfolding fix_key_permissions check_file_permissions
fix_key_permissions_kept d path fs f l m = elim (Option-cases (d.stat_fault path)) [
  | inl n ↦ rw (n, l, m) refl
  | inr (e, n) ↦ rw n refl
]

-- The content of a file, where it is there.
abbrev text_of : Option File → Option String
text_of none = none
text_of (some f) = some f.content

abbrev pub content_at : String → Files → Option String
content_at path fs = text_of (lookup path fs)

content_at-insert :
    (p q : String) (f : File) (mode : ℕ) (fs : Files)
    → lookup p fs ≡ some f
    → content_at q (insert p (record f { mode = mode }) fs) ≡ content_at q fs
content_at-insert p q f mode fs l = elim (Bool-cases (str_eq p q)) [
  | inl b ↦
      ap text_of (
        lookup-insert p q (record f { mode = mode }) fs
        ∙ ap (λ c. if c then some (record f { mode = mode }) else lookup q fs) b)
      ∙ sym (ap text_of (subst (λ z. lookup z fs ≡ some f) ((eq_iff p q).0 b) l))
  | inr b ↦ ap text_of (lookup-insert_other p q (record f { mode = mode }) fs b)
]

changed-content :
    (o : Option String) (path q : String) (mode : ℕ) (fs : Files)
    → content_at q (changed (on_file o (lookup path fs) (λ f. f)) path mode fs).1 ≡ content_at q fs
changed-content (some e) path q mode fs = refl
changed-content none path q mode fs = elim (Option-cases (lookup path fs)) [
  | inl n ↦ rw n refl
  | inr (f, l) ↦ rw l (content_at-insert path q f mode fs l)
]

pub fix_key_permissions-content :
    (d : Disk) (path q : String) (fs : Files)
    → content_at q (fix_key_permissions d path fs) ≡ content_at q fs
unfolding fix_key_permissions
fix_key_permissions-content d path q fs = after (check_file_permissions d path fs)
  where
    after : (r : Result ℕ String) → content_at q (fixed r d path fs) ≡ content_at q fs
    after (err e) = refl
    after (ok mode) = elim (Bool-cases (mode == owner_only)) [
      | inl same ↦ rw same refl
      | inr other ↦
          rw other (
            unfold set_file_permissions in
            changed-content (d.chmod_fault path) path q owner_only fs)
    ]
