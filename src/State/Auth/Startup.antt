-- ===== src/State/Auth/Startup.antt =====
-- EnsureAuth, which differs from EnsureAuthWithDefaults in drawing the credentials, and SecretPath of internal/state/store.go. `drawn_user` and
-- `drawn_pass` are what randomCred gives.
use conduitvpn.State.Auth.{
  ensure_auth_with_defaults, auth_path, zero_auth, Step, rand_hex, load_auth, UiAuth, Loaded,
}
use conduitvpn.Base.{ℕ, Bool, not, Option, List, [], if◌then◌else◌, Str, is_empty}
use conduitvpn.State.Files.{Files, Syscall, write_json}
use conduitvpn.State.Auth.{found, missing, unparsed, ok, err}

module _ (hmac : List ℕ → List ℕ → List ℕ) (rand : ℕ → ℕ → Option (List ℕ)) where
  unfoldable pub ensure_auth :
      (Syscall → Bool) → Str → Str → Str → Files UiAuth → Step (Str × Str) × Files UiAuth
  unfolding ensure_auth_with_defaults
  ensure_auth faults tmp drawn_user drawn_pass files =
      ensure_auth_with_defaults hmac rand faults tmp drawn_user drawn_pass files

  abbrev pub loaded_or_zero : Loaded → UiAuth
  loaded_or_zero (found a) = a
  loaded_or_zero missing = zero_auth
  loaded_or_zero unparsed = zero_auth

  -- The path that is stored, or a new one; a failure to write it is ignored.
  abbrev pub store_secret :
      (Syscall → Bool) → Str → UiAuth → Files UiAuth → Step Str → Str × Files UiAuth
  store_secret faults tmp a files (err e) = ([], files)
  store_secret faults tmp a files (ok secret) = (
    secret,
    (write_json (record { path = auth_path; tmp = tmp; v = record a { secret_path = secret } })
        faults files).last,
  )

  unfoldable pub secret_path : (Syscall → Bool) → Str → Files UiAuth → Str × Files UiAuth
  unfolding load_auth rand_hex
  secret_path faults tmp files =
      let a = loaded_or_zero (load_auth files) in
      if not (is_empty a.secret_path)
      then (a.secret_path, files)
      else store_secret faults tmp a files (rand_hex hmac rand 0 24)
