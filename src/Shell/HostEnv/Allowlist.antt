-- ===== src/Shell/HostEnv/Allowlist.antt =====
-- What reaches a job of the worker's own environment (`jobEnv` of cmd/easyworker/main.go with the
-- environment of RunWithEnv in internal/shellh/runner.go).
use easyworker.Base.{
  inl, inr, ◌≡◌, ◌≢◌, ◌∙◌, refl, ap, ap₂, Bool, true, false, not, ◌&&◌, ◌||◌, Option, none, List,
  [], ◌∷◌, ◌++◌, arith, Bytes, bytes, bytes_eq, bytes_eq_iff, All, Bool-cases, Option-cases, ◌==◌,
}
use easyworker.Shell.Env.{
  setting, merged_env, value_of, lookup, IsKey, Keys, or_else, or_else-none, value_of-append,
  cut_prefix-other, value_of-merged_env,
}
use easyworker.Shell.HostEnv.{
  passed_names, windows_names, cert_files, default_unix_path, contains_key, first_existing_file,
  pass, add_certs, add_missing, add_path, job_env,
}

-- Whether a name is on a list.
unfoldable pub is_listed : Bytes → List Bytes → Bool
is_listed key [] = false
is_listed key (k ∷ names) = bytes_eq k key || is_listed key names

is_key : Bytes → Bool
is_key [] = true
is_key (c ∷ k) = not (c == b'=') && is_key k

is_key-IsKey : (k : Bytes) → is_key k ≡ true → IsKey k
unfolding is_key
is_key-IsKey [] h = tt
is_key-IsKey (c ∷ k) h = (ground arith, is_key-IsKey k (ground arith))

all_keys : List Bytes → Bool
unfolding is_key
all_keys [] = true
all_keys (k ∷ names) = is_key k && all_keys names

abbrev Others : Bytes → List Bytes → Type 0
Others key = All λ k. IsKey k × (k ≢ key)

names-Others :
    (key : Bytes) (names : List Bytes)
    → all_keys names ≡ true
    → is_listed key names ≡ false
    → Others key names
unfolding all_keys is_listed
names-Others key [] h l = tt
names-Others key (k ∷ names) h l = (
  (is_key-IsKey k (ground arith), λ same. ground (arith, (bytes_eq_iff k key).1 same)),
  names-Others key names (ground arith) (ground arith),
)

is_listed-append :
    (key : Bytes) (xs ys : List Bytes)
    → is_listed key (xs ++ ys) ≡ false
    → (is_listed key xs ≡ false) × (is_listed key ys ≡ false)
unfolding is_listed
is_listed-append key [] ys h = (refl, h)
is_listed-append key (x ∷ xs) ys h =
    let ih = is_listed-append key xs ys (ground arith) in (ground (arith, ih.0), ih.1)

setting-none :
    (key k v : Bytes) (out : List Bytes)
    → IsKey key
    → IsKey k × (k ≢ key)
    → value_of key out ≡ none
    → value_of key (out ++ (setting k v ∷ [])) ≡ none
unfolding value_of
setting-none key k v out h o e =
    value_of-append key out (setting k v ∷ []) ∙ ap₂ or_else (cut_prefix-other k key v o.0 h o.1) e

pass-none :
    (key : Bytes) (host : Bytes → Option Bytes) (names : List Bytes)
    → IsKey key
    → Others key names
    → value_of key (pass host names) ≡ none
unfolding pass value_of
pass-none key host [] h o = refl
pass-none key host (k ∷ names) h (o, os) = elim (Option-cases (host k)) [
  | inl e ↦ rw (e, pass) (pass-none key host names h os)
  | inr (v, e) ↦
      rw (e, pass, value_of, pass-none key host names h os, cut_prefix-other k key v o.0 h o.1) refl
]

add_missing-none :
    (key : Bytes) (host : Bytes → Option Bytes) (names out : List Bytes)
    → IsKey key
    → Others key names
    → value_of key out ≡ none
    → value_of key (add_missing host names out) ≡ none
unfolding add_missing
add_missing-none key host [] out h o e = e
add_missing-none key host (k ∷ names) out h (o, os) e = elim (Option-cases (host k)) [
  | inl m ↦ rw (m, add_missing) (add_missing-none key host names out h os e)
  | inr (v, m) ↦ elim (Bool-cases (contains_key out k)) [
    | inl has ↦ rw (m, has, add_missing) (add_missing-none key host names out h os e)
    | inr lacks ↦
        rw (m, lacks, add_missing)
          (add_missing-none key host names (out ++ (setting k v ∷ [])) h os
            (setting-none key k v out h o e))
  ]
]

abbrev pub certs_name : Bytes
certs_name = bytes "SSL_CERT_FILE"

add_certs-none :
    (key : Bytes) (exists : Bytes → Bool) (out : List Bytes)
    → IsKey key
    → IsKey certs_name × (certs_name ≢ key)
    → value_of key out ≡ none
    → value_of key (add_certs exists out) ≡ none
unfolding add_certs
add_certs-none key exists out h o e =
    let f = first_existing_file exists cert_files in
    elim (Bool-cases (contains_key out certs_name || bytes_eq f [])) [
      | inl has ↦ rw (has, add_certs) e
      | inr lacks ↦ rw (lacks, add_certs) (setting-none key certs_name f out h o e)
    ]

add_path-none :
    (key : Bytes) (out : List Bytes)
    → IsKey key
    → IsKey (bytes "PATH") × (bytes "PATH" ≢ key)
    → value_of key out ≡ none
    → value_of key (add_path out) ≡ none
unfolding add_path
add_path-none key out h o e = elim (Bool-cases (contains_key out (bytes "PATH"))) [
  | inl has ↦ rw (has, add_path) e
  | inr lacks ↦ rw (lacks, add_path) (setting-none key (bytes "PATH") default_unix_path out h o e)
]

is_listed-differs :
    (k key : Bytes) (names : List Bytes)
    → is_listed k names ≡ true
    → is_listed key names ≡ false
    → k ≢ key
is_listed-differs k key names yes' no' same =
    absurd (cc (yes', no', ap (λ x. is_listed x names) same))

passed_keys : all_keys passed_names ≡ true
unfolding all_keys is_key passed_names
passed_keys = refl

windows_keys : all_keys windows_names ≡ true
unfolding all_keys is_key windows_names
windows_keys = refl

certs_passed : is_listed certs_name passed_names ≡ true
unfolding is_listed passed_names bytes_eq
certs_passed = refl

path_passed : is_listed (bytes "PATH") passed_names ≡ true
unfolding is_listed passed_names bytes_eq
path_passed = refl

certs_is_key : is_key certs_name ≡ true
unfolding is_key
certs_is_key = refl

path_is_key : is_key (bytes "PATH") ≡ true
unfolding is_key
path_is_key = refl

allowed-none :
    (key : Bytes) (host : Bytes → Option Bytes) (exists : Bytes → Bool)
    → IsKey key
    → is_listed key passed_names ≡ false
    → value_of key (add_certs exists (pass host passed_names)) ≡ none
allowed-none key host exists h lp =
    add_certs-none key exists (pass host passed_names) h
      (
        is_key-IsKey certs_name certs_is_key,
        is_listed-differs certs_name key passed_names certs_passed lp,
      )
      (pass-none key host passed_names h (names-Others key passed_names passed_keys lp))

job_env-none :
    (key : Bytes) (windows : Bool) (host : Bytes → Option Bytes) (exists : Bytes → Bool)
    → IsKey key
    → is_listed key (passed_names ++ windows_names) ≡ false
    → value_of key (job_env windows host exists) ≡ none
unfolding job_env
job_env-none key true host exists h l =
    let (lp, lw) = is_listed-append key passed_names windows_names l in
    add_missing-none key host windows_names (add_certs exists (pass host passed_names)) h
      (names-Others key windows_names windows_keys lw) (allowed-none key host exists h lp)
job_env-none key false host exists h l =
    let (lp, lw) = is_listed-append key passed_names windows_names l in
    add_path-none key (add_certs exists (pass host passed_names)) h
      (
        is_key-IsKey (bytes "PATH") path_is_key,
        is_listed-differs (bytes "PATH") key passed_names path_passed lp,
      )
      (allowed-none key host exists h lp)

-- Whatever the environment of the worker holds: of a variable that is not on the allowlist of
-- `jobEnv` a job sees what its own additions set, and nothing where they do not set it. No name has
-- "=" in it, and the additions have each name once.
pub job_sees_allowlist :
    (key : Bytes) (windows : Bool) (host : Bytes → Option Bytes) (exists : Bytes → Bool)
    (env : List (Bytes × Bytes))
    → IsKey key
    → is_listed key (passed_names ++ windows_names) ≡ false
    → Keys env
    → value_of key (merged_env (job_env windows host exists) env) ≡ lookup key env
job_sees_allowlist key windows host exists env h l hs =
    value_of-merged_env key (job_env windows host exists) env h hs
    ∙ rw (job_env-none key windows host exists h l) (or_else-none (lookup key env))
