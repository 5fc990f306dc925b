-- ===== src/Shell/HostEnv.antt =====
-- The base environment of the jobs: `jobEnv` of cmd/easyworker/main.go. os.LookupEnv, os.Stat and
-- runtime.GOOS are parameters.
pub mod Allowlist
use easyworker.Base.{
  inl, inr, ◌≡◌, ◌≢◌, ◌∙◌, refl, ap, ap₂, Bool, true, false, not, ◌&&◌, ◌||◌, Option, none, some,
  List, [], ◌∷◌, ◌++◌, arith, if◌then◌else◌, Bytes, bytes, bytes_eq, bytes_eq_iff, cut_prefix, All,
  Bool-cases, Option-cases, ◌==◌,
}
use easyworker.Shell.Env.{
  setting, equals_sign, merged_env, value_of, lookup, IsKey, Keys, or_else, or_else-none,
  value_of-append, cut_prefix-other, value_of-merged_env,
}

unfoldable pub passed_names : List Bytes
passed_names =
    bytes "HTTP_PROXY"
    ∷ bytes "HTTPS_PROXY"
    ∷ bytes "http_proxy"
    ∷ bytes "https_proxy"
    ∷ bytes "NO_PROXY"
    ∷ bytes "no_proxy"
    ∷ bytes "NPM_CONFIG_REGISTRY"
    ∷ bytes "PIP_INDEX_URL"
    ∷ bytes "GOPROXY"
    ∷ bytes "GOSUMDB"
    ∷ bytes "CARGO_REGISTRIES_CRATES_IO_INDEX"
    ∷ bytes "SSL_CERT_FILE"
    ∷ bytes "SSL_CERT_DIR"
    ∷ bytes "CURL_CA_BUNDLE"
    ∷ bytes "GIT_SSL_CAINFO"
    ∷ bytes "GIT_SSL_CAPATH"
    ∷ bytes "REQUESTS_CA_BUNDLE"
    ∷ bytes "CURL_CA_BUNDLE"
    ∷ bytes "PIP_CERT"
    ∷ bytes "NODE_EXTRA_CA_CERTS"
    ∷ bytes "NODE_OPTIONS"
    ∷ bytes "AWS_CA_BUNDLE"
    ∷ bytes "DENO_CERT"
    ∷ bytes "CARGO_HTTP_CAINFO"
    ∷ bytes "COMPOSER_CAFILE"
    ∷ bytes "HEX_CACERTS_PATH"
    ∷ bytes "NIX_SSL_CERT_FILE"
    ∷ bytes "DART_VM_OPTIONS"
    ∷ bytes "UV_NATIVE_TLS"
    ∷ bytes "UV_SYSTEM_CERTS"
    ∷ bytes "JAVA_TOOL_OPTIONS"
    ∷ bytes "JAVA_HOME"
    ∷ bytes "CC"
    ∷ bytes "CXX"
    ∷ bytes "CFLAGS"
    ∷ bytes "CXXFLAGS"
    ∷ bytes "CPPFLAGS"
    ∷ bytes "LDFLAGS"
    ∷ bytes "CMAKE_GENERATOR"
    ∷ bytes "PATH"
    ∷ bytes "HOME"
    ∷ bytes "TMPDIR"
    ∷ bytes "USER"
    ∷ []

unfoldable pub windows_names : List Bytes
windows_names =
    bytes "SystemRoot"
    ∷ bytes "SYSTEMROOT"
    ∷ bytes "windir"
    ∷ bytes "TEMP"
    ∷ bytes "USERPROFILE"
    ∷ bytes "APPDATA"
    ∷ []

cert_files : List Bytes
cert_files =
    bytes "/etc/ssl/certs/ca-certificates.crt"
    ∷ bytes "/etc/ssl/cert.pem"
    ∷ bytes "/etc/pki/tls/certs/ca-bundle.crt"
    ∷ []

default_unix_path : Bytes
default_unix_path =
    bytes
      "/usr/local/sbin:/usr/local/bin:/usr/sbin:/usr/bin:/sbin:/bin:/root/.cargo/bin:/root/go/bin"

contains_key : List Bytes → Bytes → Bool
contains_key [] key = false
contains_key (kv ∷ env) key =
    let rest = contains_key env key in
    elim (cut_prefix (key ++ equals_sign) kv) [ some _ ↦ true | none ↦ rest ]

first_existing_file : (Bytes → Bool) → List Bytes → Bytes
first_existing_file exists [] = []
first_existing_file exists (p ∷ paths) =
    let rest = first_existing_file exists paths in if exists p then p else rest

pass : (Bytes → Option Bytes) → List Bytes → List Bytes
unfolding setting
pass host [] = []
pass host (k ∷ names) =
    let rest = pass host names in elim (host k) [ none ↦ rest | some v ↦ setting k v ∷ rest ]

add_certs : (Bytes → Bool) → List Bytes → List Bytes
unfolding setting contains_key first_existing_file
add_certs exists out =
    let f = first_existing_file exists cert_files in
    if contains_key out (bytes "SSL_CERT_FILE") || bytes_eq f []
    then out
    else out ++ (setting (bytes "SSL_CERT_FILE") f ∷ [])

add_missing : (Bytes → Option Bytes) → List Bytes → List Bytes → List Bytes
unfolding setting contains_key
add_missing host [] out = out
add_missing host (k ∷ names) out =
    let kept = add_missing host names out in
    elim (host k) [
      | none ↦ kept
      | some v ↦
          let added = add_missing host names (out ++ (setting k v ∷ [])) in
          if contains_key out k then kept else added
    ]

add_path : List Bytes → List Bytes
unfolding setting contains_key
add_path out =
    if contains_key out (bytes "PATH")
    then out
    else out ++ (setting (bytes "PATH") default_unix_path ∷ [])

unfoldable pub job_env : Bool → (Bytes → Option Bytes) → (Bytes → Bool) → List Bytes
unfolding pass add_certs add_missing add_path cert_files default_unix_path
job_env windows host exists =
    let out = add_certs exists (pass host passed_names) in
    if windows then add_missing host windows_names out else add_path out
