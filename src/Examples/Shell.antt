-- ===== src/Examples/Shell.antt =====
-- Lines and environments of a job (internal/shellh/runner.go, cmd/easyworker/main.go).
use easyworker.Base.{
  ◌≡◌, ◌≤◌, ◌⊎◌, ◌==◌, if◌then◌else◌, none, negsuc, refl, Bool, true, false, Option, some, List, [],
  ◌∷◌, ◌++◌, arith, Bytes, bytes, bytes_eq, length,
}
use easyworker.Shell.LineBuffer.{LineBuffer, write}
use easyworker.Shell.LineBuffer.Ring.{Window, write-Window}
use easyworker.Shell.Env.{IsKey, Keys, lookup, merged_env, value_of}
use easyworker.Shell.HostEnv.{passed_names, windows_names, job_env}
use easyworker.Shell.HostEnv.Allowlist.{is_listed, job_sees_allowlist}
use easyworker.Shell.Run.Children.{
  gone, starting, World, Careful, at_start, starts, tracks, here, next, live, track, untrack,
}
use easyworker.Shell.ExecUnix.{hits_group, hits_process, kill_all, kill_all_reaches}
use easyworker.Shell.ExecWindows.{System, Attaching, attach, new_tree_handle, itoa}
use easyworker.Shell.ExecWindows.Handles.{Attached, attach_lem}
use easyworker.Shell.ExecWindows.Itoa.{value, value-itoa}

-- A ring of two lines with "ab" pending.
abbrev small : LineBuffer
small = record { max_lines = 2; recs = []; cur = bytes "ab"; dropped = 0 }

-- "c\r\n1\n2\n3"
abbrev text : Bytes
text = b'c' ∷ b'\r' ∷ b'\n' ∷ b'1' ∷ b'\n' ∷ b'2' ∷ b'\n' ∷ b'3' ∷ []

small-Window : Window small []
small-Window = record { newest = refl; lost = refl }

write-Window_example : Window (write text 0 small).buffer ([] ++ (write text 0 small).completed)
write-Window_example = write-Window text 0 small [] small-Window

abbrev secret : Bytes
secret = bytes "K"

secret-IsKey : IsKey secret
secret-IsKey = (λ e. omega (arith, e), tt)

secret-unlisted : is_listed secret (passed_names ++ windows_names) ≡ false
unfolding is_listed passed_names windows_names bytes_eq
secret-unlisted = refl

-- A worker whose every variable is set, and a job that sets PATH.
abbrev host : Bytes → Option Bytes
host name = some (bytes "x")

abbrev exists : Bytes → Bool
exists path = true

abbrev additions : List (Bytes × Bytes)
additions = (bytes "A", bytes "/bin") ∷ []

additions-Keys : Keys additions
unfolding lookup
additions-Keys = ((λ e. omega (arith, e), tt), refl, tt)

job_sees_allowlist_example :
    value_of secret (merged_env (job_env false host exists) additions) ≡ lookup secret additions
job_sees_allowlist_example =
    job_sees_allowlist secret false host exists additions secret-IsKey secret-unlisted
      additions-Keys

-- Process 7 was started and tracked.
abbrev one_child : World
one_child = record at_start {
  childs = 7 ∷ [];
  process = λ q. if q == 7 then live else (if q == 7 then starting else gone);
}

one_child-Careful : Careful at_start one_child
unfolding track untrack
one_child-Careful = next (next here (starts at_start 7 refl) refl) (tracks _ 7 refl) tt

-- The process of an attach cannot be opened.
abbrev unopened : Attaching
unopened = record { create = some 5; set_info = true; open_process = none; assign = true }

abbrev idle : System
idle = record { jobs = []; calls = [] }

attach_lem_example :
    let (h, s, ok') = attach unopened 7 new_tree_handle idle in Attached 7 5 idle h s ok'
attach_lem_example = attach_lem unopened 7 5 idle refl (λ e. cc)

value-itoa_example :
    (s : Bytes) × (itoa (negsuc 41) ≡ some s) × (value s ≡ negsuc 41) × (length s ≤ 20)
value-itoa_example = value-itoa (negsuc 41) (omega arith) (omega arith)

kill_all_reaches_example :
    ((one_child.process 7 ≡ live)
      → (hits_group 7 (kill_all one_child.childs) ≡ true)
        × (hits_process 7 (kill_all one_child.childs) ≡ true))
    × ((hits_group 7 (kill_all one_child.childs) ≡ true)
        → ((one_child.process 7 ≡ live) ⊎ (one_child.waited 7 ≡ 1)))
kill_all_reaches_example = kill_all_reaches one_child 7 one_child-Careful
