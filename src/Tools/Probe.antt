-- ===== src/Tools/Probe.antt =====
-- cmd/trustprobe/main.go: the probes that it runs on a worker, and what it makes of their output.
pub mod Outcome
use easyworker.Base.{
  ℕ, ◌+◌, ◌≡◌, ◌∙◌, refl, sym, ap, inl, inr, Bool, true, false, ◌||◌, ◌&&◌, Option, none, some,
  List, [], ◌∷◌, ◌++◌, map, arith, ◌==◌, if◌then◌else◌, Bytes, bytes, bytes_eq, ltb, ℤ, pos, negsuc,
  reverse, All, Bool-cases,
}
use mathlib.Core.List.{append_assoc, append-nil}
use easyworker.Auth.Space.{trim_space}
use easyworker.Service.Watch.{
  Event, output, finished, Ending, completed, send_failed, context_error, rejected,
}

pub record Probe : Type 0 where
  pub name : Bytes
  pub need : Bytes
  pub cmd : Bytes

-- What `run` gives: the output, the exit code, and whether there was an error.
pub record Ran : Type 0 where
  pub out : Bytes
  pub code : ℤ
  pub failed : Bool

-- The loop over the stream's messages.
receive_all : Bytes → ℤ → List Event → Bytes × ℤ
receive_all out code [] = (out, code)
receive_all out code (output l ∷ events) = receive_all (out ++ l) code events
receive_all out code (finished c so se ∷ events) = receive_all out (pos c) events

is_completed : Ending → Bool
is_completed completed = true
is_completed _ = false

-- `run`, on what the worker sent and how its handler ended; `none` is an error of one of the two calls.
unfoldable pub run : Option (List Event × Ending) → Ran
unfolding receive_all is_completed
run none = record { out = []; code = negsuc 0; failed = true }
run (some (events, ending)) =
    let (out, code) = receive_all [] (negsuc 0) events in
    record { out = out; code = code; failed = if is_completed ending then false else true }

first_part : ℕ → ℕ → List Bytes → List Bytes
first_part c b [] = []
first_part c b (s ∷ parts) = if b == c then [] ∷ s ∷ parts else (b ∷ s) ∷ parts

-- strings.Split by one byte
unfoldable pub split : ℕ → Bytes → List Bytes
unfolding first_part
split c [] = [] ∷ []
split c (b ∷ s) = first_part c b (split c s)

-- strings.TrimRight(s, "\n"), from the end
drop_newlines : Bytes → Bytes
drop_newlines [] = []
drop_newlines (b ∷ s) = let rest = drop_newlines s in if b == b'\n' then rest else b ∷ s

last_part : List Bytes → Bytes
last_part [] = []
last_part (s ∷ []) = s
last_part (s ∷ t ∷ parts) = last_part (t ∷ parts)

-- `lastLine`
unfoldable pub last_line : Bytes → Bytes
unfolding drop_newlines last_part
last_line s = trim_space (last_part (split b'\n' (reverse (drop_newlines (reverse s)))))

keep_named : List Bytes → List Bytes
keep_named [] = []
keep_named (n ∷ names) = let rest = keep_named names in if bytes_eq n [] then rest else n ∷ rest

is_member : Bytes → List Bytes → Bool
is_member n [] = false
is_member n (m ∷ names) = bytes_eq m n || is_member n names

-- The map `want`: the names that the flag gives.
unfoldable pub wanted : Bytes → List Bytes
unfolding keep_named
wanted only = keep_named (map trim_space (split b',' only))

-- The command that is sent for a probe.
unfoldable pub command_of : Probe → Bytes
command_of p =
    if bytes_eq p.need []
    then p.cmd
    else bytes "command -v " ++ p.need ++ bytes " >/dev/null 2>&1 || exit 127; " ++ p.cmd

pub data Verdict : Type 0 where
  errored skipped passed failed : Verdict

code_verdict : ℤ → Verdict
code_verdict (pos c) = if c == 127 then skipped else if c == 0 then passed else failed
code_verdict (negsuc c) = failed

unfoldable pub judge : Ran → Verdict
unfolding code_verdict
judge r = if r.failed then errored else code_verdict r.code

pub record Tally : Type 0 where
  pub pass : ℕ
  pub fail : ℕ

count : Verdict → Tally → Tally
count errored t = record t { fail = t.fail + 1 }
count skipped t = t
count passed t = record t { pass = t.pass + 1 }
count failed t = record t { fail = t.fail + 1 }

pub is_wanted : List Bytes → Probe → Bool
unfolding is_member
is_wanted [] p = true
is_wanted (n ∷ names) p = is_member p.name (n ∷ names)

-- The loop of `main`; `answer` is what `run` gives for a command.
unfoldable pub run_probes : (Bytes → Ran) → List Bytes → List Probe → Tally → Tally
unfolding count is_wanted judge command_of
run_probes answer want [] t = t
run_probes answer want (p ∷ probes) t =
    run_probes answer want probes
      (if is_wanted want p then count (judge (answer (command_of p))) t else t)

-- `main`: the exit code.
unfoldable pub probe_main : Bytes → Bytes → (Bytes → Ran) → List Probe → ℕ
unfolding wanted
probe_main addr only answer probes =
    if bytes_eq addr []
    then 2
    else (if ltb 0 (run_probes answer (wanted only) probes (record { pass = 0; fail = 0 })).fail
        then 1
        else 0)
