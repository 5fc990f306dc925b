-- ===== src/Shell/ExecWindows.antt =====
-- The kill handles of internal/shellh/exec_windows.go. A handle of the system is a number; each call
-- that can fail is told to, and the calls that end something are noted in order.
pub mod Handles
pub mod Itoa
use easyworker.Base.{
  ℕ, zero, suc, ◌-◌, ◌/◌, ◌%◌, ◌+◌, Bool, true, false, not, Option, none, some, List, [], ◌∷◌, ◌++◌,
  ◌==◌, if◌then◌else◌, Bytes, ℤ, pos, negsuc, length, ltb,
}

pub record TreeHandle : Type 0 where
  pub pid : ℕ
  pub job : ℕ
  pub has_job : Bool

pub data Call : Type 0 where
  -- CloseHandle, TerminateJobObject, taskkill /T /F /PID
  closes : ℕ → Call
  terminates : ℕ → Call
  task_kills : ℕ → Call

-- `jobByPid`, and the calls so far.
pub record System : Type 0 where
  pub jobs : List (ℕ × ℕ)
  pub calls : List Call

-- What the calls of `attach` give: the two handles, and whether the others succeed.
pub record Attaching : Type 0 where
  pub create : Option ℕ
  pub set_info : Bool
  pub open_process : Option ℕ
  pub assign : Bool

abbrev pub new_tree_handle : TreeHandle
new_tree_handle = record { pid = 0; job = 0; has_job = false }

unfoldable pub unregister_job : ℕ → List (ℕ × ℕ) → List (ℕ × ℕ)
unregister_job pid [] = []
unregister_job pid ((p, h) ∷ jobs) =
    let rest = unregister_job pid jobs in if p == pid then rest else (p, h) ∷ rest

unfoldable pub register_job : ℕ → ℕ → List (ℕ × ℕ) → List (ℕ × ℕ)
register_job pid h jobs = (pid, h) ∷ unregister_job pid jobs

unfoldable pub registered : ℕ → List (ℕ × ℕ) → Option ℕ
registered pid [] = none
registered pid ((p, h) ∷ jobs) = let rest = registered pid jobs in if p == pid then some h else rest

abbrev note : List Call → System → System
note cs s = record s { calls = s.calls ++ cs }

-- The last two calls of `attach`.
assign_process : Bool → ℕ → ℕ → TreeHandle → System → TreeHandle × System × Bool
assign_process true job p h s = (
  record h { job = job; has_job = true },
  note (closes p ∷ []) (record s { jobs = register_job h.pid job s.jobs }),
  true,
)
assign_process false job p h s = (h, note (closes job ∷ closes p ∷ []) s, false)

open_process : Option ℕ → Bool → ℕ → TreeHandle → System → TreeHandle × System × Bool
unfolding assign_process
open_process none assigned job h s = (h, note (closes job ∷ []) s, false)
open_process (some p) assigned job h s = assign_process assigned job p h s

create_job : Option ℕ → Attaching → TreeHandle → System → TreeHandle × System × Bool
unfolding open_process
create_job none a h s = (h, s, false)
create_job (some job) a h s =
    if a.set_info
    then open_process a.open_process a.assign job h s
    else (h, note (closes job ∷ []) s, false)

-- `attach`: the handle, and whether it succeeds.
unfoldable pub attach : Attaching → ℕ → TreeHandle → System → TreeHandle × System × Bool
unfolding create_job
attach a pid h s = create_job a.create a (record h { pid = pid }) s

-- `terminate`; `ended` says whether TerminateJobObject succeeds.
unfoldable pub terminate : Bool → TreeHandle → System → System
terminate ended h s =
    if h.pid == 0
    then s
    else if h.has_job
    then note (if ended then terminates h.job ∷ [] else terminates h.job ∷ task_kills h.pid ∷ []) s
    else note (task_kills h.pid ∷ []) s

-- `close`
unfoldable pub close : TreeHandle → System → TreeHandle × System
close h s =
    let s' = if h.pid == 0 then s else record s { jobs = unregister_job h.pid s.jobs } in
    if h.has_job then (record h { has_job = false }, note (closes h.job ∷ []) s') else (h, s')

kill_found : Option ℕ → System → System
kill_found none s = s
kill_found (some h) s = note (terminates h ∷ closes h ∷ []) s

-- `killAllHandle`
unfoldable pub kill_all_handle : ℕ → System → System
unfolding kill_found
kill_all_handle pid s =
    kill_found (registered pid s.jobs) (record s { jobs = unregister_job pid s.jobs })

-- The loop of `itoa`, `room` places before the start of its buffer; `none` is a panic.
unfoldable pub digits : ℕ → ℕ → Bytes → Option Bytes
digits zero i out = if i == 0 then some out else none
digits (suc room) i out =
    let rest = digits room (i / 10) ((b'0' + i % 10) ∷ out) in if i == 0 then some out else rest

-- A minus sign, if the buffer has a place left.
signed : Bool → Option Bytes → Option Bytes
signed neg none = none
signed false (some out) = some out
signed true (some out) = if ltb (length out) 20 then some (b'-' ∷ out) else none

-- `itoa`, on integers that have a negative.
unfoldable pub itoa : ℤ → Option Bytes
unfolding signed
itoa (pos n) = if n == 0 then some (b'0' ∷ []) else signed false (digits 20 n [])
itoa (negsuc n) = signed true (digits 20 (suc n) [])
