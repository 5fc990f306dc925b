-- ===== src/Tools.antt =====
-- The command line tools: cmd/easyworker-enroll here, cmd/trustprobe in Probe, cmd/ewtest in Checks and
-- Live.
pub mod Probe
pub mod Live
pub mod Checks
use easyworker.Base.{
  ℕ, ◌≡◌, ◌≢◌, ◌↔◌, refl, Bool, true, false, [], arith, if◌then◌else◌, Bytes, bytes_eq,
  bytes_eq_iff,
}
use easyworker.Rpc.{Code, Rpc, reply, fail}
use easyworker.Enroll.{StatusResponse}
use easyworker.Client.{EnrollError, Enrolled, enrolled, refused, enroll}

-- What the tool prints.
pub data Printed : Type 0 where
  usage code_required : Printed
  status_failed : Code → Printed
  status_line : StatusResponse → Printed
  enroll_failed : EnrollError → Printed
  token : Bytes → Printed

status_shown : Rpc StatusResponse → ℕ × Printed
status_shown (reply s) = (0, status_line s)
status_shown (fail c) = (1, status_failed c)

enroll_shown : Enrolled → ℕ × Printed
enroll_shown (enrolled tok) = (0, token tok)
enroll_shown (refused x) = (1, enroll_failed x)

-- `main` of cmd/easyworker-enroll: the exit code and what is printed. The answers are those of the
-- worker, where it is called.
unfoldable pub enroll_main : Bytes → Bytes → Bool → Rpc StatusResponse → Rpc Bytes → ℕ × Printed
unfolding status_shown enroll_shown
enroll_main addr code status status_answer claim_answer =
    if bytes_eq addr []
    then (2, usage)
    else if status
    then status_shown status_answer
    else if bytes_eq code []
    then (2, code_required)
    else enroll_shown (enroll claim_answer)

-- The tool ends with exit code 0 and prints a token exactly when it was given an address and a code, was
-- not asked for the status, and the worker answered the claim with that token, which is not empty.
pub enroll_main-token :
    (addr code tok : Bytes) (status : Bool) (status_answer : Rpc StatusResponse)
    (answer : Rpc Bytes)
    → (enroll_main addr code status status_answer answer ≡ (0, token tok))
      ↔ ((addr ≢ []) × (code ≢ []) × (status ≡ false) × (tok ≢ []) × (answer ≡ reply tok))
unfolding enroll_main enroll
enroll_main-token addr code tok status status_answer answer =
    ground (arith, bytes_eq_iff addr [], bytes_eq_iff code [], bytes_eq_iff tok [])
