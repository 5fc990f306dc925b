-- ===== src/Examples/Tools.antt =====
-- A wait whose clock is late from the second pass on (cmd/ewtest).
use easyworker.Base.{
  ℕ, zero, suc, ◌<◌, ◌≡◌, refl, Bool, true, false, Option, none, some, List, Bytes,
}
use easyworker.Tools.Live.{Page, wait_for_lines, wait_for_output, waits_end}

abbrev silent : ℕ → Option Page
silent i = none

abbrev late : ℕ → Bool
late zero = false
late (suc i) = true

abbrev before : ℕ → Bool
before zero = true
before (suc i) = false

waits_end_example :
    ((lines : List Bytes) × ((fuel : ℕ)
        → 1 < fuel
        → wait_for_lines false silent late fuel ≡ some lines))
    × ((out : Bytes) × ((fuel : ℕ) → 1 < fuel → wait_for_output silent late before fuel ≡ some out))
waits_end_example = waits_end false silent late before 1 refl refl
