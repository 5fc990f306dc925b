-- ===== src/Service/Watch.antt =====
-- `WatchJob` of internal/service.go: what it sends, and how it ends.
pub mod Delivery
use easyworker.Base.{
  ℕ, ◌+◌, ◌≡◌, ◌∙◌, refl, sym, ap, ap₂, subst, subst, inl, inr, Bool, true, false, Option, none,
  some, List, [], ◌∷◌, ◌++◌, map, if◌then◌else◌, Bytes, bytes_eq, length, pos, Bool-cases,
}
use mathlib.Core.List.{append_assoc, append-nil, map-append}
use easyworker.Rpc.{Code, invalid_argument, not_found}
use easyworker.Jobs.Row.{JobRow, stream_stdout, stream_stderr}
use easyworker.Jobs.Store.{query_job}
use easyworker.Jobs.Job.{Job, Result, subscribe, result}
use easyworker.Jobs.Manager.{Manager, find_job, replay_tail}
use easyworker.Service.{tail_of}

pub data Event : Type 0 where
  output : Bytes → Event
  -- exit code, stdout, stderr
  finished : ℕ → Bytes → Bytes → Event

-- How the handler returns.
pub data Ending : Type 0 where
  completed send_failed context_error : Ending
  rejected : Code → Ending

abbrev pub replay_cap : ℕ
replay_cap = 1000

-- Sends in order until one fails: what was sent, and whether all were. `sends` says which succeed.
unfoldable pub send_all : (ℕ → Bool) → ℕ → List Event → List Event × Bool
send_all sends i [] = ([], true)
send_all sends i (e ∷ events) =
    let rest = send_all sends (i + 1) events in
    if sends i then (e ∷ rest.0, rest.1) else ([], false)

-- The loop over the channel, up to its close. `gone` says at which line the context is found ended.
unfoldable pub relay : (ℕ → Bool) → (ℕ → Bool) → ℕ → List Bytes → List Event × Ending
relay sends gone i [] = ([], completed)
relay sends gone i (l ∷ lines) =
    let rest = relay sends gone (i + 1) lines in
    if sends i
    then (if gone i then (output l ∷ [], context_error) else (output l ∷ rest.0, rest.1))
    else ([], send_failed)

-- The terminal event.
send_done : (ℕ → Bool) → ℕ → Event → List Event × Ending
send_done sends i e = if sends i then (e ∷ [], completed) else ([], send_failed)

-- One part, and the next if the first completed.
followed_by : List Event × Ending → List Event × Ending → List Event × Ending
followed_by (sent, completed) rest = (sent ++ rest.0, rest.1)
followed_by (sent, send_failed) rest = (sent, send_failed)
followed_by (sent, context_error) rest = (sent, context_error)
followed_by (sent, rejected c) rest = (sent, rejected c)

abbrev ending_of : List Event × Bool → List Event × Ending
ending_of (sent, ok') = (sent, if ok' then completed else send_failed)

-- The path of a job that is not in memory.
unfoldable pub watch_stored : (ℕ → Bool) → List Bytes → Event → List Event × Ending
unfolding send_done followed_by
watch_stored sends replay e =
    followed_by (ending_of (send_all sends 0 (map output replay)))
      (send_done sends (length replay) e)

-- The path of a job in memory, whose channel gave these lines and was closed.
unfoldable pub watch_live :
    (ℕ → Bool) → (ℕ → Bool) → List Bytes → List Bytes → Event → List Event × Ending
unfolding send_done followed_by
watch_live sends gone replay lines e =
    followed_by (ending_of (send_all sends 0 (map output replay))) (
      followed_by (relay sends gone (length replay) lines)
        (send_done sends (length replay + length lines) e))

abbrev pub row_event : Bool → Bytes → Manager → JobRow → Event
row_event read_ok id m r =
    finished r.exit_code (tail_of read_ok id (pos stream_stdout) m)
      (tail_of read_ok id (pos stream_stderr) m)

abbrev pub result_event : Result → Event
result_event r = finished r.exit_code r.stdout r.stderr

watch_row : (ℕ → Bool) → Bool → Bytes → Manager → Option JobRow → List Event × Ending
unfolding watch_stored
watch_row sends read_ok id m none = ([], rejected not_found)
watch_row sends read_ok id m (some r) =
    watch_stored sends (replay_tail read_ok id replay_cap m) (row_event read_ok id m r)

watch_found :
    (ℕ → Bool)
    → (ℕ → Bool)
    → Bool
    → Bool
    → Bytes
    → Manager
    → List Bytes
    → Job
    → Option Job
    → List Event × Ending
unfolding watch_row watch_live
watch_found sends gone read_ok row_ok id m lines after none =
    watch_row sends read_ok id m (if row_ok then query_job id m.store else none)
watch_found sends gone read_ok row_ok id m lines after (some j) =
    watch_live sends gone (subscribe j).1 lines (result_event (result after))

-- `WatchJob`. `lines` are what the channel gives until it is closed, none for the nil channel, and
-- `after` is the job then. `read_ok` and `row_ok` say whether the store's queries succeed.
unfoldable pub watch_job :
    (ℕ → Bool) → (ℕ → Bool) → Bool → Bool → Bytes → Manager → List Bytes → Job → List Event × Ending
unfolding watch_found
watch_job sends gone read_ok row_ok id m lines after =
    if bytes_eq id []
    then ([], rejected invalid_argument)
    else watch_found sends gone read_ok row_ok id m lines after (find_job id m.jobs)
