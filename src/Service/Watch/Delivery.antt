-- ===== src/Service/Watch/Delivery.antt =====
-- What a watcher of `WatchJob` has been sent when the handler returns (internal/service.go).
use easyworker.Base.{
  ℕ, ◌+◌, ◌≡◌, ◌∙◌, refl, sym, ap, ap₂, subst, subst, inl, inr, Bool, true, false, none, some, List,
  [], ◌∷◌, ◌++◌, map, Bytes, bytes_eq, length, Bool-cases,
}
use mathlib.Core.List.{append_assoc, append-nil, map-append}
use easyworker.Jobs.Row.{JobRow}
use easyworker.Jobs.Store.{query_job}
use easyworker.Jobs.Job.{Job, subscribe, result}
use easyworker.Jobs.Manager.{Manager, find_job, replay_tail}
use easyworker.Service.Watch.{
  Event, output, Ending, completed, send_failed, context_error, rejected, replay_cap, send_all,
  relay, send_done, followed_by, ending_of, watch_stored, watch_live, watch_job, row_event,
  result_event,
}

-- What a part may have sent of the events it has to send: all, if it completed, and else a first
-- stretch of them.
abbrev Sends : List Event × Ending → List Event → Type 0
Sends (sent, completed) due = sent ≡ due
Sends (sent, send_failed) due = (rest : List Event) × (sent ++ rest ≡ due)
Sends (sent, context_error) due = (rest : List Event) × (sent ++ rest ≡ due)
Sends (sent, rejected c) due = ⊥

-- All the lines and then the terminal event, or a first stretch of the lines alone.
abbrev pub Watched : List Event × Ending → List Bytes → Event → Type 0
Watched (sent, completed) lines e = sent ≡ map output lines ++ e ∷ []
Watched (sent, send_failed) lines e = (rest : List Event) × (sent ++ rest ≡ map output lines)
Watched (sent, context_error) lines e = (rest : List Event) × (sent ++ rest ≡ map output lines)
Watched (sent, rejected c) lines e = ⊥

Sends-cons :
    (e : Event) (sent : List Event) (ending : Ending) (due : List Event)
    → Sends (sent, ending) due
    → Sends (e ∷ sent, ending) (e ∷ due)
Sends-cons e sent completed due all = ap (λ es. e ∷ es) all
Sends-cons e sent send_failed due (rest, cut) = (rest, ap (λ es. e ∷ es) cut)
Sends-cons e sent context_error due (rest, cut) = (rest, ap (λ es. e ∷ es) cut)
Sends-cons e sent (rejected c) due impossible = impossible

send_all-Sends :
    (sends : ℕ → Bool) (i : ℕ) (events : List Event)
    → Sends (ending_of (send_all sends i events)) events
unfolding send_all
send_all-Sends sends i [] = refl
send_all-Sends sends i (e ∷ events) = elim (Bool-cases (sends i)) [
  | inl sent ↦
      rw (sent, send_all)
        (Sends-cons e (send_all sends (i + 1) events).0 _ events
          (send_all-Sends sends (i + 1) events))
  | inr lost ↦ rw (lost, send_all) (e ∷ events, refl)
]

relay-Sends :
    (sends gone : ℕ → Bool) (i : ℕ) (lines : List Bytes)
    → Sends (relay sends gone i lines) (map output lines)
unfolding relay
relay-Sends sends gone i [] = refl
relay-Sends sends gone i (l ∷ lines) = elim (Bool-cases (sends i)) [
  | inl sent ↦ elim (Bool-cases (gone i)) [
    | inl over ↦ rw (sent, over, relay) (map output lines, refl)
    | inr on ↦
        rw (sent, on, relay)
          (Sends-cons (output l) (relay sends gone (i + 1) lines).0 _ (map output lines)
            (relay-Sends sends gone (i + 1) lines))
  ]
  | inr lost ↦ rw (lost, relay) (map output (l ∷ lines), refl)
]

send_done-Watched : (sends : ℕ → Bool) (i : ℕ) (e : Event) → Watched (send_done sends i e) [] e
unfolding send_done
send_done-Watched sends i e = elim (Bool-cases (sends i)) [
  | inl sent ↦ rw (sent, send_done) refl
  | inr lost ↦ rw (lost, send_done) ([], refl)
]

whole :
    (sent sent' rest : List Event) (lines more : List Bytes)
    → sent ≡ map output lines
    → sent' ++ rest ≡ map output more
    → (sent ++ sent') ++ rest ≡ map output (lines ++ more)
whole sent sent' rest lines more all cut =
    append_assoc sent sent' rest ∙ ap₂ (λ a b. a ++ b) all cut ∙ sym (map-append output lines more)

part_of :
    (sent rest : List Event) (lines more : List Bytes)
    → sent ++ rest ≡ map output lines
    → sent ++ (rest ++ map output more) ≡ map output (lines ++ more)
part_of sent rest lines more cut =
    sym (append_assoc sent rest (map output more))
    ∙ ap (λ a. a ++ map output more) cut
    ∙ sym (map-append output lines more)

followed_by-Watched :
    (part next : List Event × Ending) (lines more : List Bytes) (e : Event)
    → Sends part (map output lines)
    → Watched next more e
    → Watched (followed_by part next) (lines ++ more) e
unfolding followed_by
followed_by-Watched (sent, completed) (sent', completed) lines more e all w =
    rw (all, w, map-append output lines more)
      (sym (append_assoc (map output lines) (map output more) (e ∷ [])))
followed_by-Watched (sent, completed) (sent', send_failed) lines more e all (rest, cut) =
    (rest, whole sent sent' rest lines more all cut)
followed_by-Watched (sent, completed) (sent', context_error) lines more e all (rest, cut) =
    (rest, whole sent sent' rest lines more all cut)
followed_by-Watched (sent, completed) (sent', rejected c) lines more e all w = w
followed_by-Watched (sent, send_failed) next lines more e (rest, cut) w =
    (rest ++ map output more, part_of sent rest lines more cut)
followed_by-Watched (sent, context_error) next lines more e (rest, cut) w =
    (rest ++ map output more, part_of sent rest lines more cut)
followed_by-Watched (sent, rejected c) next lines more e impossible w = impossible

-- For a job that is in memory: a watch that completes has sent the job's replay, then every line of the
-- channel, then exactly one terminal event, with the job's result after the channel's close. A watch
-- that a failed send or the request's context ends has sent a first stretch of those lines, and no
-- terminal event. No such watch is refused.
pub watch_job-Watched :
    (sends gone : ℕ → Bool) (read_ok row_ok : Bool) (id : Bytes) (m : Manager) (lines : List Bytes)
    (j after : Job)
    → bytes_eq id [] ≡ false
    → find_job id m.jobs ≡ some j
    → Watched
        (watch_job sends gone read_ok row_ok id m lines after)
        ((subscribe j).1 ++ lines)
        (result_event (result after))
unfolding watch_job watch_live
watch_job-Watched sends gone read_ok row_ok id m lines j after named found =
    let replay = (subscribe j).1 in
    let e = result_event (result after) in
    let done = send_done-Watched sends (length replay + length lines) e in
    let lived = relay sends gone (length replay) lines in
    let rest = followed_by lived (send_done sends (length replay + length lines) e) in
    let live =
      subst (λ ls. Watched rest ls e) (append-nil lines)
        (followed_by-Watched lived _ lines [] e (relay-Sends sends gone (length replay) lines)
          done) in
    rw (named, found, watch_job)
      (followed_by-Watched _ rest replay lines e (send_all-Sends sends 0 (map output replay)) live)

-- The same for a job that only the store knows: the last lines that the store has, then its row's exit
-- code and the tails of its two streams.
watch_job_stored :
    (sends gone : ℕ → Bool) (read_ok : Bool) (id : Bytes) (m : Manager) (lines : List Bytes)
    (r : JobRow) (after : Job)
    → bytes_eq id [] ≡ false
    → find_job id m.jobs ≡ none
    → query_job id m.store ≡ some r
    → Watched
        (watch_job sends gone read_ok true id m lines after)
        (replay_tail read_ok id replay_cap m)
        (row_event read_ok id m r)
unfolding watch_job watch_stored
watch_job_stored sends gone read_ok id m lines r after named absent kept =
    let replay = replay_tail read_ok id replay_cap m in
    let e = row_event read_ok id m r in
    let stored =
      followed_by-Watched _ _ replay [] e (send_all-Sends sends 0 (map output replay))
        (send_done-Watched sends (length replay) e) in
    rw (named, absent, kept, watch_job)
      (subst (λ ls. Watched (watch_stored sends replay e) ls e) (append-nil replay) stored)
