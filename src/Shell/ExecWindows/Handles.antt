-- ===== src/Shell/ExecWindows/Handles.antt =====
-- What becomes of a job object's handle (internal/shellh/exec_windows.go).
use easyworker.Base.{
  ℕ, ◌+◌, ◌≡◌, ◌≢◌, refl, ap, ◌⊎◌, inl, inr, Bool, true, false, Option, none, some, List, [], ◌∷◌,
  ◌++◌, arith, ◌==◌, if◌then◌else◌, Bool-cases,
}
use easyworker.Shell.ExecWindows.{
  TreeHandle, Call, closes, terminates, task_kills, System, Attaching, new_tree_handle,
  unregister_job, register_job, registered, attach, assign_process, open_process, create_job, close,
  kill_all_handle,
}

-- How often a handle is closed.
abbrev pub closings : ℕ → List Call → ℕ
closings h [] = 0
closings h (closes k ∷ cs) = (if k == h then 1 else 0) + closings h cs
closings h (terminates k ∷ cs) = closings h cs
closings h (task_kills p ∷ cs) = closings h cs

closings-append :
    (h : ℕ) (cs ds : List Call) → closings h (cs ++ ds) ≡ closings h cs + closings h ds
closings-append h [] ds = omega arith
closings-append h (closes k ∷ cs) ds = omega (arith, closings-append h cs ds)
closings-append h (terminates k ∷ cs) ds = closings-append h cs ds
closings-append h (task_kills p ∷ cs) ds = closings-append h cs ds

registered-unregister : (p : ℕ) (jobs : List (ℕ × ℕ)) → registered p (unregister_job p jobs) ≡ none
unfolding registered unregister_job
registered-unregister p [] = refl
registered-unregister p ((q, h) ∷ jobs) = ground (arith, registered-unregister p jobs)

-- What is left of an attach: an error and a handle that was closed once more, or a handle that the tree
-- and the registry have.
abbrev pub Attached : ℕ → ℕ → System → TreeHandle → System → Bool → Type 0
Attached pid job s h s' ok' =
    ((ok' ≡ false) × (h.has_job ≡ false) × (closings job s'.calls ≡ closings job s.calls + 1))
    ⊎ ((ok' ≡ true)
        × (h.has_job ≡ true)
        × (h.job ≡ job)
        × (closings job s'.calls ≡ closings job s.calls)
        × (registered pid s'.jobs ≡ some job))

assign-Attached :
    (assigned : Bool) (job p : ℕ) (h : TreeHandle) (s : System)
    → h.has_job ≡ false
    → p ≢ job
    → let (h', s', ok') = assign_process assigned job p h s in Attached h.pid job s h' s' ok'
unfolding assign_process registered register_job
assign-Attached true job p h s n ne = inr (
  refl,
  refl,
  refl,
  ground (arith, closings-append job s.calls (closes p ∷ []), ne),
  ground arith,
)
assign-Attached false job p h s n ne =
    inl (refl, n, ground (arith, closings-append job s.calls (closes job ∷ closes p ∷ []), ne))

open-Attached :
    (o : Option ℕ) (assigned : Bool) (job : ℕ) (h : TreeHandle) (s : System)
    → h.has_job ≡ false
    → o ≢ some job
    → let (h', s', ok') = open_process o assigned job h s in Attached h.pid job s h' s' ok'
unfolding open_process
open-Attached none assigned job h s n ne =
    inl (refl, n, ground (arith, closings-append job s.calls (closes job ∷ [])))
open-Attached (some p) assigned job h s n ne =
    assign-Attached assigned job p h s n (λ e. ne (ap some e))

create_job-Attached :
    (job : ℕ) (a : Attaching) (h : TreeHandle) (s : System)
    → h.has_job ≡ false
    → a.open_process ≢ some job
    → let (h', s', ok') = create_job (some job) a h s in Attached h.pid job s h' s' ok'
unfolding create_job
create_job-Attached job a h s n ne = elim (Bool-cases a.set_info) [
  | inl set ↦ rw set (open-Attached a.open_process a.assign job h s n ne)
  | inr unset ↦
      rw unset (inl (refl, n, ground (arith, closings-append job s.calls (closes job ∷ []))))
]

twice :
    (h : TreeHandle) (s : System)
    → closings h.job ((s.calls ++ (terminates h.job ∷ closes h.job ∷ [])) ++ closes h.job ∷ [])
      ≡ closings h.job s.calls + 2
twice h s = ground (
  arith,
  closings-append h.job (s.calls ++ (terminates h.job ∷ closes h.job ∷ [])) (closes h.job ∷ []),
  closings-append h.job s.calls (terminates h.job ∷ closes h.job ∷ []),
)

-- An attach never leaks its job object: where it fails after the handle was created, the handle is
-- closed once more than before and the tree has none; where it succeeds, the handle is as often closed
-- as before, the tree has it, and KillAll finds it. The handle of the process is another one.
pub attach_lem :
    (a : Attaching) (pid job : ℕ) (s : System)
    → a.create ≡ some job
    → a.open_process ≢ some job
    → let (h, s', ok') = attach a pid new_tree_handle s in Attached pid job s h s' ok'
unfolding attach
attach_lem a pid job s c ne =
    rw (c, create_job) (create_job-Attached job a (record new_tree_handle { pid = pid }) s refl ne)

-- A command that KillAll ends has its job object closed twice: killAllHandle closes the handle, and
-- the handler's own `close` closes it again.
pub killed_closes_twice :
    (h : TreeHandle) (s : System)
    → h.has_job ≡ true
    → registered h.pid s.jobs ≡ some h.job
    → closings h.job (close h (kill_all_handle h.pid s)).1.calls ≡ closings h.job s.calls + 2
unfolding close kill_all_handle
killed_closes_twice h s j r = elim (Bool-cases (h.pid == 0)) [
  | inl z ↦ rw (j, r, z, close, kill_all_handle) (twice h s)
  | inr p ↦ rw (j, r, p, close, kill_all_handle) (twice h s)
]
