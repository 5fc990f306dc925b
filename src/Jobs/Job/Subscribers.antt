-- ===== src/Jobs/Job/Subscribers.antt =====
-- Who is told that a job has ended (`Subscribe`, `publishLine` and `finishSubs` of
-- internal/jobsvc/manager.go), over every interleaving of the job's goroutine with its watchers.
use easyworker.Base.{
  ℕ, ◌≡◌, ◌∙◌, refl, ◌⊎◌, inl, inr, Bool, true, false, some, [], ◌∷◌, ◌++◌, arith, length,
  Bool-cases,
}
use easyworker.Jobs.Store.{Store}
use easyworker.Jobs.Job.{
  Job, active, finalized, subs_finished, ended, RunResult, finalize, finish_subs, close_done,
  subscribe, kill, is_ended, new_channel,
}
use easyworker.Jobs.Job.Steps.{
  Step, Reach, Has, Has-append, Has-new, Has-receive_at, Has-finish, Same, write_stdout-Same,
  write_stderr-Same, call_back-Same, finalize-Has, outputs, complains, calls_back, finalizes,
  finishes_subs, closes_done, subscribes, receives, kills, here, next,
}

-- A watcher that came before finishSubs: listed and open until then, closed from then on.
abbrev Early : ℕ → Job → Type 0
Early i j =
    (((j.stage ≡ active) ⊎ (j.stage ≡ finalized)) × Has i false true j.channels)
    ⊎ (((j.stage ≡ subs_finished) ⊎ (j.stage ≡ ended)) × Has i true false j.channels)

-- A watcher that came after it.
abbrev Late : ℕ → Job → Type 0
Late i j = ((j.stage ≡ subs_finished) ⊎ (j.stage ≡ ended)) × Has i false true j.channels

subscribe-Same : (i : ℕ) (b l : Bool) (j : Job) → Same i b l j (subscribe j).0
unfolding subscribe
subscribe-Same i b l j = elim (Bool-cases (is_ended j.stage)) [
  | inl over ↦ rw (over, subscribe) (record { stage = refl; keeps = λ h. h })
  | inr on ↦
      rw (on, subscribe)
        (record { stage = refl; keeps = λ h. Has-append i b l j.channels (new_channel ∷ []) h })
]

-- A step that keeps the stage and the channels keeps where a watcher stands.
Early-keeps :
    (i : ℕ) (j k : Job) → Same i false true j k → Same i true false j k → Early i j → Early i k
Early-keeps i j k opened shut (inl (inl a, has)) = inl (inl (opened.stage ∙ a), opened.keeps has)
Early-keeps i j k opened shut (inl (inr f, has)) = inl (inr (opened.stage ∙ f), opened.keeps has)
Early-keeps i j k opened shut (inr (inl f, has)) = inr (inl (shut.stage ∙ f), shut.keeps has)
Early-keeps i j k opened shut (inr (inr e, has)) = inr (inr (shut.stage ∙ e), shut.keeps has)

Late-keeps : (i : ℕ) (j k : Job) → Same i false true j k → Late i j → Late i k
Late-keeps i j k same (inl f, has) = (inl (same.stage ∙ f), same.keeps has)
Late-keeps i j k same (inr e, has) = (inr (same.stage ∙ e), same.keeps has)

finalize-Early :
    (i : ℕ) (r : RunResult) (now : ℕ) (j : Job) (s : Store)
    → j.stage ≡ active
    → Early i j
    → Early i (finalize r now j s).0
finalize-Early i r now j s run (inl (before, has)) =
    let (stage, keeps) = finalize-Has i false true r now j s in inl (inr stage, keeps has)
finalize-Early i r now j s run (inr (after, has)) = absurd (ground arith)

Step-Early : {j k : Job} (i : ℕ) → Step j k → Early i j → Early i k
unfolding finish_subs close_done kill
Step-Early i (outputs j p run) h =
    Early-keeps i j _ (write_stdout-Same i false true p j) (write_stdout-Same i true false p j) h
Step-Early i (complains j p run) h =
    Early-keeps i j _ (write_stderr-Same i false true p j) (write_stderr-Same i true false p j) h
Step-Early i (calls_back j s l before after at) h =
    Early-keeps i j _ (call_back-Same i false true l (before ++ after) j s)
      (call_back-Same i true false l (before ++ after) j s) h
Step-Early i (finalizes j s r now run) h = finalize-Early i r now j s run h
Step-Early i (finishes_subs j at) (inl (before, has)) = inr (inl refl, Has-finish i j.channels has)
Step-Early i (finishes_subs j at) (inr (after, has)) = absurd (ground arith)
Step-Early i (closes_done j at) (inl (before, has)) = absurd (ground arith)
Step-Early i (closes_done j at) (inr (after, has)) = inr (inr refl, has)
Step-Early i (subscribes j) h =
    Early-keeps i j _ (subscribe-Same i false true j) (subscribe-Same i true false j) h
Step-Early i (receives j k) (inl (before, has)) =
    inl (before, Has-receive_at k i false true j.channels has)
Step-Early i (receives j k) (inr (after, has)) =
    inr (after, Has-receive_at k i true false j.channels has)
Step-Early i (kills j) h = h

Step-Late : {j k : Job} (i : ℕ) → Step j k → Late i j → Late i k
unfolding finish_subs close_done kill
Step-Late i (outputs j p run) h = Late-keeps i j _ (write_stdout-Same i false true p j) h
Step-Late i (complains j p run) h = Late-keeps i j _ (write_stderr-Same i false true p j) h
Step-Late i (calls_back j s l before after at) h =
    Late-keeps i j _ (call_back-Same i false true l (before ++ after) j s) h
Step-Late i (finalizes j s r now run) (after, has) = absurd (ground arith)
Step-Late i (finishes_subs j at) (after, has) = absurd (ground arith)
Step-Late i (closes_done j at) (after, has) = (inr refl, has)
Step-Late i (subscribes j) h = Late-keeps i j _ (subscribe-Same i false true j) h
Step-Late i (receives j k) (after, has) = (after, Has-receive_at k i false true j.channels has)
Step-Late i (kills j) h = h

Reach-Early : {j k : Job} (i : ℕ) → Reach j k → Early i j → Early i k
Reach-Early i here h = h
Reach-Early i (next r st) h = Step-Early i st (Reach-Early i r h)

Reach-Late : {j k : Job} (i : ℕ) → Reach j k → Late i j → Late i k
Reach-Late i here h = h
Reach-Late i (next r st) h = Step-Late i st (Reach-Late i r h)

subscribe_opens :
    (j : Job)
    → is_ended j.stage ≡ false
    → ((subscribe j).2 ≡ some (length j.channels))
      × ((subscribe j).0.stage ≡ j.stage)
      × Has (length j.channels) false true (subscribe j).0.channels
unfolding subscribe
subscribe_opens j on = rw (on, subscribe) (refl, refl, Has-new j.channels new_channel)

Early-ended : (i : ℕ) (j : Job) → j.stage ≡ ended → Early i j → Has i true false j.channels
Early-ended i j over (inl (before, has)) = absurd (ground arith)
Early-ended i j over (inr (after, has)) = has

-- A watcher that subscribes before finishSubs is told of the end: it gets a channel, and that channel
-- is closed in every state that is reached after the job's `done` was closed.
pub early_watcher_ends :
    (j k : Job)
    → (j.stage ≡ active) ⊎ (j.stage ≡ finalized)
    → Reach (subscribe j).0 k
    → k.stage ≡ ended
    → ((subscribe j).2 ≡ some (length j.channels)) × Has (length j.channels) true false k.channels
early_watcher_ends j k before r over =
    let (number, stage, has) = subscribe_opens j (ground arith) in
    let early : Early (length j.channels) (subscribe j).0 = inl (rw stage before, has) in
    (number, Early-ended _ k over (Reach-Early (length j.channels) r early))

-- A watcher that subscribes between finishSubs and the close of `done` waits for ever: it gets a
-- channel that no reachable step closes, also after the job's `done` is closed.
pub late_watcher_waits :
    (j k : Job)
    → j.stage ≡ subs_finished
    → Reach (subscribe j).0 k
    → ((subscribe j).2 ≡ some (length j.channels)) × Has (length j.channels) false true k.channels
late_watcher_waits j k at r =
    let (number, stage, has) = subscribe_opens j (ground arith) in
    (number, (Reach-Late (length j.channels) r (inl (stage ∙ at), has)).1)
