-- ===== src/Jobs/Manager/History.antt =====
-- The history of a job that runs (`readMerged` of internal/jobsvc/manager.go): the table and the
-- rings together give back the log of the job's lines, when the lines came to the store in the order of
-- their numbers.
use easyworker.Base.{
  ℕ, zero, suc, ◌+◌, ◌-◌, ◌≡◌, ◌≤◌, ◌<◌, ◌∙◌, refl, sym, ap, ap₂, subst, Bool, true, some, List, [],
  ◌∷◌, ◌++◌, arith, if◌then◌else◌, Bytes, length, length-append, All, All-of_append, keep, drop,
  drop-append, ℤ, pos, negsuc, inl, inr, Bool-cases, lt→ltb, ltb-false,
}
use mathlib.Core.List.{append-nil, Permᴰ}
use mathlib.Core.List.Permᴰ
use easyworker.Shell.LineBuffer.{LineRec, LineBuffer}
use easyworker.Shell.LineBuffer.Ring.{Window}
use easyworker.Jobs.Row.{StoreLine, selected, matching, sort_seq, select_lines}
use easyworker.Jobs.Store.{Store, query_lines}
use easyworker.Jobs.Store.Held.{Numbered, of_job, held, waiting}
use easyworker.Jobs.Store.Permuted.{Distinct-Perm, Numbered-Distinct, sort-Perm}
use easyworker.Jobs.Store.Parted.{length-Perm, log_parts}
use easyworker.Jobs.Job.{Job}
use easyworker.Jobs.Job.Logged.{Logged}
use easyworker.Jobs.Manager.{Manager, find_job, highest_seq, wants, newer, mem_suffix, read_merged}
use easyworker.Jobs.Manager.Merge.{
  Own, Streams, Above, part, matching-Above, matching-append, matching-of_job, sort_matching,
  merge-Streams,
}

abbrev pub Upto : ℕ → List LineRec → Type 0
Upto h = All λ r. r.seq ≤ h

pub Numbered-of_append :
    (n : ℕ) (xs ys : List StoreLine)
    → Numbered n (xs ++ ys)
    → Numbered n xs × Numbered (n + length xs) ys
Numbered-of_append n [] ys c = (tt, subst (λ m. Numbered m ys) (omega arith) c)
Numbered-of_append n (x ∷ xs) ys c =
    let (cx, cy) = Numbered-of_append (n + 1) xs ys c.1 in
    ((c.0, cx), subst (λ m. Numbered m ys) (omega arith) cy)

keep-newer_old : (h d : ℕ) (recs : List LineRec) → Upto h recs → keep (newer h) (drop d recs) ≡ []
keep-newer_old h zero [] u = refl
keep-newer_old h (suc d) [] u = refl
keep-newer_old h zero (r ∷ recs) u = rw (ltb-false h r.seq u.0) (keep-newer_old h zero recs u.1)
keep-newer_old h (suc d) (r ∷ recs) u = keep-newer_old h d recs u.1

keep-newer_new : (h : ℕ) (recs : List LineRec) → Above h recs → keep (newer h) recs ≡ recs
keep-newer_new h [] a = refl
keep-newer_new h (r ∷ recs) a =
    rw (lt→ltb h r.seq a.0) (ap (λ t. r ∷ t) (keep-newer_new h recs a.1))

keep-append :
    (p : LineRec → Bool) (xs ys : List LineRec) → keep p (xs ++ ys) ≡ keep p xs ++ keep p ys
keep-append p [] ys = refl
keep-append p (x ∷ xs) ys = ground (arith, keep-append p xs ys)

-- What a ring has beyond the number `h`, when the lines beyond it still fit.
pub newer-Window :
    (h : ℕ) (lb : LineBuffer) (old new : List LineRec)
    → Window lb (old ++ new)
    → length new ≤ lb.max_lines
    → Upto h old
    → Above h new
    → keep (newer h) lb.recs ≡ new
newer-Window h lb old new w fits u a =
    let d = length (old ++ new) - lb.max_lines in
    ap (keep (newer h)) (w.newest ∙ drop-append d old new (omega (arith, length-append old new)))
    ∙ (keep-append (newer h) (drop d old) new
        ∙ ap₂ (λ s t. s ++ t) (keep-newer_old h d old u) (keep-newer_new h new a))

highest_le :
    (id : Bytes) (stream : ℤ) (n : ℕ) (log : List StoreLine)
    → Numbered n log
    → highest_seq (matching id stream log) ≤ n + length log
unfolding matching highest_seq
highest_le id stream n [] c = omega arith
highest_le id stream n (l ∷ log) c =
    let rest = highest_le id stream (n + 1) log c.1 in
    elim (Bool-cases (selected id stream l)) [
      | inl hit ↦ rw (hit, matching) (omega (arith, rest, c.0))
      | inr miss ↦ rw (miss, matching) (omega (arith, rest))
    ]

Upto-weaken : (n m : ℕ) (recs : List LineRec) → n ≤ m → Upto n recs → Upto m recs
Upto-weaken n m [] le u = tt
Upto-weaken n m (r ∷ recs) le u = (omega (arith, u.0), Upto-weaken n m recs le u.1)

pub selected_wanted :
    (id : Bytes) (stream : ℤ) (k : ℕ) (l : StoreLine)
    → wants stream k ≡ true
    → selected id (pos k) l ≡ true
    → selected id stream l ≡ true
selected_wanted id (pos s) k l wanted hit = ground (arith)
selected_wanted id (negsuc s) k l wanted hit = ground (arith)

pub length-matching :
    (id : Bytes) (stream : ℤ) (log : List StoreLine) → length (matching id stream log) ≤ length log
unfolding matching
length-matching id stream [] = omega arith
length-matching id stream (l ∷ log) = let rest = length-matching id stream log in ground (arith)

highest-grows :
    (id : Bytes) (stream : ℤ) (l : StoreLine) (log : List StoreLine)
    → let h = highest_seq (matching id stream (l ∷ log)) in
      (highest_seq (matching id stream log) ≤ h) × (selected id stream l ≡ true → l.seq ≤ h)
unfolding matching highest_seq
highest-grows id stream l log = elim (Bool-cases (selected id stream l)) [
  | inl hit ↦ rw (hit, matching, highest_seq) (omega arith, λ e. omega arith)
  | inr miss ↦ rw (miss, matching) (omega arith, λ e. absurd (cc))
]

matching-Upto :
    (id : Bytes) (stream : ℤ) (h : ℕ) (l : StoreLine) (log : List StoreLine)
    → (selected id stream l ≡ true → l.seq ≤ h)
    → Upto h (matching id stream log)
    → Upto h (matching id stream (l ∷ log))
unfolding matching
matching-Upto id stream h l log le u = elim (Bool-cases (selected id stream l)) [
  | inl hit ↦ rw (hit, matching) (le hit, u)
  | inr miss ↦ rw (miss, matching) u
]

-- No line of a stream that the reader wants is beyond the highest number that was read.
stream-Upto :
    (id : Bytes) (stream : ℤ) (k : ℕ) (log : List StoreLine)
    → wants stream k ≡ true
    → Upto (highest_seq (matching id stream log)) (matching id (pos k) log)
unfolding matching
stream-Upto id stream k [] wanted = tt
stream-Upto id stream k (l ∷ log) wanted =
    let (grows, reads) = highest-grows id stream l log in
    matching-Upto id (pos k) (highest_seq (matching id stream (l ∷ log))) l log
      (λ hit. reads (selected_wanted id stream k l wanted hit))
      (Upto-weaken _ _ (matching id (pos k) log) grows (stream-Upto id stream k log wanted))

-- What a reader who waits for the lines beyond the table takes from one ring.
ring_part :
    (id : Bytes) (stream : ℤ) (k : ℕ) (lb : LineBuffer) (stored pending : List StoreLine)
    → Numbered 0 (stored ++ pending)
    → Window lb (matching id (pos k) (stored ++ pending))
    → length pending ≤ lb.max_lines
    → (if wants stream k
        then keep (newer (highest_seq (matching id stream stored))) lb.recs
        else [])
      ≡ part id stream k pending
ring_part id stream k lb stored pending c w fits =
    let (old, new) = Numbered-of_append 0 stored pending c in
    let h = highest_seq (matching id stream stored) in
    let le : h ≤ length stored = omega (arith, highest_le id stream 0 stored old) in
    elim (Bool-cases (wants stream k)) [
      | inl wanted ↦ rw wanted (
          newer-Window h lb (matching id (pos k) stored) (matching id (pos k) pending)
            (subst (Window lb) (matching-append id (pos k) stored pending) w)
            (omega (arith, length-matching id (pos k) pending, fits))
            (stream-Upto id stream k stored wanted)
            (matching-Above id (pos k) h (0 + length stored) pending (omega arith) new))
      | inr unwanted ↦ rw unwanted refl
    ]

-- What the memory adds to the table is what the table does not have yet.
mem_suffix-pending :
    (id : Bytes) (stream : ℤ) (j : Job) (stored pending : List StoreLine)
    → Numbered 0 (stored ++ pending)
    → Own id (stored ++ pending)
    → Streams (stored ++ pending)
    → Window j.stdout (matching id (pos 0) (stored ++ pending))
    → Window j.stderr (matching id (pos 1) (stored ++ pending))
    → length pending ≤ j.stdout.max_lines
    → length pending ≤ j.stderr.max_lines
    → mem_suffix stream (highest_seq (matching id stream stored)) j ≡ matching id stream pending
unfolding mem_suffix
mem_suffix-pending id stream j stored pending c own two wo we fo fe =
    ap₂ (λ a b. sort_seq (a ++ b)) (ring_part id stream 0 j.stdout stored pending c wo fo)
      (ring_part id stream 1 j.stderr stored pending c we fe)
    ∙ merge-Streams id stream (0 + length stored) pending (All-of_append _ stored pending own).1
        (All-of_append _ stored pending two).1 (Numbered-of_append 0 stored pending c).1

-- The table's lines of a job, sorted.
pub query_lines-stored :
    (id : Bytes) (stream : ℤ) (s : Store)
    → query_lines id stream s ≡ sort_seq (matching id stream (of_job id s.lines))
unfolding query_lines select_lines
query_lines-stored id stream s = ap sort_seq (sym (matching-of_job id stream s.lines))

-- A table that has the lines of a log, in any order, answers the log.
pub query_lines-log :
    (id : Bytes) (stream : ℤ) (s : Store) (log : List StoreLine)
    → Numbered 0 log
    → Permᴰ (of_job id s.lines) log
    → query_lines id stream s ≡ matching id stream log
query_lines-log id stream s log c p =
    query_lines-stored id stream s
    ∙ (sort-Perm id stream p (Distinct-Perm (Permᴰ.symm p) (Numbered-Distinct 0 log c))
        ∙ sort_matching id stream 0 log c)

pub read_merged_live :
    (stream : ℤ) (m : Manager) (j : Job)
    → find_job j.id m.jobs ≡ some j
    → let persisted = query_lines j.id stream m.store in
      read_merged j.id stream m ≡ persisted ++ mem_suffix stream (highest_seq persisted) j
unfolding read_merged
read_merged_live stream m j found = rw (found, read_merged) refl

-- A history whose table ends where the rest of the log begins.
read_merged-parts :
    (stream : ℤ) (m : Manager) (j : Job) (old new : List StoreLine)
    → find_job j.id m.jobs ≡ some j
    → Numbered 0 (old ++ new)
    → Own j.id (old ++ new)
    → Streams (old ++ new)
    → Window j.stdout (matching j.id (pos 0) (old ++ new))
    → Window j.stderr (matching j.id (pos 1) (old ++ new))
    → Permᴰ (of_job j.id m.store.lines) old
    → length new ≤ j.stdout.max_lines
    → length new ≤ j.stderr.max_lines
    → read_merged j.id stream m ≡ matching j.id stream (old ++ new)
read_merged-parts stream m j old new found c own two wo we p fits_out fits_err =
    let stored = query_lines-log j.id stream m.store old (Numbered-of_append 0 old new c).0 p in
    let suffix = mem_suffix-pending j.id stream j old new c own two wo we fits_out fits_err in
    read_merged_live stream m j found
    ∙ (ap (λ t. t ++ mem_suffix stream (highest_seq t) j) stored
        ∙ (ap (λ t. matching j.id stream old ++ t) suffix
            ∙ sym (matching-append j.id stream old new)))

-- The history of a job, of one stream or of both, is its log, when no callback is to come and the
-- lines of the table have lower numbers than those that wait.
pub read_merged-log :
    (stream : ℤ) (m : Manager) (j : Job) (out err : Bytes) (log : List StoreLine) (n : ℕ)
    → find_job j.id m.jobs ≡ some j
    → Logged out err log j m.store
    → m.store.dropped ≡ 0
    → j.calling ≡ []
    → All (λ l. l.seq ≤ n) (of_job j.id m.store.lines)
    → All (λ l. n < l.seq) (of_job j.id (waiting m.store))
    → length (of_job j.id (waiting m.store)) ≤ j.stdout.max_lines
    → length (of_job j.id (waiting m.store)) ≤ j.stderr.max_lines
    → read_merged j.id stream m ≡ matching j.id stream log
read_merged-log stream m j out err log n found h z quiet below above fits_out fits_err =
    let all : Permᴰ (held j.id m.store) log =
      subst (λ t. Permᴰ t log)
        (ap (λ t. held j.id m.store ++ t) quiet ∙ append-nil (held j.id m.store))
        (h.entered.stored z) in
    let (old, new, cut, stored, pending) =
      log_parts n (of_job j.id m.store.lines) (of_job j.id (waiting m.store)) log below above
        h.entered.numbered all in
    let size = length-Perm pending in
    read_merged-parts stream m j old new found (subst (Numbered 0) (sym cut) h.entered.numbered)
      (subst (Own j.id) (sym cut) h.entered.own) (subst Streams (sym cut) h.entered.streams)
      (subst (λ l. Window j.stdout (matching j.id (pos 0) l)) (sym cut) h.stdout.window)
      (subst (λ l. Window j.stderr (matching j.id (pos 1) l)) (sym cut) h.stderr.window) stored
      (omega (arith, size, fits_out)) (omega (arith, size, fits_err))
    ∙ ap (matching j.id stream) cut
