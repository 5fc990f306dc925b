-- ===== src/Jobs/Manager/Merge.antt =====
-- The merge of the two streams of a job (`readMerged` of internal/jobsvc/manager.go) against the log
-- of its lines.
use easyworker.Base.{
  ℕ, ◌+◌, ◌≡◌, ◌⊎◌, ◌≤◌, ◌<◌, ◌∙◌, refl, sym, ap, ap₂, true, false, ◌==◌, List, [], ◌∷◌, ◌++◌,
  arith, leb, if◌then◌else◌, Bytes, bytes_eq, All, All-append, ℤ, pos, negsuc, inl, inr, Bool-cases,
}
use easyworker.Shell.LineBuffer.{LineRec}
use easyworker.Jobs.Row.{
  StoreLine, rec_of, in_stream, selected, matching, sort_seq, insert_seq, stream_stdout,
  stream_stderr,
}
use easyworker.Jobs.Store.Held.{Numbered, of_job}
use easyworker.Jobs.Manager.{wants}

abbrev pub Own : Bytes → List StoreLine → Type 0
Own id = All λ l. bytes_eq l.job_id id ≡ true

-- A line is one of the two streams'.
abbrev pub Streams : List StoreLine → Type 0
Streams = All λ l. (l.stream ≡ stream_stdout) ⊎ (l.stream ≡ stream_stderr)

abbrev pub Above : ℕ → List LineRec → Type 0
Above n = All λ r. n < r.seq

abbrev pub Strict : List LineRec → Type 0
Strict [] = Unit {0}
Strict (r ∷ recs) = Above r.seq recs × Strict recs

pub Above-weaken : (n m : ℕ) (recs : List LineRec) → n ≤ m → Above m recs → Above n recs
Above-weaken n m [] le h = tt
Above-weaken n m (r ∷ recs) le h = (omega (arith, h.0), Above-weaken n m recs le h.1)

insert_front : (r : LineRec) (recs : List LineRec) → Above r.seq recs → insert_seq r recs ≡ r ∷ recs
unfolding insert_seq
insert_front r [] h = refl
insert_front r (s ∷ recs) h = ground arith

insert_behind :
    (r s : LineRec) (recs : List LineRec)
    → s.seq < r.seq
    → insert_seq r (s ∷ recs) ≡ s ∷ insert_seq r recs
unfolding insert_seq
insert_behind r s recs h = ground arith

Above-insert :
    (n : ℕ) (r : LineRec) (recs : List LineRec)
    → n < r.seq
    → Above n recs
    → Above n (insert_seq r recs)
unfolding insert_seq
Above-insert n r [] le h = (le, tt)
Above-insert n r (s ∷ recs) le h = elim (Bool-cases (leb r.seq s.seq)) [
  | inl front ↦ rw (front, insert_seq) (le, h)
  | inr later ↦ rw (later, insert_seq) (h.0, Above-insert n r recs le h.1)
]

pub Above-sort : (n : ℕ) (recs : List LineRec) → Above n recs → Above n (sort_seq recs)
unfolding sort_seq
Above-sort n [] h = tt
Above-sort n (r ∷ recs) h = Above-insert n r (sort_seq recs) h.0 (Above-sort n recs h.1)

-- The least line of all stands first, wherever it stood.
sort_least :
    (r : LineRec) (xs ys : List LineRec)
    → Above r.seq xs
    → Above r.seq ys
    → sort_seq (xs ++ (r ∷ ys)) ≡ r ∷ sort_seq (xs ++ ys)
unfolding sort_seq
sort_least r [] ys hx hy = insert_front r (sort_seq ys) (Above-sort r.seq ys hy)
sort_least r (x ∷ xs) ys hx hy =
    ap (insert_seq x) (sort_least r xs ys hx.1 hy) ∙ insert_behind x r (sort_seq (xs ++ ys)) hx.0

pub sort-Strict : (recs : List LineRec) → Strict recs → sort_seq recs ≡ recs
unfolding sort_seq
sort-Strict [] h = refl
sort-Strict (r ∷ recs) h = ap (insert_seq r) (sort-Strict recs h.1) ∙ insert_front r recs h.0

matching-hit :
    (id : Bytes) (stream : ℤ) (l : StoreLine) (log : List StoreLine)
    → bytes_eq l.job_id id ≡ true
    → in_stream stream l.stream ≡ true
    → matching id stream (l ∷ log) ≡ rec_of l ∷ matching id stream log
unfolding matching
matching-hit id stream l log own h = rw (own, h) refl

matching-miss :
    (id : Bytes) (stream : ℤ) (l : StoreLine) (log : List StoreLine)
    → bytes_eq l.job_id id ≡ true
    → in_stream stream l.stream ≡ false
    → matching id stream (l ∷ log) ≡ matching id stream log
unfolding matching
matching-miss id stream l log own h = rw (own, h) refl

pub matching-append :
    (id : Bytes) (stream : ℤ) (xs ys : List StoreLine)
    → matching id stream (xs ++ ys) ≡ matching id stream xs ++ matching id stream ys
unfolding matching
matching-append id stream [] ys = refl
matching-append id stream (x ∷ xs) ys = ground (arith, matching-append id stream xs ys)

pub matching-of_job :
    (id : Bytes) (stream : ℤ) (lines : List StoreLine)
    → matching id stream (of_job id lines) ≡ matching id stream lines
unfolding matching
matching-of_job id stream [] = refl
matching-of_job id stream (l ∷ lines) = elim (Bool-cases (bytes_eq l.job_id id)) [
  | inl own ↦
      let kept : of_job id (l ∷ lines) ≡ l ∷ of_job id lines = rw own refl in
      ap (matching id stream) kept
      ∙ ap (λ t. if selected id stream l then rec_of l ∷ t else t) (matching-of_job id stream lines)
  | inr other ↦ rw (other, matching) (matching-of_job id stream lines)
]

pub matching-Above :
    (id : Bytes) (stream : ℤ) (m n : ℕ) (log : List StoreLine)
    → m ≤ n
    → Numbered n log
    → Above m (matching id stream log)
unfolding matching
matching-Above id stream m n [] le c = tt
matching-Above id stream m n (l ∷ log) le c =
    let rest = matching-Above id stream m (n + 1) log (omega arith) c.1 in
    elim (Bool-cases (selected id stream l)) [
      | inl hit ↦ rw (hit, matching) (omega (arith, c.0), rest)
      | inr miss ↦ rw (miss, matching) rest
    ]

matching-Strict :
    (id : Bytes) (stream : ℤ) (n : ℕ) (log : List StoreLine)
    → Numbered n log
    → Strict (matching id stream log)
unfolding matching
matching-Strict id stream n [] c = tt
matching-Strict id stream n (l ∷ log) c =
    let rest = matching-Strict id stream (n + 1) log c.1 in
    let above = matching-Above id stream l.seq (n + 1) log (omega (arith, c.0)) c.1 in
    elim (Bool-cases (selected id stream l)) [
      | inl hit ↦ rw (hit, matching) (above, rest)
      | inr miss ↦ rw (miss, matching) rest
    ]

-- The database's answer needs no sorting.
pub sort_matching :
    (id : Bytes) (stream : ℤ) (n : ℕ) (log : List StoreLine)
    → Numbered n log
    → sort_seq (matching id stream log) ≡ matching id stream log
sort_matching id stream n log c = sort-Strict _ (matching-Strict id stream n log c)

-- The lines of stream `k`, if the reader wants them.
abbrev pub part : Bytes → ℤ → ℕ → List StoreLine → List LineRec
part id stream k log = if wants stream k then matching id (pos k) log else []

wants-in_stream : (stream : ℤ) (k : ℕ) → wants stream k ≡ in_stream stream k
wants-in_stream (pos s) k = ground arith
wants-in_stream (negsuc s) k = refl

pub part-Above :
    (id : Bytes) (stream : ℤ) (k m n : ℕ) (log : List StoreLine)
    → m ≤ n
    → Numbered n log
    → Above m (part id stream k log)
part-Above id stream k m n log le c = elim (Bool-cases (wants stream k)) [
  | inl wanted ↦ rw wanted (matching-Above id (pos k) m n log le c)
  | inr unwanted ↦ rw unwanted tt
]

part-hit :
    (id : Bytes) (stream : ℤ) (k : ℕ) (l : StoreLine) (log : List StoreLine)
    → bytes_eq l.job_id id ≡ true
    → l.stream ≡ k
    → wants stream k ≡ true
    → part id stream k (l ∷ log) ≡ rec_of l ∷ part id stream k log
part-hit id stream k l log own e wanted =
    rw wanted (matching-hit id (pos k) l log own (ground arith))

part-miss :
    (id : Bytes) (stream : ℤ) (k : ℕ) (l : StoreLine) (log : List StoreLine)
    → bytes_eq l.job_id id ≡ true
    → (l.stream == k) ≡ false
    → part id stream k (l ∷ log) ≡ part id stream k log
part-miss id stream k l log own apart =
    ap (λ t. if wants stream k then t else []) (matching-miss id (pos k) l log own apart)

part_skipped :
    (id : Bytes) (stream : ℤ) (k : ℕ) (l : StoreLine) (log : List StoreLine)
    → wants stream k ≡ false
    → part id stream k (l ∷ log) ≡ part id stream k log
part_skipped id stream k l log unwanted = rw unwanted refl

matching_wanted :
    (id : Bytes) (stream : ℤ) (k : ℕ) (l : StoreLine) (log : List StoreLine)
    → bytes_eq l.job_id id ≡ true
    → l.stream ≡ k
    → wants stream k ≡ true
    → matching id stream (l ∷ log) ≡ rec_of l ∷ matching id stream log
matching_wanted id stream k l log own e wanted =
    matching-hit id stream l log own
      (ap (in_stream stream) e ∙ sym (wants-in_stream stream k) ∙ wanted)

matching_unwanted :
    (id : Bytes) (stream : ℤ) (k : ℕ) (l : StoreLine) (log : List StoreLine)
    → bytes_eq l.job_id id ≡ true
    → l.stream ≡ k
    → wants stream k ≡ false
    → matching id stream (l ∷ log) ≡ matching id stream log
matching_unwanted id stream k l log own e unwanted =
    matching-miss id stream l log own
      (ap (in_stream stream) e ∙ sym (wants-in_stream stream k) ∙ unwanted)

-- One more line in front of a merged log.
merge_cons :
    (id : Bytes) (stream : ℤ) (n : ℕ) (l : StoreLine) (log : List StoreLine)
    → bytes_eq l.job_id id ≡ true
    → (l.stream ≡ stream_stdout) ⊎ (l.stream ≡ stream_stderr)
    → l.seq ≤ n
    → Numbered n log
    → sort_seq (part id stream 0 log ++ part id stream 1 log) ≡ matching id stream log
    → sort_seq (part id stream 0 (l ∷ log) ++ part id stream 1 (l ∷ log))
      ≡ matching id stream (l ∷ log)
merge_cons id stream n l log own (inl out) le c ih =
    let miss = part-miss id stream 1 l log own (rw out refl) in
    elim (Bool-cases (wants stream 0)) [
      | inl wanted ↦
          ap₂ (λ a b. sort_seq (a ++ b)) (part-hit id stream 0 l log own out wanted) miss
          ∙ (sort_least (rec_of l) [] (part id stream 0 log ++ part id stream 1 log) tt (
                All-append (λ r. l.seq < r.seq) (part id stream 0 log) (part id stream 1 log)
                  (part-Above id stream 0 l.seq n log le c)
                  (part-Above id stream 1 l.seq n log le c))
              ∙ (ap (λ t. rec_of l ∷ t) ih
                  ∙ sym (matching_wanted id stream 0 l log own out wanted)))
      | inr unwanted ↦
          ap₂ (λ a b. sort_seq (a ++ b)) (part_skipped id stream 0 l log unwanted) miss
          ∙ (ih ∙ sym (matching_unwanted id stream 0 l log own out unwanted))
    ]
merge_cons id stream n l log own (inr err) le c ih =
    let miss = part-miss id stream 0 l log own (rw err refl) in
    elim (Bool-cases (wants stream 1)) [
      | inl wanted ↦
          ap₂ (λ a b. sort_seq (a ++ b)) miss (part-hit id stream 1 l log own err wanted)
          ∙ (sort_least (rec_of l) (part id stream 0 log) (part id stream 1 log)
                (part-Above id stream 0 l.seq n log le c) (part-Above id stream 1 l.seq n log le c)
              ∙ (ap (λ t. rec_of l ∷ t) ih
                  ∙ sym (matching_wanted id stream 1 l log own err wanted)))
      | inr unwanted ↦
          ap₂ (λ a b. sort_seq (a ++ b)) miss (part_skipped id stream 1 l log unwanted)
          ∙ (ih ∙ sym (matching_unwanted id stream 1 l log own err unwanted))
    ]

-- Sorting the two streams of a log that the reader wants gives the log back.
pub merge-Streams :
    (id : Bytes) (stream : ℤ) (n : ℕ) (log : List StoreLine)
    → Own id log
    → Streams log
    → Numbered n log
    → sort_seq (part id stream 0 log ++ part id stream 1 log) ≡ matching id stream log
unfolding sort_seq matching
merge-Streams id stream n [] own two c = ground arith
merge-Streams id stream n (l ∷ log) own two c =
    merge_cons id stream (n + 1) l log own.0 two.0 (omega (arith, c.0)) c.1
      (merge-Streams id stream (n + 1) log own.1 two.1 c.1)
