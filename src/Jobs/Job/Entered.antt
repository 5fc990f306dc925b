-- ===== src/Jobs/Job/Entered.antt =====
-- The log of a job, the append-only list of the lines that its process completed, and where the lines
-- are: with the store, or before their callbacks (`Execute`'s callbacks in internal/jobsvc/manager.go).
use easyworker.Base.{
  ℕ, ◌+◌, ◌≡◌, ◌⊎◌, ◌∙◌, refl, sym, ap, subst, true, List, [], ◌∷◌, ◌++◌, arith, Bytes, bytes_eq,
  bytes_eq_iff, length, length-append, All-append, All-of_append,
}
use mathlib.Core.List.{append_assoc, Permᴰ}
use mathlib.Core.List.Permᴰ
use easyworker.Shell.LineBuffer.{LineRec}
use easyworker.Shell.LineBuffer.Lines.{Consecutive}
use easyworker.Jobs.Row.{StoreLine}
use easyworker.Jobs.Store.{Store, try_enqueue_line}
use easyworker.Jobs.Store.Held.{
  Numbered, of_job, held, held-try_enqueue_line, dropped-try_enqueue_line,
}
use easyworker.Jobs.Store.Permuted.{All-Perm}
use easyworker.Jobs.Manager.Merge.{Own, Streams}
use easyworker.Jobs.Job.{entries}

-- A log of a job: its lines in the order of their numbers. Those that the store holds and those whose
-- callbacks have not run are its lines, in any order.
pub record Entered (id : Bytes) (log : List StoreLine) (seq : ℕ) (calling : List StoreLine)
    (s : Store) : Type 0 where
  pub numbered : Numbered 0 log
  pub own : Own id log
  pub streams : Streams log
  pub counted : seq ≡ length log
  -- unless a full channel dropped a line
  pub stored : s.dropped ≡ 0 → Permᴰ (held id s ++ calling) log

Numbered-append :
    (n : ℕ) (xs ys : List StoreLine)
    → Numbered n xs
    → Numbered (n + length xs) ys
    → Numbered n (xs ++ ys)
Numbered-append n [] ys hx hy = subst (λ m. Numbered m ys) (omega arith) hy
Numbered-append n (x ∷ xs) ys hx hy =
    (hx.0, Numbered-append (n + 1) xs ys hx.1 (subst (λ m. Numbered m ys) (omega arith) hy))

Numbered-entries :
    (id : Bytes) (stream n : ℕ) (recs : List LineRec)
    → Consecutive n recs
    → Numbered n (entries id stream recs)
unfolding entries
Numbered-entries id stream n [] c = tt
Numbered-entries id stream n (r ∷ recs) c = (c.0, Numbered-entries id stream (n + 1) recs c.1)

Own-entries : (id : Bytes) (stream : ℕ) (recs : List LineRec) → Own id (entries id stream recs)
unfolding entries
Own-entries id stream [] = tt
Own-entries id stream (r ∷ recs) = ((bytes_eq_iff id id).1 refl, Own-entries id stream recs)

Streams-entries :
    (id : Bytes) (stream : ℕ) (recs : List LineRec)
    → (stream ≡ 0) ⊎ (stream ≡ 1)
    → Streams (entries id stream recs)
unfolding entries
Streams-entries id stream [] two = tt
Streams-entries id stream (r ∷ recs) two = (two, Streams-entries id stream recs two)

length-entries :
    (id : Bytes) (stream : ℕ) (recs : List LineRec) → length (entries id stream recs) ≡ length recs
unfolding entries
length-entries id stream [] = refl
length-entries id stream (r ∷ recs) = omega (arith, length-entries id stream recs)

-- The lines of one write follow the log, and their callbacks are to come.
pub entries-Entered :
    (id : Bytes) (stream : ℕ) (recs : List LineRec) (log : List StoreLine) (seq : ℕ)
    (calling : List StoreLine) (s : Store)
    → (stream ≡ 0) ⊎ (stream ≡ 1)
    → Consecutive seq recs
    → Entered id log seq calling s
    → Entered id
        (log ++ entries id stream recs)
        (seq + length recs)
        (calling ++ entries id stream recs)
        s
entries-Entered id stream recs log seq calling s two c h =
    let new = entries id stream recs in
    record {
      numbered = Numbered-append 0 log new h.numbered (
          subst (λ n. Numbered n new) (h.counted ∙ omega arith)
            (Numbered-entries id stream seq recs c));
      own = All-append _ log new h.own (Own-entries id stream recs);
      streams = All-append _ log new h.streams (Streams-entries id stream recs two);
      counted = omega (arith, h.counted, length-append log new, length-entries id stream recs);
      stored = λ z.
          subst (λ t. Permᴰ t (log ++ new)) (append_assoc (held id s) calling new)
            (Permᴰ.append_right new (h.stored z));
    }

-- One callback: its line goes from those to be called to those that are held.
called :
    (l : StoreLine) (xs before after : List StoreLine)
    → Permᴰ ((xs ++ l ∷ []) ++ (before ++ after)) (xs ++ (before ++ (l ∷ after)))
called l xs before after =
    subst (λ t. Permᴰ t (xs ++ (before ++ (l ∷ after))))
      (sym (append_assoc xs (l ∷ []) (before ++ after)))
      (Permᴰ.append_left xs (Permᴰ.symm (Permᴰ.middle l before after)))

pub call_back-Entered :
    (id : Bytes) (l : StoreLine) (before after log : List StoreLine) (seq : ℕ) (s : Store)
    → Entered id log seq (before ++ (l ∷ after)) s
    → Entered id log seq (before ++ after) (try_enqueue_line l s)
call_back-Entered id l before after log seq s h = record {
  numbered = h.numbered;
  own = h.own;
  streams = h.streams;
  counted = h.counted;
  stored = λ z.
      let all = h.stored (dropped-try_enqueue_line l s z) in
      let own = All-Perm (λ r. bytes_eq r.job_id id ≡ true) (Permᴰ.symm all) h.own in
      let mine =
        (All-of_append _ before (l ∷ after)
          (All-of_append _ (held id s) (before ++ (l ∷ after)) own).1).1.0 in
      let put : of_job id (l ∷ []) ≡ l ∷ [] = rw mine refl in
      subst (λ t. Permᴰ (t ++ (before ++ after)) log)
        (sym (held-try_enqueue_line id l s z ∙ ap (λ t. held id s ++ t) put))
        (Permᴰ.trans (called l (held id s) before after) all);
}
