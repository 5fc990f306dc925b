-- ===== src/Service.antt =====
-- internal/service.go: what the worker's handlers compute of a job's history.
pub mod Wait
pub mod Watch
pub mod Handlers
use easyworker.Base.{
  ℕ, zero, suc, ◌+◌, ◌-◌, ◌<◌, ◌≡◌, ◌∙◌, refl, sym, ap, Bool, true, false, List, [], ◌∷◌, ◌++◌, map,
  arith, inl, inr, ltb, if◌then◌else◌, Bytes, bytes, bytes_eq, bytes_eq_refl, length, length-map,
  drop, ℤ, pos, negsuc, Bool-cases,
}
use mathlib.Core.List.{append_assoc, append-nil}
use easyworker.Shell.LineBuffer.{LineRec, LineBuffer, join, last, line_of, tail}
use easyworker.Jobs.Row.{stream_stdout, stream_stderr}
use easyworker.Jobs.Manager.{Manager, read_merged}

unfoldable pub stream_of : Bytes → ℤ
stream_of s =
    if bytes_eq s (bytes "stdout")
    then pos stream_stdout
    else if bytes_eq s (bytes "stderr")
    then pos stream_stderr
    else negsuc 0

abbrev newline : Bytes
newline = b'\n' ∷ []

-- The loop of `tailOf`, from its i-th round.
append_lines : ℕ → Bytes → List LineRec → Bytes
append_lines i out [] = out
append_lines i out (r ∷ recs) =
    append_lines (i + 1) ((if ltb 0 i then out ++ newline else out) ++ r.line) recs

-- `tailOf`; `read_ok` says whether the query succeeds.
unfoldable pub tail_of : Bool → Bytes → ℤ → Manager → Bytes
unfolding append_lines
tail_of read_ok id stream m =
    if read_ok then append_lines 0 [] (last 50 (read_merged id stream m)) else []

append_lines-join :
    (i : ℕ) (out : Bytes) (r : LineRec) (recs : List LineRec)
    → append_lines (i + 1) (out ++ r.line) recs ≡ out ++ join newline (map line_of (r ∷ recs))
unfolding append_lines
append_lines-join i out r [] = refl
append_lines-join i out r (s ∷ recs) =
    let later : ltb 0 (i + 1) ≡ true = ground arith in
    let rest = append_lines-join (i + 1) ((out ++ r.line) ++ newline) s recs in
    rw (later, append_lines)
      (rest ∙ append_assoc (out ++ r.line) newline _ ∙ append_assoc out r.line _)

append_lines_all : (recs : List LineRec) → append_lines 0 [] recs ≡ join newline (map line_of recs)
unfolding append_lines
append_lines_all [] = refl
append_lines_all (r ∷ recs) = append_lines-join 0 [] r recs

map-drop : (n : ℕ) (recs : List LineRec) → map line_of (drop n recs) ≡ drop n (map line_of recs)
map-drop zero recs = refl
map-drop (suc n) [] = refl
map-drop (suc n) (r ∷ recs) = map-drop n recs

map-last : (n : ℕ) (recs : List LineRec) → map line_of (last n recs) ≡ last n (map line_of recs)
map-last n recs = elim (Bool-cases (ltb n (length recs))) [
  | inl long ↦ rw (length-map line_of recs, long) (map-drop (length recs - n) recs)
  | inr short ↦ rw (length-map line_of recs, short) refl
]

-- The tail that the service computes of a job's history, where the query succeeds, is the tail of 50
-- lines that a line buffer gives which holds that history and has nothing pending.
pub tail_of-tail :
    (id : Bytes) (stream : ℤ) (m : Manager) (lb : LineBuffer)
    → lb.recs ≡ read_merged id stream m
    → lb.cur ≡ []
    → tail_of true id stream m ≡ tail 50 lb
unfolding tail_of tail
tail_of-tail id stream m lb held idle =
    let all = read_merged id stream m in
    append_lines_all (last 50 all)
    ∙ ap (join newline) (map-last 50 all)
    ∙ rw (idle, held, tail, bytes_eq_refl []) refl
