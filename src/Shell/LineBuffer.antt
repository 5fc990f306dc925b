-- ===== src/Shell/LineBuffer.antt =====
-- `LineBuffer` of internal/shellh/runner.go. The job's sequence counter (`nextSeq`) is passed in and
-- returned, and the records for `onLine` are the result: the buffer calls it after the lock. The
-- counter does not wrap.
pub mod Lines
pub mod Ring
use easyworker.Base.{
  ℕ, ◌+◌, ◌-◌, Bool, List, [], ◌∷◌, ◌++◌, map, ltb, ◌==◌, if◌then◌else◌, Bytes, bytes_eq, length,
  drop, ℤ, pos_part, is_nonpos,
}

pub record LineRec : Type 0 where
  pub seq : ℕ
  pub line : Bytes

pub record LineBuffer : Type 0 where
  pub max_lines : ℕ
  pub recs : List LineRec
  pub cur : Bytes
  pub dropped : ℕ

unfoldable pub new_line_buffer : ℤ → LineBuffer
new_line_buffer n = record {
  max_lines = if is_nonpos n then 10000 else pos_part n;
  recs = [];
  cur = [];
  dropped = 0;
}

-- The append to the ring, which drops its front when it is full.
unfoldable pub push_rec : LineRec → LineBuffer → LineBuffer
push_rec r lb =
    let recs = lb.recs ++ r ∷ [] in
    if ltb lb.max_lines (length recs)
    then record lb { recs = drop 1 recs; cur = []; dropped = lb.dropped + 1 }
    else record lb { recs = recs; cur = [] }

-- The counter, the buffer, and the lines that were completed.
pub record Written : Type 0 where
  pub seq : ℕ
  pub buffer : LineBuffer
  pub completed : List LineRec

complete : ℕ → LineBuffer → Written
unfolding push_rec
complete seq lb =
    let r : LineRec = record { seq = seq + 1; line = lb.cur } in
    record { seq = seq + 1; buffer = push_rec r lb; completed = r ∷ [] }

-- One round of the loop of `Write`.
unfoldable pub write_byte : ℕ → ℕ → LineBuffer → Written
unfolding complete
write_byte b seq lb =
    if b == b'\r'
    then record { seq = seq; buffer = lb; completed = [] }
    else if b == b'\n'
    then complete seq lb
    else record { seq = seq; buffer = record lb { cur = lb.cur ++ b ∷ [] }; completed = [] }

unfoldable pub write : Bytes → ℕ → LineBuffer → Written
write [] seq lb = record { seq = seq; buffer = lb; completed = [] }
write (b ∷ p) seq lb =
    let one = write_byte b seq lb in
    let rest = write p one.seq one.buffer in
    record rest { completed = one.completed ++ rest.completed }

-- `FlushLine`: a partial line becomes a record.
unfoldable pub flush_line : ℕ → LineBuffer → Written
unfolding complete
flush_line seq lb =
    if bytes_eq lb.cur []
    then record { seq = seq; buffer = lb; completed = [] }
    else complete seq lb

-- strings.Join
abbrev pub join : Bytes → List Bytes → Bytes
join sep [] = []
join sep (s ∷ []) = s
join sep (s ∷ t ∷ rest) = s ++ (sep ++ join sep (t ∷ rest))

abbrev pub last {ℓ} : {A : Type ℓ} → ℕ → List A → List A
last n xs = if ltb n (length xs) then drop (length xs - n) xs else xs

abbrev pub line_of : LineRec → Bytes
line_of r = r.line

unfoldable pub tail : ℕ → LineBuffer → Bytes
tail n lb =
    let lines = map line_of lb.recs in
    let all = if bytes_eq lb.cur [] then lines else lines ++ lb.cur ∷ [] in
    join (b'\n' ∷ []) (last n all)
