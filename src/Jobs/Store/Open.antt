-- ===== src/Jobs/Store/Open.antt =====
-- `OpenStore` and `migrate` of internal/jobsvc/store.go, on the database that the last process left.
-- What os.MkdirAll, sql.Open and the statements answer are arguments.
use easyworker.Base.{
  ℕ, zero, suc, ◌≡◌, Bool, true, false, not, Option, none, some, List, [], if◌then◌else◌, arith,
}
use easyworker.Jobs.Row.{JobRow, StoreLine}
use easyworker.Jobs.Store.{Store, recover}

-- The file of the database: the tables that it has.
pub record Database : Type 0 where
  pub jobs : Option (List JobRow)
  pub lines : Option (List StoreLine)
  pub indexed : Bool

-- CREATE TABLE IF NOT EXISTS
abbrev pub created : {A : Type 0} → Option (List A) → Option (List A)
created none = some []
created (some rows) = some rows

-- One statement of `migrate`.
abbrev pub create : ℕ → Database → Database
create zero db = record db { jobs = created db.jobs }
create (suc zero) db = record db { lines = created db.lines }
create (suc (suc i)) db = record db { indexed = true }

-- `migrate`, whose statements run up to the first that fails.
unfoldable pub migrate : Bool → Bool → Bool → Database → Database × Bool
migrate jobs_ok lines_ok index_ok db =
    if jobs_ok
    then (if lines_ok
        then (if index_ok
            then (create 2 (create 1 (create 0 db)), true)
            else (create 1 (create 0 db), false))
        else (create 0 db, false))
    else (db, false)

-- What succeeds of an opening, and the clock.
pub record Opening : Type 0 where
  pub made : Bool
  pub opened : Bool
  pub jobs_ok : Bool
  pub lines_ok : Bool
  pub index_ok : Bool
  pub recovered : Bool
  pub now : ℕ

abbrev pub rows : {A : Type 0} → Option (List A) → List A
rows none = []
rows (some xs) = xs

abbrev database_of : Store → Database
database_of s = record { jobs = some s.jobs; lines = some s.lines; indexed = true }

-- `OpenStore`: the database that it leaves, and the store, unless a step fails.
unfoldable pub open_store : Opening → Database → Database × Option Store
unfolding migrate recover
open_store o db =
    if not o.made
    then (db, none)
    else if not o.opened
    then (db, none)
    else let (db', migrated) = migrate o.jobs_ok o.lines_ok o.index_ok db in
      let s = recover o.now (rows db'.jobs) (rows db'.lines) in
      if not migrated
      then (db', none)
      else if o.recovered
      then (database_of s, some s)
      else (db', none)

-- The tables that a process leaves, whenever it ends: what its writer has committed.
abbrev pub left_behind : Store → Database
left_behind s = database_of s

-- An opening that succeeds on what a process left has its lines, and of its jobs those that were
-- running have failed. It starts with nothing queued.
pub open_store-left_behind :
    (o : Opening) (s s' : Store)
    → (open_store o (left_behind s)).1 ≡ some s'
    → s' ≡ recover o.now s.jobs s.lines
unfolding open_store migrate recover
open_store-left_behind o s s' h = ground arith
