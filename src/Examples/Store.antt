-- ===== src/Examples/Store.antt =====
-- The job store, and the enrollment file (internal/jobsvc/store.go, internal/auth/filestore.go).
use easyworker.Base.{
  ℕ, ◌≡◌, ◌≢◌, refl, ◌⊎◌, false, some, List, [], ◌∷◌, ◌++◌, arith, ◌==◌, if◌then◌else◌, Bytes,
  bytes, All,
}
use easyworker.Jobs.Row.{JobRow, StoreLine, StoreFinish, running, finished}
use easyworker.Jobs.Store.{Store, finish}
use easyworker.Jobs.Store.Fifo.{
  Event, lines_event, finish_event, job_event, receive_event, tick_event, run, tables, replay,
  committed, records, pending, accepted, run_fifo,
}
use easyworker.Jobs.Store.Cleaning.{UniqueIds}
use easyworker.Auth.FileStore.{
  FileState, Json, JsonLaws, absent, contents, Faults, FileStore, write, write_atomic,
}

abbrev row : JobRow
row = record {
  id = bytes "j";
  command = bytes "ls";
  state = running;
  exit_code = 0;
  started_at = 5;
  finished_at = 0;
}

abbrev old_row : JobRow
old_row = record {
  id = bytes "old";
  command = bytes "ls";
  state = finished;
  exit_code = 0;
  started_at = 1;
  finished_at = 2;
}

abbrev printed : ℕ → StoreLine
printed n = record { job_id = bytes "j"; seq = n; stream = 0; line = bytes "hi" }

abbrev ended : StoreFinish
ended = record { job_id = bytes "j"; state = finished; exit_code = 0; finished_at = 9 }

abbrev pub empty_store : Store
empty_store = record { jobs = []; lines = []; queue = []; batch = []; dropped = 0 }

abbrev events : List Event
events =
    job_event row
    ∷ lines_event (printed 1)
    ∷ lines_event (printed 2)
    ∷ finish_event ended
    ∷ receive_event
    ∷ receive_event
    ∷ receive_event
    ∷ tick_event
    ∷ []

run_fifo_example :
    (tables (run events empty_store) ≡ replay (committed events empty_store) (tables empty_store))
    × (pending empty_store ++ accepted events empty_store
        ≡ records (committed events empty_store) ++ pending (run events empty_store))
run_fifo_example = run_fifo events empty_store

abbrev waiting : Store
waiting = record {
  jobs = row ∷ [];
  lines = [];
  queue = finish ended ∷ [];
  batch = printed 1 ∷ [];
  dropped = 0;
}

abbrev two_jobs : Store
two_jobs = record empty_store { jobs = row ∷ old_row ∷ []; lines = printed 1 ∷ [] }

two_jobs-UniqueIds : UniqueIds two_jobs.jobs
two_jobs-UniqueIds = (((λ e. cc), tt), (tt, tt))

-- An encoding with a zero byte between the texts, for texts without one.
abbrev pub NoZero : Bytes → Type 0
NoZero = All λ c. c ≢ 0

abbrev cut_zero : Bytes → Bytes × Bytes
cut_zero [] = ([], [])
cut_zero (c ∷ s) = let rest = cut_zero s in if c == 0 then ([], s) else (c ∷ rest.0, rest.1)

pub cut_zero-append : (t s : Bytes) → NoZero t → cut_zero (t ++ (0 ∷ s)) ≡ (t, s)
cut_zero-append [] s h = refl
cut_zero-append (c ∷ t) s h = ground (arith, h.0, cut_zero-append t s h.1)

abbrev pub codec : Json
codec = record {
  marshal = λ st. some (st.token ++ (0 ∷ (st.owner_id ++ (0 ∷ st.code))));
  unmarshal = λ d.
      let (token, rest) = cut_zero d in
      let (owner, code) = cut_zero rest in
      some (record { token = token; owner_id = owner; code = code });
}

abbrev pub codec-JsonLaws : JsonLaws codec
codec-JsonLaws = record {
  Plain = NoZero;
  Plain-nil = tt;
  round_trip = λ st t o c. (
    st.token ++ (0 ∷ (st.owner_id ++ (0 ∷ st.code))),
    refl,
    rw
        (
          cut_zero-append st.token (st.owner_id ++ (0 ∷ st.code)) t,
          cut_zero-append st.owner_id st.code o,
        )
        refl,
  );
}

abbrev saved : FileState
saved = record { token = bytes "t"; owner_id = []; code = [] }

abbrev write_fails : Faults
write_fails = record {
  mkdir = false;
  create_temp = false;
  write_temp = some 1;
  close_temp = false;
  rename = false;
  remove = false;
}

abbrev faulty : FileStore
faulty = record { path = bytes "/s"; file = absent; faults = write_fails ∷ [] }

write_atomic_example :
    ((write codec saved faulty).file ≡ faulty.file)
    ⊎ ((d : Bytes) × (codec.marshal saved ≡ some d)
        × ((write codec saved faulty).file ≡ contents d))
write_atomic_example = write_atomic codec saved faulty
