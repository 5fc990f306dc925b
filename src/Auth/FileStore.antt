-- ===== src/Auth/FileStore.antt =====
-- internal/auth/filestore.go: the enrollment state in one JSON file. encoding/json is a parameter;
-- each system call of a write can fail, as an outcome that the store's state holds says. A failing write
-- of the temporary file leaves a part of the text in it.
use easyworker.Base.{
  ◌≡◌, ◌≢◌, ap, ◌⊎◌, inl, inr, Bool, false, Option, none, some, List, [], ◌∷◌, arith, if◌then◌else◌,
  Bytes, bytes_eq, bytes_eq_iff, Option-cases, ℕ, true, take,
}
use easyworker.Auth.Store.{StateStore, Persists}

pub record FileState : Type 0 where
  pub token : Bytes
  pub owner_id : Bytes
  pub code : Bytes

abbrev pub empty_state : FileState
empty_state = record { token = []; owner_id = []; code = [] }

-- json.Marshal and json.Unmarshal on a `fileState`; `none` is an error.
pub record Json : Type 0 where
  pub marshal : FileState → Option Bytes
  pub unmarshal : Bytes → Option FileState

-- What is read back is what was written, for texts that JSON carries unchanged (valid UTF-8).
pub record JsonLaws (j : Json) : Type 1 where
  pub Plain : Bytes → Type 0
  pub Plain-nil : Plain []
  pub round_trip :
      (st : FileState)
      → Plain st.token
      → Plain st.owner_id
      → Plain st.code
      → (d : Bytes) × (j.marshal st ≡ some d) × (j.unmarshal d ≡ some st)

-- What os.ReadFile meets at the path.
pub data File : Type 0 where
  absent unreadable : File
  contents : Bytes → File

-- The calls of one `write` that fail.
pub record Faults : Type 0 where
  pub mkdir : Bool
  pub create_temp : Bool
  -- only so many bytes, and an error
  pub write_temp : Option ℕ
  pub close_temp : Bool
  pub rename : Bool
  pub remove : Bool

-- The state file and the temporary file beside it, whose name is new.
pub record Folder : Type 0 where
  pub state : File
  pub temp : Option Bytes

-- os.CreateTemp
create_temp : Folder → Folder
create_temp at = record at { temp = some [] }

-- Write on the temporary file: what it then holds, and whether it succeeded.
write_temp : Option ℕ → Bytes → Folder → Folder × Bool
write_temp none d at = (record at { temp = some d }, true)
write_temp (some n) d at = (record at { temp = some (take n d) }, false)

-- os.Rename of the temporary file to the path of the state.
rename_temp : Bool → Option Bytes → Folder → Folder
rename_temp true temp at = at
rename_temp false none at = at
rename_temp false (some d) at = record { state = contents d; temp = none }

-- The deferred os.Remove.
remove_temp : Folder → Folder
remove_temp at = record at { temp = none }

-- The faults that are still to come, write by write; none are left once the list is empty.
pub record FileStore : Type 0 where
  pub path : Bytes
  pub file : File
  pub faults : List Faults

abbrev no_faults : Faults
no_faults = record {
  mkdir = false;
  create_temp = false;
  write_temp = none;
  close_temp = false;
  rename = false;
  remove = false;
}

abbrev first_fault : List Faults → Faults
first_fault [] = no_faults
first_fault (f ∷ rest) = f

abbrev later_faults : List Faults → List Faults
later_faults [] = []
later_faults (f ∷ rest) = rest

abbrev token_of : FileState → Bytes × Bytes
token_of st = (st.token, st.owner_id)

module _ (j : Json) where
  read_file : File → FileState
  read_file absent = empty_state
  read_file unreadable = empty_state
  read_file (contents d) = elim (j.unmarshal d) [ none ↦ empty_state | some st ↦ st ]

  unfoldable pub read : FileStore → FileState
  unfolding read_file
  read s = if bytes_eq s.path [] then empty_state else read_file s.file

  -- Write, Close and Rename: each of them ends the write when it fails.
  replace : Faults → Bytes → Folder → Folder
  unfolding write_temp rename_temp
  replace f d at =
      let (filled, complete) = write_temp f.write_temp d at in
      if complete
      then (if f.close_temp then filled else rename_temp f.rename filled.temp filled)
      else filled

  -- The folder after the calls of `write` behind the marshalling.
  written : Faults → Option Bytes → Folder → Folder
  unfolding create_temp replace remove_temp
  written f none at = at
  written f (some d) at = if f.create_temp then at else remove_temp (replace f d (create_temp at))

  unfoldable pub write : FileState → FileStore → FileStore
  unfolding written
  write st s =
      if bytes_eq s.path []
      then s
      else let f = first_fault s.faults in
        let at : Folder = record { state = s.file; temp = none } in
        record s {
          file = if f.mkdir then s.file else (written f (j.marshal st) at).state;
          faults = later_faults s.faults;
        }

  -- os.Remove; an error leaves the file and is logged.
  unfoldable pub clear : FileStore → FileStore
  clear s =
      if bytes_eq s.path []
      then s
      else let f = first_fault s.faults in
        record s { file = if f.remove then s.file else absent; faults = later_faults s.faults }

  unfoldable pub load_token : FileStore → Bytes × Bytes
  load_token s = token_of (read s)

  unfoldable pub load_code : FileStore → Bytes
  load_code s = (read s).code

  unfoldable pub save_token : Bytes → Bytes → FileStore → FileStore
  save_token token owner = write (record { token = token; owner_id = owner; code = [] })

  unfoldable pub save_code : Bytes → FileStore → FileStore
  save_code code = write (record { token = []; owner_id = []; code = code })

  -- FileStore as the gate's StateStore.
  abbrev pub file_store : StateStore FileStore
  file_store = record {
    load_token = load_token;
    load_code = load_code;
    save_token = save_token;
    save_code = save_code;
    clear = clear;
  }

  -- Whichever calls fail, and also where only a part of the text gets into the temporary file: a write
  -- leaves the old file or the whole new state, and nothing between.
  pub write_atomic :
      (st : FileState) (s : FileStore)
      → ((write st s).file ≡ s.file)
        ⊎ ((d : Bytes) × (j.marshal st ≡ some d) × ((write st s).file ≡ contents d))
  unfolding write
  write_atomic st s = elim (Option-cases (j.marshal st)) [
    | inl failed ↦ inl (ground (arith, failed))
    | inr (d, e) ↦ ground (arith, e)
  ]

module _ (j : Json) (laws : JsonLaws j) where
  -- A path that is set and no faults to come.
  abbrev Healthy : FileStore → Type 0
  Healthy s = (s.path ≢ []) × (s.faults ≡ [])

  -- A write without faults is read back.
  read-write :
      (st : FileState) (s : FileStore)
      → laws.Plain st.token
      → laws.Plain st.owner_id
      → laws.Plain st.code
      → Healthy s
      → (read j (write j st s) ≡ st) × Healthy (write j st s)
  unfolding read write
  read-write st s pt po pc h =
      let (d, m, u) = laws.round_trip st pt po pc in ground (arith, m, u, bytes_eq_iff s.path [])

  pub load_token-save_token :
      (tok owner : Bytes) (s : FileStore)
      → laws.Plain tok
      → laws.Plain owner
      → s.path ≢ []
      → s.faults ≡ []
      → load_token j (save_token j tok owner s) ≡ (tok, owner)
  unfolding load_token save_token
  load_token-save_token tok owner s pt po named faultless =
      ap token_of (read-write _ s pt po laws.Plain-nil (named, faultless)).0

  -- The state file is a store that persists, for the gate's laws.
  pub file_store-Persists : Persists (file_store j)
  unfolding load_token load_code save_token save_code
  file_store-Persists = record {
    Healthy = Healthy;
    Plain = laws.Plain;
    Healthy-save_token = λ tok owner s pt po h. (read-write _ s pt po laws.Plain-nil h).1;
    Healthy-save_code = λ c s pc h. (read-write _ s laws.Plain-nil laws.Plain-nil pc h).1;
    load_token-save_token =
        λ tok owner s pt po h. ap token_of (read-write _ s pt po laws.Plain-nil h).0;
    load_code-save_code = λ c s pc h.
        ap (λ (st : FileState). st.code) (read-write _ s laws.Plain-nil laws.Plain-nil pc h).0;
    load_token-save_code =
        λ c s pc h. ap token_of (read-write _ s laws.Plain-nil laws.Plain-nil pc h).0;
  }
