-- ===== src/Auth/Store.antt =====
-- `StateStore` of internal/auth/auth.go: what the gate asks of the store that outlives the process.
use easyworker.Base.{◌≡◌, [], Bytes}

pub record StateStore (S : Type 0) : Type 0 where
  pub load_token : S → Bytes × Bytes
  pub load_code : S → Bytes
  pub save_token : Bytes → Bytes → S → S
  pub save_code : Bytes → S → S
  pub clear : S → S

-- A store whose writes reach the disk and read back: `Healthy` names its states, `Plain` the texts.
pub record Persists {S : Type 0} (st : StateStore S) : Type 1 where
  pub Healthy : S → Type 0
  pub Plain : Bytes → Type 0
  pub Healthy-save_token :
      (tok owner : Bytes) (s : S)
      → Plain tok
      → Plain owner
      → Healthy s
      → Healthy (st.save_token tok owner s)
  pub Healthy-save_code : (c : Bytes) (s : S) → Plain c → Healthy s → Healthy (st.save_code c s)
  pub load_token-save_token :
      (tok owner : Bytes) (s : S)
      → Plain tok
      → Plain owner
      → Healthy s
      → st.load_token (st.save_token tok owner s) ≡ (tok, owner)
  pub load_code-save_code :
      (c : Bytes) (s : S) → Plain c → Healthy s → st.load_code (st.save_code c s) ≡ c
  pub load_token-save_code :
      (c : Bytes) (s : S) → Plain c → Healthy s → st.load_token (st.save_code c s) ≡ ([], [])
