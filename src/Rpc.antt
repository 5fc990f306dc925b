-- ===== src/Rpc.antt =====
-- What a Connect handler answers: a message, or one of the codes of connect.NewError that the
-- handlers under internal/ use.
pub data Code : Type 0 where
  invalid_argument not_found already_exists permission_denied : Code
  resource_exhausted failed_precondition internal unauthenticated canceled : Code

pub data Rpc {ℓ} (A : Type ℓ) : Type ℓ where
  reply : A → Rpc A
  fail : Code → Rpc A
