-- ===== src/Auth/Interceptor.antt =====
-- internal/auth/interceptor.go: the bearer gate before every WorkerService handler. A missing
-- header is the empty text, as http.Header.Get returns it.
use easyworker.Base.{
  ◌≡◌, ◌↔◌, ◌∙◌, sym, ap, Bool, true, false, Option, none, some, [], ◌++◌, List, arith, Bytes,
  bytes, cut_prefix, cut_prefix-append, if◌then◌else◌, reverse, All, Bool-cases, Option-cases, inl,
  inr,
}
use easyworker.Auth.Hex.{Fills, constant_equal, constant_equal_iff}
use easyworker.Auth.Store.{StateStore}
use easyworker.Auth.Gate.{Gate, authorized}
use easyworker.Auth.Gate.History.{Call, entropy_of, phase, accepts, shown, run, authorized-run}
use easyworker.Auth.Gate.Invariant.{IsValid}
use easyworker.Auth.Space.{
  IsTrimmed, spaces_reversed, cut_any, trim_space, trim_space_trimmed, trim_space-back,
  Graphic-IsTrimmed,
}

-- The outcome of a guarded handler.
pub data Reply (A : Type 0) : Type 0 where
  served : A → Reply A
  unauthenticated : Reply A

abbrev pub bearer_prefix : Bytes
bearer_prefix = bytes "Bearer "

unfoldable pub bearer : Bytes → Bytes
bearer header = elim (cut_prefix bearer_prefix header) [ none ↦ [] | some rest ↦ trim_space rest ]

some-ne-none : (r : Bytes) → some r ≡ none → ⊥
some-ne-none r e = cc

-- No presented bearer ends in white space.
bearer-back : (header : Bytes) → cut_any spaces_reversed (reverse (bearer header)) ≡ none
unfolding bearer
bearer-back header = elim (Option-cases (cut_prefix bearer_prefix header)) [
  | inl missing ↦ rw (missing, bearer) (Graphic-IsTrimmed [] tt).back
  | inr (rest, cut) ↦ rw (cut, bearer) (trim_space-back rest)
]

abbrev back_cut : Bytes → Option Bytes
back_cut t = cut_any spaces_reversed (reverse t)

-- What a client attaches, "Bearer " and the token, reads back as the token, if neither end of the
-- token is white space.
pub bearer-attach : (token : Bytes) → IsTrimmed token → bearer (bearer_prefix ++ token) ≡ token
unfolding bearer
bearer-attach token t =
    rw (cut_prefix-append bearer_prefix token, bearer) (trim_space_trimmed token t)

module _ {S : Type 0} (st : StateStore S) where
  -- `check`: whether the call goes on.
  unfoldable pub check : Gate S → Bytes → Bool
  check g header = if g.disabled then true else authorized st g (bearer header)

  -- WrapUnary and WrapStreamingHandler: the handler runs only behind the check.
  unfoldable pub wrap : {A : Type 0} → Gate S → Bytes → A → Reply A
  wrap g header next = if check g header then served next else unauthenticated

  pub check-authorized :
      (g : Gate S) (header : Bytes) → check g header ≡ authorized st g (bearer header)
  unfolding check authorized
  check-authorized g header = ground arith

  -- After any history of enrollment calls a handler runs exactly when the automaton that follows
  -- their replies accepts the bearer of the request's header.
  pub wrap_iff :
      {A : Type 0} (g : Gate S) (cs : List Call) (header : Bytes) (next : A)
      → All (λ c. Fills (entropy_of c)) cs
      → IsValid g
      → (wrap (run st g cs) header next ≡ served next)
        ↔ (accepts (shown st (phase g) g cs) (bearer header) ≡ true)
  unfolding wrap
  wrap_iff g cs header next f v =
      let same =
        check-authorized (run st g cs) header ∙ authorized-run st g cs (bearer header) f v in
      ground (arith, same)

  -- A gate with auth on whose token ends in white space serves no request: `bearer` trims what a
  -- request presents, and nobody trims the token.
  pub padded_token_locks_out :
      (g : Gate S) (header rest : Bytes)
      → g.disabled ≡ false
      → cut_any spaces_reversed (reverse g.token) ≡ some rest
      → check g header ≡ false
  unfolding check authorized
  padded_token_locks_out g header rest on padded =
      elim (Bool-cases (constant_equal g.token (bearer header))) [
        | inl equal ↦
            let same = (constant_equal_iff g.token (bearer header)).0 equal in
            absurd
              (some-ne-none rest (sym (sym (bearer-back header) ∙ ap back_cut (sym same) ∙ padded)))
        | inr differs ↦ ground (arith, differs)
      ]
