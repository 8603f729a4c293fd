-- ===== src/Prelude/Exec.antt =====
-- Go functions that change state and may return an error or panic. What was written before an
-- error or a panic stays written, so the state comes back beside each outcome.

-- The error values that the program's functions return.
pub data Error : Type 0 where
  ipvs_syscall_failed object_exists object_not_found incompatible_afs : Error
  missing_endpoint unknown_method unknown_protocol unknown_flag : Error
  unknown_pulse_type invalid_pulse_interval invalid_interval_format : Error
  unresolved_host immutable_endpoint store_error invalid_method : Error
  shim_error consul_error netlink_error : Error
  not_root listen_error : Error
  invalid_url scheme_mismatch path_mismatch unsupported_scheme : Error
  communication_error unknown_response backend_exists backend_missing parent_missing : Error

pub data Outcome (A : Type 0) : Type 0 where
  ok : A → Outcome A
  err : Error → Outcome A
  panic : Outcome A

abbrev pub Exec : Type 0 → Type 0 → Type 0
Exec S A = S → Outcome A × S

module _ {S A : Type 0} where
  abbrev pub pure : A → Exec S A
  pure a s = (ok a, s)

  abbrev pub throw : Error → Exec S A
  throw e s = (err e, s)

  abbrev pub crash : Exec S A
  crash s = (panic, s)

  abbrev pub lift : Outcome A → Exec S A
  lift r s = (r, s)

module _ {S A B : Type 0} where
  infixl 5 ◌>>=◌ ◌>>◌
  -- What comes after a part that has ended in an outcome.
  abbrev pub continue : Outcome A → (A → Exec S B) → Exec S B
  continue panic next s = (panic, s)
  continue (err e) next s = (err e, s)
  continue (ok a) next s = next a s

  abbrev pub ◌>>=◌ : Exec S A → (A → Exec S B) → Exec S B
  ◌>>=◌ m next s = continue (m s).0 next (m s).1

  abbrev pub ◌>>◌ : Exec S A → Exec S B → Exec S B
  first >> second = first >>= λ _. second
