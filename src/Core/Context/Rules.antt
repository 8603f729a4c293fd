-- ===== src/Core/Context/Rules.antt =====
-- How a property of outcome and state passes through the parts of which the operations of the context
-- are made.
use gorb.Prelude.{Bool-cases, inl, inr, ◌≢◌, ◌≡◌, refl, Bool, true, false, Option, none, some}
use gorb.Prelude.Exec.{
  Exec, Outcome, ok, err, panic, Error, ipvs_syscall_failed, object_not_found, ◌>>=◌, continue,
  lift,
}
use gorb.System.{Trace}
use gorb.Pulse.Driver.{Pulse, stop}
use gorb.Core.Context.{
  Context, State, M, on_trace, ignore, as_ipvs, found, require, blame, drop_error,
}

-- What a part that returned leaves to the rest.
pub continue-ok :
    {S B C : Type 0} (r : Outcome B) (k : B → Exec S C) (s : S) (c : C)
    → (continue r k s).0 ≡ ok c
    → (b : B) × (r ≡ ok b) × ((k b s).0 ≡ ok c) × ((continue r k s).1 ≡ (k b s).1)
continue-ok (ok b) k s c h = (b, refl, h, refl)
continue-ok (err e) k s c h = absurd cc
continue-ok panic k s c h = absurd cc

-- What a property asks of an operation that ends in `Ok`, and leaves the context alone otherwise.
abbrev pub Effect :
    {A B : Type 0} → Context A → (B → Context A → Type 0) → Outcome B × State A → Type 0
Effect c Ok (ok b, s) = Ok b s.ctx
Effect c Ok (err e, s) = s.ctx ≡ c
Effect c Ok (panic, s) = s.ctx ≡ c

module _ {A B C : Type 0} (P : Outcome C × State A → Type 0) (k : B → M A C) (s : State A) where
  trace_cases :
      ((e : Error) (t : Trace) → P (err e, record s { trace = t }))
      → ((t : Trace) → P (panic, record s { trace = t }))
      → (r : Outcome B × Trace)
      → ((b : B) (t : Trace) → r ≡ (ok b, t) → P (k b (record s { trace = t })))
      → P (continue r.0 k (record s { trace = r.1 }))
  trace_cases on_err on_panic (ok b, t) on_ok = on_ok b t refl
  trace_cases on_err on_panic (err e, t) on_ok = on_err e t
  trace_cases on_err on_panic (panic, t) on_ok = on_panic t

  -- A call outside: whatever it answers, the context stays.
  pub trace_rule :
      (m : Exec Trace B)
      → ((e : Error) (t : Trace) → P (err e, record s { trace = t }))
      → ((t : Trace) → P (panic, record s { trace = t }))
      → ((b : B) (t : Trace) → m s.trace ≡ (ok b, t) → P (k b (record s { trace = t })))
      → P ((on_trace m >>= k) s)
  trace_rule m on_err on_panic on_ok = trace_cases on_err on_panic (m s.trace) on_ok

  ipvs_cases :
      ((t : Trace) → P (err ipvs_syscall_failed, record s { trace = t }))
      → ((t : Trace) → P (panic, record s { trace = t }))
      → (r : Outcome B × Trace)
      → ((b : B) (t : Trace) → r ≡ (ok b, t) → P (k b (record s { trace = t })))
      → P (continue (blame r.0) k (record s { trace = r.1 }))
  ipvs_cases on_err on_panic (ok b, t) on_ok = on_ok b t refl
  ipvs_cases on_err on_panic (err e, t) on_ok = on_err t
  ipvs_cases on_err on_panic (panic, t) on_ok = on_panic t

  -- A call of IPVS, whose errors are made one.
  pub ipvs_rule :
      (m : Exec Trace B)
      → ((t : Trace) → P (err ipvs_syscall_failed, record s { trace = t }))
      → ((t : Trace) → P (panic, record s { trace = t }))
      → ((b : B) (t : Trace) → m s.trace ≡ (ok b, t) → P (k b (record s { trace = t })))
      → P ((as_ipvs (on_trace m) >>= k) s)
  ipvs_rule m on_err on_panic on_ok = ipvs_cases on_err on_panic (m s.trace) on_ok

  -- `if v, exists := m[k]; !exists { … }`
  pub found_rule :
      (o : Option B)
      → (o ≡ none → P (err object_not_found, s))
      → ((b : B) → o ≡ some b → P (k b s))
      → P ((found o >>= k) s)
  found_rule none missing there = missing refl
  found_rule (some b) missing there = there b refl

-- A weaker condition on success.
pub Effect-mono :
    {A B : Type 0} (c : Context A) (P Q : B → Context A → Type 0) (r : Outcome B × State A)
    → ((b : B) (d : Context A) → P b d → Q b d)
    → Effect c P r
    → Effect c Q r
Effect-mono c P Q (ok b, s) weaker h = weaker b s.ctx h
Effect-mono c P Q (err e, s) weaker h = h
Effect-mono c P Q (panic, s) weaker h = h

module _ {A B C : Type 0} (P : Outcome C × State A → Type 0) (k : Unit {0} → M A C)
    (s : State A) where
  ignore_cases :
      (r : Outcome B × Trace)
      → (r.0 ≡ panic → P (panic, record s { trace = r.1 }))
      → ((t : Trace) → P (k tt (record s { trace = t })))
      → P (continue (drop_error r.0) k (record s { trace = r.1 }))
  ignore_cases (ok b, t) on_panic on_ok = on_ok t
  ignore_cases (err e, t) on_panic on_ok = on_ok t
  ignore_cases (panic, t) on_panic on_ok = on_panic refl

  -- A call outside whose error is logged only.
  pub ignore_rule :
      (m : Exec Trace B)
      → ((m s.trace).0 ≡ panic → P (panic, record s { trace = (m s.trace).1 }))
      → ((t : Trace) → P (k tt (record s { trace = t })))
      → P ((ignore (on_trace m) >>= k) s)
  ignore_rule m on_panic on_ok = ignore_cases (m s.trace) on_panic on_ok

-- A call that cannot panic.
abbrev pub Calm : {B : Type 0} → Exec Trace B → Type 0
Calm m = (t : Trace) → (m t).0 ≢ panic

module _ {A B : Type 0} (s : State A) where
  ignore_done_lem :
      (r : Outcome B × Trace)
      → r.0 ≢ panic
      → (◌≡◌ {A = Outcome Unit × State A}
          (drop_error r.0, record s { trace = r.1 })
          (ok tt, record s { trace = r.1 }))
  ignore_done_lem (ok b, t) h = refl
  ignore_done_lem (err e, t) h = refl
  ignore_done_lem (panic, t) h = absurd (h refl)

  pub ignore_lem :
      (m : Exec Trace B)
      → Calm m
      → ignore (on_trace m) s ≡ (ok tt, record s { trace = (m s.trace).1 })
  ignore_lem m calm = ignore_done_lem (m s.trace) (calm s.trace)

module _ {A C : Type 0} (P : Outcome C × State A → Type 0) (k : Unit {0} → M A C)
    (s : State A) where
  -- An early return.
  pub require_rule :
      (b : Bool) (e : Error)
      → (b ≡ false → P (err e, s))
      → (b ≡ true → P (k tt s))
      → P ((require b e >>= k) s)
  require_rule true e failed passed = passed refl
  require_rule false e failed passed = failed refl

module _ {A B C : Type 0} (P : Outcome C × State A → Type 0) (k : B → M A C) (s : State A) where
  -- A pure part that may fail.
  pub lift_rule :
      (r : Outcome B)
      → ((e : Error) → P (err e, s))
      → (r ≡ panic → P (panic, s))
      → ((b : B) → r ≡ ok b → P (k b s))
      → P ((lift r >>= k) s)
  lift_rule (ok b) on_err on_panic on_ok = on_ok b refl
  lift_rule (err e) on_err on_panic on_ok = on_err e
  lift_rule panic on_err on_panic on_ok = on_panic refl

  calm_trace_rule_done :
      ((e : Error) (t : Trace) → P (err e, record s { trace = t }))
      → (r : Outcome B × Trace) → r.0 ≢ panic
      → ((b : B) (t : Trace) → r ≡ (ok b, t) → P (k b (record s { trace = t })))
      → P (continue r.0 k (record s { trace = r.1 }))
  calm_trace_rule_done on_err (ok b, t) calm on_ok = on_ok b t refl
  calm_trace_rule_done on_err (err e, t) calm on_ok = on_err e t
  calm_trace_rule_done on_err (panic, t) calm on_ok = absurd (calm refl)

  -- A call outside that cannot panic.
  pub calm_trace_rule :
      (m : Exec Trace B)
      → Calm m
      → ((e : Error) (t : Trace) → P (err e, record s { trace = t }))
      → ((b : B) (t : Trace) → m s.trace ≡ (ok b, t) → P (k b (record s { trace = t })))
      → P ((on_trace m >>= k) s)
  calm_trace_rule m calm on_err on_ok = calm_trace_rule_done on_err (m s.trace) (calm s.trace) on_ok

  -- A call of IPVS that cannot panic.
  pub calm_ipvs_rule :
      (m : Exec Trace B)
      → Calm m
      → ((t : Trace) → P (err ipvs_syscall_failed, record s { trace = t }))
      → ((b : B) (t : Trace) → P (k b (record s { trace = t })))
      → P ((as_ipvs (on_trace m) >>= k) s)
  calm_ipvs_rule m calm on_err on_ok = go (m s.trace) (calm s.trace)
    where
      go :
          (r : Outcome B × Trace)
          → r.0 ≢ panic
          → P (continue (blame r.0) k (record s { trace = r.1 }))
      go (ok b, t) h = on_ok b t
      go (err e, t) h = on_err t
      go (panic, t) h = absurd (h refl)

module _ {A B C : Type 0} (P : Outcome C × State A → Type 0) (k : Unit {0} → M A C)
    (s : State A) where
  -- A call that cannot panic, and whose error is logged only.
  pub calm_ignore_rule :
      (m : Exec Trace B)
      → Calm m
      → ((t : Trace) → P (k tt (record s { trace = t })))
      → P ((ignore (on_trace m) >>= k) s)
  calm_ignore_rule m calm on_ok = ignore_rule P k s m (λ h. absurd (calm s.trace h)) on_ok

module _ {A C : Type 0} (P : Outcome C × State A → Type 0) (k : Pulse A → M A C) (s : State A) where
  -- Stopping a check.
  pub stop_rule :
      (p : Pulse A)
      → (p.stopped ≡ true → P (panic, s))
      → (p.stopped ≡ false → P (k (record p { stopped = true }) s))
      → P ((lift (stop p) >>= k) s)
  unfolding stop
  stop_rule p again first = elim (Bool-cases p.stopped) [
    | inl e ↦ rw e (again e)
    | inr e ↦ rw e (first e)
  ]
