-- ===== src/Link/Tally.antt =====
-- What a call of invokeFunc does to the ports.
use gorb.Prelude.{
  ℕ, suc, ◌+◌, ◌≡◌, ◌≢◌, refl, Text_eq, ◌==◌, Option, none, some, List, [], ◌∷◌, arith,
  if◌then◌else◌, length, length-append, append_one, append_nil, ap, sym, ◌∙◌, ◌++◌, Bool-cases, inl,
  inr,
}
use gorb.Prelude.Text.{Text, text}
use gorb.Prelude.Exec.{Outcome, ok, err, panic, Error, pure, ◌>>=◌}
use gorb.Link.{ApiPort, Link, L}
use gorb.Link.Names.{service_id, backend_id}
use gorb.Link.Ports.{
  PortAction, is_unexported, rewrite_ip, Tally, add_result, invoke_ports, act_on, tried, try,
  invoke_func,
}

unfoldable pub count_exported : List ApiPort → ℕ
count_exported [] = 0
count_exported (b ∷ ports) =
    let rest = count_exported ports in if is_unexported b then rest else suc rest

-- Successes and errors together.
abbrev total : Tally → ℕ
total (n, e) = n + length e

total-add_result : (r : Option Error) (c : Tally) → total (add_result r c) ≡ suc (total c)
total-add_result none (n, e) = omega arith
total-add_result (some x) (n, e) = omega (arith, length-append e (x ∷ []))

-- An action that panics at no port and in no state.
abbrev pub IsCalm : PortAction → Type 0
IsCalm act = (vs rs : Text) (b : ApiPort) (s : Link) → (act vs rs b s).0 ≢ panic

try-ok :
    (m : L Unit) (s : Link)
    → (m s).0 ≢ panic
    → (r : Option Error) × (t : Link) × (try m s ≡ (ok r, t))
try-ok m s h = go (m s) h
  where
    go :
        (p : Outcome Unit × Link)
        → p.0 ≢ panic
        → (r : Option Error) × (t : Link) × (tried p ≡ (ok r, t))
    go (ok u, t) h = (none, t, refl)
    go (err e, t) h = (some e, t, refl)
    go (panic, t) h = absurd (h refl)

rewrite_ip-ok :
    (hosts : List Text) (b : ApiPort) (s : Link)
    → hosts ≢ []
    → (b' : ApiPort) × (rewrite_ip hosts b s ≡ (ok b', s))
unfolding rewrite_ip
rewrite_ip-ok [] b s h = absurd (h refl)
rewrite_ip-ok (host ∷ hosts) b s h = elim (Bool-cases (b.ip == text "0.0.0.0")) [
  | inl e ↦ rw e (_, refl)
  | inr e ↦ rw e (_, refl)
]

module _ (hosts : List Text) (act : PortAction) (vs rs : Text) (some_host : hosts ≢ [])
    (calm : IsCalm act) where
  act_on-total :
      (b : ApiPort) (c : Tally) (s : Link)
      → (c' : Tally) × (t : Link) × (act_on hosts act vs rs b c s ≡ (ok c', t))
        × (total c' ≡ suc (total c))
  act_on-total b c s =
      let (b', rewritten) = rewrite_ip-ok hosts b s some_host in
      let (r, t, done) = try-ok (act (service_id vs b') (backend_id rs b') b') s (calm _ _ b' s) in
      (add_result r c, t, rw (rewritten, done), total-add_result r c)

  invoke_ports-total :
      (ports : List ApiPort) (c : Tally) (s : Link)
      → (c' : Tally) × (t : Link) × (invoke_ports hosts act vs rs ports c s ≡ (ok c', t))
        × (total c' ≡ count_exported ports + total c)
  unfolding invoke_ports count_exported
  invoke_ports-total [] c s = (c, s, refl, omega arith)
  invoke_ports-total (b ∷ ports) c s = elim (Bool-cases (is_unexported b)) [
    | inl e ↦ rw e (invoke_ports-total ports c s)
    | inr e ↦
        let (c', t, acted, more) = act_on-total b c s in
        let (c'', u, rest, all) = invoke_ports-total ports c' t in
        (c'', u, rw (e, acted) rest, rw e (omega (arith, all, more)))
  ]

  -- If this host has an address and the action does not panic, invokeFunc ends on any ports, and its
  -- successes and the errors that it returns are together as many as the ports that are exported.
  pub invoke_func-total :
      (ports : List ApiPort) (s : Link)
      → (n : ℕ) × (e : List Error) × (t : Link) × (invoke_ports hosts act vs rs ports (0, []) s
          ≡ (ok (n, e), t))
        × (invoke_func hosts act vs rs ports s ≡ (ok e, t))
        × (n + length e ≡ count_exported ports)
  unfolding invoke_func
  invoke_func-total ports s =
      let (c, t, ran, all) = invoke_ports-total ports (0, []) s in
      (c.0, c.1, t, ran, rw ran refl, omega (arith, all))

-- The catch-all address stands for this host.
abbrev located : Text → ApiPort → ApiPort
located host b = if b.ip == text "0.0.0.0" then record b { ip = host } else b

-- The exported ports, each with the address at which it is reached.
unfoldable pub exported_ports : Text → List ApiPort → List ApiPort
exported_ports host [] = []
exported_ports host (b ∷ ports) =
    let rest = exported_ports host ports in if is_unexported b then rest else located host b ∷ rest

abbrev and_then : Option Error → List Error → List Error
and_then none e = e
and_then (some x) e = x ∷ e

module _ (act : PortAction) (vs rs : Text) where
  -- One call of the action for each port, in their order, and the errors of the calls, in theirs.
  unfoldable pub act_each : List ApiPort → L (List Error)
  act_each [] = pure []
  act_each (b ∷ ports) = do
    result ← try (act (service_id vs b) (backend_id rs b) b)
    later ← act_each ports
    pure (and_then result later)

rewrite_ip-located :
    (host : Text) (hosts : List Text) (b : ApiPort) (s : Link)
    → rewrite_ip (host ∷ hosts) b s ≡ (ok (located host b), s)
unfolding rewrite_ip
rewrite_ip-located host hosts b s = elim (Bool-cases (b.ip == text "0.0.0.0")) [
  | inl e ↦ rw e refl
  | inr e ↦ rw e refl
]

add_result-append :
    (r : Option Error) (c : Tally) (e : List Error) → (add_result r c).1 ++ e ≡ c.1 ++ and_then r e
add_result-append none (n, e') e = refl
add_result-append (some x) (n, e') e = append_one e' x e

collected :
    (r : Option Error) (c : Tally) (q : Outcome (List Error) × Link)
    → ((λ (s : Link). q) >>= λ e. pure ((add_result r c).1 ++ e)) q.1
      ≡ (((λ (s : Link). q) >>= λ e. pure (and_then r e)) >>= λ e. pure (c.1 ++ e)) q.1
collected r c (ok e, t) = ap (λ (l : List Error). (ok l, t)) (add_result-append r c e)
collected r c (err x, t) = refl
collected r c (panic, t) = refl

module _ (host : Text) (hosts : List Text) (act : PortAction) (vs rs : Text) where
  invoke_ports-act_each :
      (ports : List ApiPort) (c : Tally) (s : Link)
      → (invoke_ports (host ∷ hosts) act vs rs ports c >>= λ c'. pure c'.1) s
        ≡ (act_each act vs rs (exported_ports host ports) >>= λ e. pure (c.1 ++ e)) s
  unfolding invoke_ports exported_ports act_each
  invoke_ports-act_each [] c s = ap (λ (l : List Error). (ok l, s)) (sym (append_nil c.1))
  invoke_ports-act_each (b ∷ ports) c s = elim (Bool-cases (is_unexported b)) [
    | inl e ↦ rw e (invoke_ports-act_each ports c s)
    | inr e ↦
        rw (e, rewrite_ip-located host hosts b s)
          (go
            (try
              (act (service_id vs (located host b)) (backend_id rs (located host b))
                (located host b))
              s)
            (λ c' t. invoke_ports-act_each ports c' t))
  ]
    where
      rest : List ApiPort
      rest = exported_ports host ports

      go :
          (p : Outcome (Option Error) × Link)
          → ((c' : Tally) (t : Link)
              → (invoke_ports (host ∷ hosts) act vs rs ports c' >>= λ c''. pure c''.1) t
                ≡ (act_each act vs rs rest >>= λ e. pure (c'.1 ++ e)) t)
          → ((((λ (x : Link). p) >>= λ r. pure (add_result r c)) >>= λ c'.
                  invoke_ports (host ∷ hosts) act vs rs ports c')
                >>= λ c'. pure c'.1)
              s
            ≡ (((λ (x : Link). p) >>= λ r.
                    (act_each act vs rs rest >>= λ later. pure (and_then r later)))
                  >>= λ e. pure (c.1 ++ e))
                s
      go (ok r, t) later = later (add_result r c) t ∙ collected r c (act_each act vs rs rest t)
      go (err x, t) later = refl
      go (panic, t) later = refl

  -- If this host has an address, invokeFunc calls the action once for each port that is exported, in
  -- their order, with the two names of the port and with its address or, for the catch-all one, the
  -- first of this host; and it returns the errors of these calls, in their order. This holds of every
  -- action; a panic of it ends both.
  pub invoke_func-act_each :
      (ports : List ApiPort) (s : Link)
      → invoke_func (host ∷ hosts) act vs rs ports s
        ≡ act_each act vs rs (exported_ports host ports) s
  unfolding invoke_func
  invoke_func-act_each ports s =
      invoke_ports-act_each ports (0, []) s ∙ go (act_each act vs rs (exported_ports host ports) s)
    where
      go : (q : Outcome (List Error) × Link) → ((λ (x : Link). q) >>= λ e. pure ([] ++ e)) q.1 ≡ q
      go (ok e, t) = refl
      go (err x, t) = refl
      go (panic, t) = refl
