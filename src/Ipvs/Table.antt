-- ===== src/Ipvs/Table.antt =====
-- The virtual services of IPVS, as the calls of a trace leave them: an abstract view of what the calls
-- of ipvs-shim/ipvs_shim.go do.
use gorb.Prelude.{
  Text_eq, ℕ, ◌≡◌, refl, ◌∙◌, ap, Bool, true, false, not, ◌&&◌, ◌||◌, List, [], ◌∷◌, Option, none,
  some, ◌==◌, ◌⊎◌, if◌then◌else◌, Bool-cases, inl, inr,
}
use gorb.Prelude.Text.{Text}
use gorb.Prelude.Exec.{
  Exec, Outcome, ok, err, panic, Error, shim_error, unknown_protocol, pure, throw, lift, ◌>>=◌,
  continue,
}
use gorb.Util.Net.{Ip, to_16, ipv4}
use gorb.System.{Svc, Call, Env, Trace, attempt, ipvs_flush, new_service, del_service}
use gorb.Ipvs.{
  protocol_number, create_svc_key, with_schedule, add_service, change_service, remove_service,
  add_dest_port, update_dest_port, del_dest_port, forwarding_bits,
}

-- What tells services apart: port, protocol and address.
abbrev pub Key : Type 0
Key = List ℕ

abbrev pub key_of : Svc → Key
key_of svc = svc.port ∷ svc.protocol ∷ svc.address

-- Whether there is a service of the key after a call that was accepted or not.
abbrev pub note_call : Call → Bool → Key → Bool → Bool
note_call (new_service svc) done k before = (done && key_of svc == k) || before
note_call (del_service svc) done k before = before && not (done && key_of svc == k)
note_call ipvs_flush done k before = before && not done
note_call _ done k before = before

unfoldable pub serves : (Trace → Call → Bool) → Trace → Key → Bool
serves accepts [] k = false
serves accepts (c ∷ t) k = note_call c (accepts t c) k (serves accepts t k)

-- The kernel refuses a service that it has, and deletes one that it has.
pub record IsKernel (env : Env) : Type 0 where
  pub refuses_twice :
      (t : Trace) (svc : Svc)
      → serves env.accepts t (key_of svc) ≡ true
      → env.accepts t (new_service svc) ≡ false
  pub deletes :
      (t : Trace) (svc : Svc)
      → serves env.accepts t (key_of svc) ≡ true
      → env.accepts t (del_service svc) ≡ true

module _ (env : Env) where
  abbrev pub Same : Trace → Trace → Type 0
  Same u t = (k : Key) → serves env.accepts u k ≡ serves env.accepts t k

  -- An operation that makes and deletes no service.
  abbrev pub Neutral : {B : Type 0} → Exec Trace B → Type 0
  Neutral m = (t : Trace) → Same (m t).1 t

  continue-Neutral :
      {B C : Type 0} (r : Outcome B) (k : B → Exec Trace C) (t : Trace)
      → ((b : B) → Neutral (k b))
      → Same (continue r k t).1 t
  continue-Neutral (ok b) k t rest = rest b t
  continue-Neutral (err e) k t rest = λ j. refl
  continue-Neutral panic k t rest = λ j. refl

  pub bind-Neutral :
      {B C : Type 0} (m : Exec Trace B) (k : B → Exec Trace C)
      → Neutral m
      → ((b : B) → Neutral (k b))
      → Neutral (m >>= k)
  bind-Neutral m k first rest t j = continue-Neutral (m t).0 k (m t).1 rest j ∙ first t j

  pub attempt_lem :
      (c : Call) (e : Error) (t : Trace)
      → attempt env c e t ≡ ((if env.accepts t c then ok tt else err e), c ∷ t)
  attempt_lem c e t = go (env.accepts t c)
    where
      go :
          (done : Bool)
          → (if done then pure {S = Trace} tt else throw e) (c ∷ t)
            ≡ ((if done then ok tt else err e), c ∷ t)
      go true = refl
      go false = refl

  pub attempt-Neutral :
      (c : Call) (e : Error)
      → ((done : Bool) (k : Key) (before : Bool) → note_call c done k before ≡ before)
      → Neutral (attempt env c e)
  unfolding serves
  attempt-Neutral c e other t k =
      ap (λ u. serves env.accepts u.1 k) (attempt_lem c e t)
      ∙ other (env.accepts t c) k (serves env.accepts t k)

  pub change_service-Neutral :
      (vip : Ip) (port : ℕ) (protocol sched : Text) (flags : List Text)
      → Neutral (change_service env vip port protocol sched flags)
  unfolding change_service
  change_service-Neutral vip port protocol sched flags =
      bind-Neutral (lift (create_svc_key env vip protocol port)) _ (λ t k. refl)
        (λ svc. attempt-Neutral _ shim_error (λ _ _ _. refl))

  pub add_dest_port-Neutral :
      (vip : Ip) (vport : ℕ) (rip : Ip) (rport : ℕ) (protocol : Text) (weight : ℕ) (fwd : Text)
      → Neutral (add_dest_port env vip vport rip rport protocol weight fwd)
  unfolding add_dest_port
  add_dest_port-Neutral vip vport rip rport protocol weight fwd =
      bind-Neutral (lift (create_svc_key env vip protocol vport)) _ (λ t k. refl)
        (λ svc.
          bind-Neutral (lift (forwarding_bits env fwd)) _ (λ t k. refl)
            (λ bits. attempt-Neutral _ shim_error (λ _ _ _. refl)))

  pub update_dest_port-Neutral :
      (vip : Ip) (vport : ℕ) (rip : Ip) (rport : ℕ) (protocol : Text) (weight : ℕ) (fwd : Text)
      → Neutral (update_dest_port env vip vport rip rport protocol weight fwd)
  unfolding update_dest_port
  update_dest_port-Neutral vip vport rip rport protocol weight fwd =
      bind-Neutral (lift (create_svc_key env vip protocol vport)) _ (λ t k. refl)
        (λ svc.
          bind-Neutral (lift (forwarding_bits env fwd)) _ (λ t k. refl)
            (λ bits. attempt-Neutral _ shim_error (λ _ _ _. refl)))

  pub del_dest_port-Neutral :
      (vip : Ip) (vport : ℕ) (rip : Ip) (rport : ℕ) (protocol : Text)
      → Neutral (del_dest_port env vip vport rip rport protocol)
  unfolding del_dest_port
  del_dest_port-Neutral vip vport rip rport protocol =
      bind-Neutral (lift (create_svc_key env vip protocol vport)) _ (λ t k. refl)
        (λ svc. attempt-Neutral _ shim_error (λ _ _ _. refl))

  -- Adding a service makes one call that the kernel accepts, or changes nothing and fails.
  abbrev pub IsAdded : Ip → ℕ → Text → Trace → Outcome Unit × Trace → Type 0
  IsAdded vip port protocol t r =
      ((e : Error) × (r.0 ≡ err e) × Same r.1 t)
      ⊎ ((n : ℕ) × (protocol_number protocol ≡ some n)
          × ((svc : Svc) × (key_of svc ≡ port ∷ n ∷ to_16 vip)
              × (env.accepts t (new_service svc) ≡ true)
              × (r ≡ (ok tt, new_service svc ∷ t))))

  abbrev plain : Ip → ℕ → ℕ → Svc
  plain vip n port = record {
    address = to_16 vip;
    protocol = n;
    port = port;
    address_family = ipv4;
    sched_name = [];
    flags = 0;
    mask = 0;
  }

  abbrev key_or_error : Ip → ℕ → Option ℕ → Outcome Svc
  key_or_error vip port found = elim found [
    | none ↦ err unknown_protocol
    | some n ↦ ok (plain vip n port)
  ]

  added :
      (vip : Ip) (port : ℕ) (protocol : Text) (t : Trace) (found : Option ℕ) (schedule : Svc → Svc)
      → ((svc : Svc) → key_of (schedule svc) ≡ key_of svc)
      → protocol_number protocol ≡ found
      → IsAdded vip port protocol t (
          (lift (key_or_error vip port found) >>= λ svc.
          attempt env (new_service (schedule svc)) shim_error)
            t)
  unfolding serves
  added vip port protocol t none schedule same e = inl (unknown_protocol, refl, λ k. refl)
  added vip port protocol t (some n) schedule same e =
      let svc = schedule (plain vip n port) in
      rw (attempt_lem (new_service svc) shim_error t)
        (elim (Bool-cases (env.accepts t (new_service svc))) [
          | inl done ↦ rw done (inr (n, e, (svc, same (plain vip n port), done, refl)))
          | inr refused ↦ rw refused (inl (shim_error, refl, λ k. refl))
        ])

  pub add_service-IsAdded :
      (vip : Ip) (port : ℕ) (protocol sched : Text) (flags : List Text) (t : Trace)
      → IsAdded vip port protocol t (add_service env vip port protocol sched flags t)
  unfolding add_service
  add_service-IsAdded vip port protocol sched flags t =
      added vip port protocol t (protocol_number protocol)
        (λ svc. with_schedule env svc sched flags) (λ svc. refl) refl

  deleted :
      (vip : Ip) (port : ℕ) (t : Trace) (found : Option ℕ) (n : ℕ)
      → IsKernel env
      → found ≡ some n
      → serves env.accepts t (port ∷ n ∷ to_16 vip) ≡ true
      → (svc : Svc) × (key_of svc ≡ port ∷ n ∷ to_16 vip)
        × (env.accepts t (del_service svc) ≡ true)
        × ((lift (key_or_error vip port found) >>= λ svc. attempt env (del_service svc) shim_error)
              t
            ≡ (ok tt, del_service svc ∷ t))
  deleted vip port t none n kernel e held = absurd cc
  deleted vip port t (some m) n kernel e held =
      let same : m ≡ n = cc in
      let svc = plain vip m port in
      let done = kernel.deletes t svc (rw same held) in
      (svc, rw same refl, done, attempt_lem (del_service svc) shim_error t ∙ rw done refl)

  -- Removing a service that the kernel has is one call, which it accepts.
  pub remove_service-held :
      (vip : Ip) (port : ℕ) (protocol : Text) (n : ℕ) (t : Trace)
      → IsKernel env
      → protocol_number protocol ≡ some n
      → serves env.accepts t (port ∷ n ∷ to_16 vip) ≡ true
      → (svc : Svc) × (key_of svc ≡ port ∷ n ∷ to_16 vip)
        × (env.accepts t (del_service svc) ≡ true)
        × (remove_service env vip port protocol t ≡ (ok tt, del_service svc ∷ t))
  unfolding remove_service
  remove_service-held vip port protocol n t kernel =
      deleted vip port t (protocol_number protocol) n kernel
