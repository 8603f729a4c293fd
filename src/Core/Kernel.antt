-- ===== src/Core/Kernel.antt =====
-- The services of the context and those of IPVS, core/context.go with ipvs-shim/ipvs_shim.go.
pub mod Neutral
pub mod Backends
pub mod Services
pub mod Remove
pub mod Run
pub mod Start
use gorb.Prelude.{
  Text_eq, ℕ, ◌≡◌, ◌≢◌, refl, ◌∙◌, ap, sym, subst, Bool, true, false, List, [], ◌∷◌, Option, none,
  some, ◌==◌, same_refl, inl, inr, arith, Bool-cases,
}
use gorb.Prelude.Text.{Text}
use gorb.Prelude.Map.{
  Map, lookup, insert, delete, lookup-insert_cases, lookup-insert_self, lookup-insert_ne,
  lookup-delete, lookup-delete_ne, lookup-delete_self, lookup-delete-some,
}
use gorb.System.{Env, Trace, Svc, new_service, del_service}
use gorb.Util.Net.{to_16}
use gorb.Ipvs.{protocol_number}
use gorb.Ipvs.Table.{Key, key_of, serves, IsKernel, Same}
use gorb.Core.Context.{Service}

-- The key of a service in IPVS.
abbrev pub HasKey : Service → Key → Type 0
HasKey vs q =
    (n : ℕ) × (protocol_number vs.options.protocol ≡ some n)
    × (vs.options.port ∷ n ∷ to_16 vs.options.host_ip ≡ q)

HasKey-unique : (vs : Service) (q r : Key) → HasKey vs q → HasKey vs r → q ≡ r
HasKey-unique vs q r (n, p, e) (m, p', e') =
    let same : n ≡ m = cc in
    sym e ∙ ap (λ i. vs.options.port ∷ i ∷ to_16 vs.options.host_ip) same ∙ e'

module _ (env : Env) where
  -- IPVS has the services of the context, each once, and no other.
  pub record IsServed (m : Map Text Service) (t : Trace) : Type 0 where
    pub held :
        (k : Text) (vs : Service)
        → lookup k m ≡ some vs
        → (q : Key) × HasKey vs q × (serves env.accepts t q ≡ true)
    pub distinct :
        (j k : Text) (vs ws : Service) (q : Key)
        → lookup j m ≡ some vs
        → lookup k m ≡ some ws
        → HasKey vs q
        → HasKey ws q
        → j ≡ k
    pub known :
        (q : Key)
        → serves env.accepts t q ≡ true
        → (k : Text) × ((vs : Service) × (lookup k m ≡ some vs) × HasKey vs q)

  pub IsServed-Same :
      (m : Map Text Service) (t u : Trace) → Same env u t → IsServed m t → IsServed m u
  IsServed-Same m t u same v = record {
    held = λ k vs h. let (q, key, on) = v.held k vs h in (q, key, same q ∙ on);
    distinct = v.distinct;
    known = λ q on. v.known q (sym (same q) ∙ on);
  }

  module _ (kernel : IsKernel env) (m : Map Text Service) (t : Trace) (v : IsServed m t) (id : Text)
      (svc : Svc) where
    module _ (new : Service) (key : HasKey new (key_of svc)) (free : lookup id m ≡ none)
        (done : env.accepts t (new_service svc) ≡ true) where
      fresh : serves env.accepts t (key_of svc) ≢ true
      fresh on = let refused = kernel.refuses_twice t svc on in cc

      apart :
          (k : Text) (ws : Service) (q : Key)
          → lookup k m ≡ some ws
          → HasKey ws q
          → HasKey new q
          → ⊥
      apart k ws q there key' key'' =
          let (r, key_r, on) = v.held k ws there in
          fresh (
            ap (serves env.accepts t)
              (HasKey-unique new (key_of svc) q key key'' ∙ HasKey-unique ws q r key' key_r)
            ∙ on)

      later :
          (q : Key)
          → serves env.accepts t q ≡ true
          → serves env.accepts (new_service svc ∷ t) q ≡ true
      unfolding serves
      later q on = ground arith

      pub IsServed-insert : IsServed (insert id new m) (new_service svc ∷ t)
      unfolding serves
      IsServed-insert = record {
        held = λ k vs h. elim (lookup-insert_cases id k new vs m h) [
          | inl (_, e) ↦ (
            key_of svc,
            subst (λ w. HasKey w (key_of svc)) e key,
            ground (arith, same_refl (key_of svc)),
          )
          | inr old ↦ let (q, key', on) = v.held k vs old in (q, key', later q on)
        ];
        distinct = λ j k vs ws q p p' key_v key_w. elim (lookup-insert_cases id j new vs m p) [
          | inl (e, n) ↦ (elim (lookup-insert_cases id k new ws m p') [
            | inl (e', _) ↦ sym e ∙ e'
            | inr old ↦ absurd (apart k ws q old key_w (subst (λ w. HasKey w q) (sym n) key_v))
          ])
          | inr old ↦ (elim (lookup-insert_cases id k new ws m p') [
            | inl (_, n) ↦ absurd (apart j vs q old key_v (subst (λ w. HasKey w q) (sym n) key_w))
            | inr old' ↦ v.distinct j k vs ws q old old' key_v key_w
          ])
        ];
        known = λ q on. elim (Bool-cases (serves env.accepts t q)) [
          | inl before ↦
              let (k, (vs, there, key')) = v.known q before in
              (
                k,
                (
                  vs,
                  lookup-insert_ne id k new m
                        (λ e. absurd (ground (arith, subst (λ i. lookup i m ≡ none) e free)))
                      ∙ there,
                  key',
                ),
              )
          | inr none_before ↦
              let same : key_of svc ≡ q = (Text_eq.same_iff (key_of svc) q).0 (ground arith) in
              (id, (new, lookup-insert_self id new m, subst (HasKey new) same key))
        ];
      }

    module _ (old : Service) (key : HasKey old (key_of svc)) (there : lookup id m ≡ some old)
        (done : env.accepts t (del_service svc) ≡ true) where
      other : (k : Text) (vs : Service) → lookup k (delete id m) ≡ some vs → id ≢ k
      other k vs h e =
          let gone = subst (λ i. lookup i (delete id m) ≡ none) e (lookup-delete_self id m) in
          absurd cc

      spared :
          (k : Text) (vs : Service) (q : Key)
          → lookup k (delete id m) ≡ some vs
          → HasKey vs q
          → key_of svc ≢ q
      spared k vs q h key' e = other k vs h (
          v.distinct id k old vs q there (lookup-delete-some id k vs m h) (subst (HasKey old) e key)
            key')

      pub IsServed-delete : IsServed (delete id m) (del_service svc ∷ t)
      unfolding serves
      IsServed-delete = record {
        held = λ k vs h.
            let (q, key', on) = v.held k vs (lookup-delete-some id k vs m h) in
            let far = spared k vs q h key' in
            (q, key', ground (arith, Text_eq.same_iff (key_of svc) q));
        distinct = λ j k vs ws q p p'.
            v.distinct j k vs ws q (lookup-delete-some id j vs m p)
              (lookup-delete-some id k ws m p');
        known = λ q on.
            let (k, (vs, held, key')) = v.known q (ground arith) in
            let far : id ≢ k = λ e.
              let same : old ≡ vs = ground (arith, subst (λ i. lookup i m ≡ some old) e there) in
              let one =
                HasKey-unique old (key_of svc) q key (subst (λ w. HasKey w q) (sym same) key') in
              absurd (ground (arith, Text_eq.same_iff (key_of svc) q)) in
            (k, (vs, lookup-delete_ne id k m far ∙ held, key'));
      }

  -- A service under the name of another that has its key.
  pub IsServed-replace :
      (m : Map Text Service) (t : Trace) (id : Text) (old new : Service)
      → IsServed m t
      → lookup id m ≡ some old
      → ((q : Key) → HasKey old q → HasKey new q)
      → ((q : Key) → HasKey new q → HasKey old q)
      → IsServed (insert id new m) t
  IsServed-replace m t id old new v there to_new to_old = record {
    held = λ k vs h. elim (lookup-insert_cases id k new vs m h) [
      | inl (_, e) ↦
          let (q, key, on) = v.held id old there in
          (q, subst (λ w. HasKey w q) e (to_new q key), on)
      | inr before ↦ v.held k vs before
    ];
    distinct = λ j k vs ws q p p' key_v key_w.
        let (vs', p1, k1) = back j vs q p key_v in
        let (ws', p2, k2) = back k ws q p' key_w in v.distinct j k vs' ws' q p1 p2 k1 k2;
    known = λ q on.
        let (k, (vs, held, key)) = v.known q on in
        elim (Bool-cases (id == k)) [
          | inl same ↦
              let e = (Text_eq.same_iff id k).0 same in
              let one : old ≡ vs = ground (arith, subst (λ i. lookup i m ≡ some old) e there) in
              (
                id,
                (
                  new,
                  lookup-insert_self id new m,
                  to_new q (subst (λ w. HasKey w q) (sym one) key),
                ),
              )
          | inr far ↦ (
            k,
            (
              vs,
              lookup-insert_ne id k new m (λ e. absurd (ground (arith, Text_eq.same_iff id k)))
                  ∙ held,
              key,
            ),
          )
        ];
  }
    where
      back :
          (k : Text) (vs : Service) (q : Key)
          → lookup k (insert id new m) ≡ some vs
          → HasKey vs q
          → (ws : Service) × (lookup k m ≡ some ws) × HasKey ws q
      back k vs q h key = elim (lookup-insert_cases id k new vs m h) [
        | inl (e, n) ↦ (
          old,
          subst (λ i. lookup i m ≡ some old) e there,
          to_old q (subst (λ w. HasKey w q) (sym n) key),
        )
        | inr before ↦ (vs, before, key)
      ]
