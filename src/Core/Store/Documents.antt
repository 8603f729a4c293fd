-- ===== src/Core/Store/Documents.antt =====
-- What the operations of core/store.go do to the documents in the store: the abstract view is the map
-- of documents that the calls so far have left, and each operation is one change of that map.
use gorb.Prelude.{
  Text_eq, ◌≡◌, refl, ap, ◌∙◌, Bool, true, false, Option, none, some, List, [], ◌∷◌, if◌then◌else◌,
  Bool-cases, inl, inr,
}
use gorb.Prelude.Text.{Text}
use gorb.Prelude.Map.{Map, lookup, insert}
use gorb.Prelude.Exec.{Exec, Outcome, ok, err, panic, store_error, pure, continue, ◌>>=◌}
use gorb.System.{Env, Trace, Call, kv_put, kv_delete_tree, kv_exists, attempt}
use gorb.Core.Payload.{Payload}
use gorb.Core.Options.{ServiceOptions, BackendOptions}
use gorb.Core.Store.{
  Store, service_key, backend_key, marshal_service, marshal_backend, put, create_service,
  update_service, create_backend, update_backend, remove_service, remove_backend,
}

abbrev pub Documents : Type 0
Documents = Map Text Payload

abbrev pub is_stored : Text → Documents → Bool
is_stored k m = elim (lookup k m) [ none ↦ false | some v ↦ true ]

-- Which keys libkv takes to lie under a directory is a parameter.
module _ (under : Text → Text → Bool) where
  unfoldable pub remove_under : Text → Documents → Documents
  remove_under d [] = []
  remove_under d ((k, v) ∷ m) =
      let rest = remove_under d m in if under d k then rest else (k, v) ∷ rest

  abbrev pub apply_call : Call → Documents → Documents
  apply_call (kv_put k v) m = insert k v m
  apply_call (kv_delete_tree d) m = remove_under d m
  apply_call _ m = m

  -- The documents that the accepted calls of a trace leave.
  unfoldable pub replay : (Trace → Call → Bool) → Trace → Documents
  replay accepts [] = []
  replay accepts (c ∷ t) = let m = replay accepts t in if accepts t c then apply_call c m else m

  -- When the store says whether a key exists, it is right.
  pub record IsFaithful (env : Env) : Type 0 where
    pub faithful :
        (t : Trace) (k : Text) (b : Bool)
        → env.exists t k ≡ some b
        → b ≡ is_stored k (replay env.accepts t)

-- The operations of the store.
pub data Change : Type 0 where
  adding_service changing_service : Text → ServiceOptions → Change
  adding_backend changing_backend : Text → Text → BackendOptions → Change
  deleting_service deleting_backend : Text → Change

abbrev without_result : {B : Type 0} → Exec Trace B → Exec Trace Unit
without_result m = m >>= λ b. pure tt

abbrev pub perform_change : Env → Store → Change → Exec Trace Unit
perform_change env s (adding_service id o) = create_service env s id o
perform_change env s (changing_service id o) = update_service env s id o
perform_change env s (adding_backend vs id o) = without_result (create_backend env s vs id o)
perform_change env s (changing_backend vs id o) = without_result (update_backend env s vs id o)
perform_change env s (deleting_service id) = remove_service env s id
perform_change env s (deleting_backend id) = remove_backend env s id

abbrev pub add_new : Text → Payload → Documents → Documents
add_new k v m = if is_stored k m then m else insert k v m

-- What each of them means: a new document does not replace one that is there.
abbrev pub change_documents : (Text → Text → Bool) → Store → Change → Documents → Documents
change_documents under s (adding_service id o) m = add_new (service_key s id) (marshal_service o) m
change_documents under s (changing_service id o) m = insert (service_key s id) (marshal_service o) m
change_documents under s (adding_backend vs id o) m =
    add_new (backend_key s id) (marshal_backend (record o { vs_id = vs })) m
change_documents under s (changing_backend vs id o) m =
    insert (backend_key s id) (marshal_backend (record o { vs_id = vs })) m
change_documents under s (deleting_service id) m = remove_under under (service_key s id) m
change_documents under s (deleting_backend id) m = remove_under under (backend_key s id) m

abbrev is_ok : Outcome Unit → Bool
is_ok (ok u) = true
is_ok (err e) = false
is_ok panic = false

-- The operations in a row, with a log of which succeeded.
unfoldable pub perform_all : Env → Store → List Change → Trace → List (Change × Bool) × Trace
perform_all env s [] t = ([], t)
perform_all env s (c ∷ cs) t =
    let r = perform_change env s c t in
    let rest = perform_all env s cs r.1 in ((c, is_ok r.0) ∷ rest.0, rest.1)

unfoldable pub change_all :
    (Text → Text → Bool) → Store → List (Change × Bool) → Documents → Documents
change_all under s [] m = m
change_all under s ((c, done) ∷ log) m =
    change_all under s log (if done then change_documents under s c m else m)

module _ (under : Text → Text → Bool) (env : Env) where
  abbrev held : Trace → Documents
  held = replay under env.accepts

  -- A part that succeeds changes the documents in one way, and changes nothing if it fails.
  record Does (change : Documents → Documents) (m : Exec Trace Unit) : Type 0 where
    does : (t : Trace) → held (m t).1 ≡ (if is_ok (m t).0 then change (held t) else held t)

  taken :
      (c : Call) (t : Trace) → env.accepts t c ≡ true → held (c ∷ t) ≡ apply_call under c (held t)
  unfolding replay
  taken c t e = rw e refl

  refused : (c : Call) (t : Trace) → env.accepts t c ≡ false → held (c ∷ t) ≡ held t
  unfolding replay
  refused c t e = rw e refl

  -- A question changes nothing.
  exists-held : (k : Text) (t : Trace) → held (kv_exists k ∷ t) ≡ held t
  exists-held k t = elim (Bool-cases (env.accepts t (kv_exists k))) [
    | inl e ↦ taken (kv_exists k) t e
    | inr e ↦ refused (kv_exists k) t e
  ]

  attempt-Does : (c : Call) → Does (apply_call under c) (attempt env c store_error)
  attempt-Does c = record {
    does = λ t. elim (Bool-cases (env.accepts t c)) [
      | inl e ↦ rw e (taken c t e)
      | inr e ↦ rw e (refused c t e)
    ];
  }

  -- The put that follows the question whether its key exists.
  after_question :
      (k : Text) (v : Payload) (t : Trace)
      → let r = attempt env (kv_put k v) store_error (kv_exists k ∷ t) in
        held r.1 ≡ (if is_ok r.0 then insert k v (held t) else held t)
  after_question k v t =
      let done = is_ok (attempt env (kv_put k v) store_error (kv_exists k ∷ t)).0 in
      (attempt-Does (kv_put k v)).does (kv_exists k ∷ t)
      ∙ ap (λ m. if done then insert k v m else m) (exists-held k t)

  -- With `overwrite` the document is put in any case.
  overwrite-Does : (k : Text) (v : Payload) → Does (insert k v) (put env k v true)
  unfolding put
  overwrite-Does k v = record { does = λ t. go t (env.exists t k) refl }
    where
      go :
          (t : Trace) (found : Option Bool)
          → env.exists t k ≡ found
          → held (put env k v true t).1
            ≡ (if is_ok (put env k v true t).0 then insert k v (held t) else held t)
      go t none e = rw e (exists-held k t)
      go t (some true) e = rw e (after_question k v t)
      go t (some false) e = rw e (after_question k v t)

  module _ (world : IsFaithful under env) where
    -- Without it a document that is there stays.
    put-Does : (k : Text) (v : Payload) → Does (add_new k v) (put env k v false)
    unfolding put
    put-Does k v = record { does = λ t. go t (env.exists t k) refl }
      where
        known :
            (t : Trace) (b : Bool)
            → env.exists t k ≡ some b
            → (if b then held t else insert k v (held t)) ≡ add_new k v (held t)
        known t b e =
            ap (λ stored. if stored then held t else insert k v (held t)) (world.faithful t k b e)

        go :
            (t : Trace) (found : Option Bool)
            → env.exists t k ≡ found
            → held (put env k v false t).1
              ≡ (if is_ok (put env k v false t).0 then add_new k v (held t) else held t)
        go t none e = rw e (exists-held k t)
        go t (some true) e = rw e (exists-held k t ∙ known t true e)
        go t (some false) e =
            let done = is_ok (attempt env (kv_put k v) store_error (kv_exists k ∷ t)).0 in
            rw e (after_question k v t ∙ ap (λ m. if done then m else held t) (known t false e))

    without_result-Does :
        {B : Type 0} (change : Documents → Documents) (m : Exec Trace Unit) (b : B)
        → Does change m
        → Does change (without_result (m >>= λ _. pure b))
    without_result-Does change m b h = record { does = λ t. go (m t) (held t) (h.does t) }
      where
        go :
            (r : Outcome Unit × Trace) (old : Documents)
            → held r.1 ≡ (if is_ok r.0 then change old else old)
            → let q =
                continue
                  (continue r.0 (λ _. pure b) r.1).0
                  (λ _. pure tt)
                  (continue r.0 (λ _. pure b) r.1).1 in
              held q.1 ≡ (if is_ok q.0 then change old else old)
        go (ok u, t) old h = h
        go (err e, t) old h = h
        go (panic, t) old h = h

    perform_change-Does :
        (s : Store) (c : Change) → Does (change_documents under s c) (perform_change env s c)
    unfolding create_service update_service create_backend update_backend remove_service
        remove_backend
    perform_change-Does s (adding_service id o) = put-Does _ _
    perform_change-Does s (changing_service id o) = overwrite-Does _ _
    perform_change-Does s (adding_backend vs id o) = without_result-Does _ _ _ (put-Does _ _)
    perform_change-Does s (changing_backend vs id o) =
        without_result-Does _ _ _ (overwrite-Does _ _)
    perform_change-Does s (deleting_service id) = attempt-Does (kv_delete_tree _)
    perform_change-Does s (deleting_backend id) = attempt-Does (kv_delete_tree _)

    -- The documents that operations of the store in a row leave are those that the operations which
    -- succeed make of the documents before, one after the other; an operation that fails leaves no
    -- mark. The store is right whenever it says whether a key exists, and may fail at any call.
    pub perform_all-refines :
        (s : Store) (cs : List Change) (t : Trace)
        → let r = perform_all env s cs t in
          replay under env.accepts r.1 ≡ change_all under s r.0 (replay under env.accepts t)
    unfolding perform_all change_all
    perform_all-refines s [] t = refl
    perform_all-refines s (c ∷ cs) t =
        perform_all-refines s cs (perform_change env s c t).1
        ∙ ap (change_all under s (perform_all env s cs (perform_change env s c t).1).0)
            ((perform_change-Does s c).does t)
