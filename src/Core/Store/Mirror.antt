-- ===== src/Core/Store/Mirror.antt =====
-- What the store holds, read back.
use gorb.Prelude.{
  Text_eq, ◌≡◌, refl, sym, ap, ◌∙◌, Bool, true, false, none, some, List, [], ◌∷◌, ◌++◌, ◌==◌, All,
  inl, inr, Bool-cases, append_one, append_nil, same_refl, All-weaken,
}
use gorb.Prelude.Text.{Text, is_empty, Lacks}
use gorb.Prelude.Map.{Map, lookup, insert, IsUnique}
use gorb.Prelude.Exec.{ok}
use gorb.System.{KvPair, listed}
use gorb.Core.Payload.{Payload}
use gorb.Core.Store.{slash, get_id}
use gorb.Core.Store.Keys.{get_id-service_key}
use gorb.Core.Store.Reading.{collect_entries, read_listing}

module _ {V : Type 0} where
  -- A key that is new is added at the end.
  insert-fresh :
      (k : Text) (v : V) (m : Map Text V) → lookup k m ≡ none → insert k v m ≡ m ++ (k, v) ∷ []
  unfolding insert lookup
  insert-fresh k v [] h = refl
  insert-fresh k v (e ∷ m) h = elim (Bool-cases (e.0 == k)) [
    | inl same ↦ absurd (cc (rw same at h))
    | inr other ↦ rw other (ap (λ r. e ∷ r) (insert-fresh k v m (rw other at h)))
  ]

  lookup-append_one :
      (k j : Text) (v : V) (m : Map Text V)
      → lookup j m ≡ none
      → (k == j) ≡ false
      → lookup j (m ++ (k, v) ∷ []) ≡ none
  unfolding lookup
  lookup-append_one k j v [] h e = rw e refl
  lookup-append_one k j v ((i, w) ∷ m) h e = elim (Bool-cases (i == j)) [
    | inl same ↦ absurd (cc (rw same at h))
    | inr other ↦ rw other (lookup-append_one k j v m (rw other at h) e)
  ]

other_way : (j k : Text) → (j == k) ≡ false → (k == j) ≡ false
other_way j k h = elim (Bool-cases (k == j)) [
  | inl same ↦ absurd (cc (h, same_refl j, ap (λ i. j == i) (sym ((Text_eq.same_iff k j).0 same))))
  | inr other ↦ other
]

module _ {V O : Type 0} (encode : V → Payload) (decode : Payload → O) where
  -- The documents of a map decoded again.
  abbrev pub read_back : Map Text V → Map Text O
  read_back [] = []
  read_back ((id, v) ∷ m) = (id, decode (encode v)) ∷ read_back m

-- The entries of a directory that holds the documents of a map.
abbrev pub entries : {V : Type 0} → Text → (V → Payload) → Map Text V → List KvPair
entries path encode [] = []
entries path encode ((id, v) ∷ m) =
    record { key = path ++ slash ∷ id; value = some (encode v) } ∷ entries path encode m

-- No name of the first map is in the second.
abbrev Fresh : {V O : Type 0} → Map Text V → Map Text O → Type 0
Fresh [] acc = Unit
Fresh ((id, v) ∷ m) acc = (lookup id acc ≡ none) × Fresh m acc

abbrev pub Named : {V : Type 0} → Map Text V → Type 0
Named m = All (λ e. Lacks slash e.0) m

module _ {V O : Type 0} where
  Fresh-append :
      (k : Text) (w : O) (m : Map Text V) (acc : Map Text O)
      → lookup k m ≡ none
      → Fresh m acc
      → Fresh m (acc ++ (k, w) ∷ [])
  unfolding lookup
  Fresh-append k w [] acc h f = tt
  Fresh-append k w ((id, v) ∷ m) acc h (f, fs) = elim (Bool-cases (id == k)) [
    | inl same ↦ absurd (cc (rw same at h))
    | inr other ↦ (
      lookup-append_one k id w acc f (other_way id k other),
      Fresh-append k w m acc (rw other at h) fs,
    )
  ]

Fresh-nil : {V : Type 0} (O : Type 0) (m : Map Text V) → Fresh {O = O} m []
unfolding lookup
Fresh-nil O [] = tt
Fresh-nil O ((id, v) ∷ m) = (refl, Fresh-nil O m)

module _ {V O : Type 0} (encode : V → Payload) (decode : Payload → O) (path : Text)
    (some_path : is_empty path ≡ false) where
  collect_entries-entries :
      (m : Map Text V) (acc : Map Text O)
      → Named m
      → IsUnique m
      → Fresh m acc
      → collect_entries decode (entries path encode m) acc ≡ ok (acc ++ read_back encode decode m)
  unfolding collect_entries
  collect_entries-entries [] acc names unique fresh = ap ok (sym (append_nil acc))
  collect_entries-entries ((id, v) ∷ m) acc (name, names) (new, unique) (f, fresh) =
      let known : get_id (path ++ slash ∷ id) ≡ id =
        get_id-service_key (record { store_service_path = path; store_backend_path = path }) id
          some_path name in
      ap (λ k. collect_entries decode (entries path encode m) (insert k (decode (encode v)) acc))
        known
      ∙ ap (collect_entries decode (entries path encode m))
          (insert-fresh id (decode (encode v)) acc f)
      ∙ collect_entries-entries m (acc ++ (id, decode (encode v)) ∷ []) names unique
          (Fresh-append id (decode (encode v)) m acc new fresh)
      ∙ ap ok (append_one acc (id, decode (encode v)) (read_back encode decode m))

  -- Listing a directory that holds the documents of a map gives the map, decoded again.
  pub read_listing-entries :
      (m : Map Text V)
      → Named m
      → IsUnique m
      → read_listing decode (listed (entries path encode m)) ≡ ok (read_back encode decode m)
  unfolding read_listing
  read_listing-entries m names unique = collect_entries-entries m [] names unique (Fresh-nil O m)

module _ {V O : Type 0} (encode : V → Payload) (decode : Payload → O) where
  -- Each name of the map is in what is read back.
  pub read_back-stored :
      (m : Map Text V) → All (λ e. (o : O) × (lookup e.0 (read_back encode decode m) ≡ some o)) m
  unfolding lookup
  read_back-stored [] = tt
  read_back-stored ((id, v) ∷ m) = (
    (decode (encode v), rw (same_refl id) refl),
    All-weaken _ _ m (λ e (o, h). found e o h) (read_back-stored m),
  )
    where
      found :
          (e : Text × V) (o : O)
          → lookup e.0 (read_back encode decode m) ≡ some o
          → (o' : O) × (lookup e.0 (read_back encode decode ((id, v) ∷ m)) ≡ some o')
      found e o h = elim (Bool-cases (id == e.0)) [
        | inl same ↦ (decode (encode v), rw same refl)
        | inr other ↦ (o, rw other h)
      ]

  -- What is read back under a name passes a test with what the map has there, if each document does.
  pub read_back-equal :
      (test : V → O → Bool) (m : Map Text V)
      → IsUnique m
      → ((v : V) → test v (decode (encode v)) ≡ true)
      → All
          (λ e. (v : V) × (lookup e.0 m ≡ some v) × (test v e.1 ≡ true))
          (read_back encode decode m)
  unfolding lookup
  read_back-equal test [] unique h = tt
  read_back-equal test ((id, v) ∷ m) (new, unique) h = (
    (v, rw (same_refl id) refl, h v),
    All-weaken _ _ (read_back encode decode m) (λ e. found e) (read_back-equal test m unique h),
  )
    where
      found :
          (e : Text × O)
          → (w : V) × (lookup e.0 m ≡ some w) × (test w e.1 ≡ true)
          → (w : V) × (lookup e.0 ((id, v) ∷ m) ≡ some w) × (test w e.1 ≡ true)
      found e (w, there, good) = elim (Bool-cases (id == e.0)) [
        | inl same ↦
            absurd (cc (new, there, ap (λ i. lookup i m) ((Text_eq.same_iff id e.0).0 same)))
        | inr other ↦ (w, rw other there, good)
      ]
