-- ===== src/Prelude/Map.antt =====
-- Go maps, as association lists. An insertion overwrites the entry of its key or adds one. A `range`
-- loop visits the entries in list order; Go leaves the order open, and a statement about every list
-- of entries covers them all.
use mathlib.Core.Path.{◌≡◌, refl, subst}
use mathlib.Core.Logic.{◌≢◌, ◌⊎◌, inl, inr}
use mathlib.Core.Option.{Option, none, some}
use mathlib.Core.List.{List, [], ◌∷◌, map}
use native.Mathlib.Omega.{arith}
use gorb.Prelude.Tests.{if◌then◌else◌, Bool-cases}
use gorb.Prelude.Lists.{All, All-weaken}
use gorb.Prelude.Equality.{Eq, ◌==◌, same_refl}

abbrev pub Map : Type 0 → Type 0 → Type 0
Map K V = List (K × V)

module _ {K V : Type 0} ⦃e : Eq K⦄ where
  unfoldable pub lookup : K → Map K V → Option V
  lookup key [] = none
  lookup key (entry ∷ m) = let rest = lookup key m in if entry.0 == key then some entry.1 else rest

  unfoldable pub insert : K → V → Map K V → Map K V
  insert key value [] = (key, value) ∷ []
  insert key value (entry ∷ m) =
      let rest = insert key value m in if entry.0 == key then (key, value) ∷ m else entry ∷ rest

  -- `delete(m, k)`; no entry of the key stays.
  unfoldable pub delete : K → Map K V → Map K V
  delete k [] = []
  delete k ((j, w) ∷ m) = let rest = delete k m in if j == k then rest else (j, w) ∷ rest

  abbrev pub keys : Map K V → List K
  keys m = map (λ p. p.0) m

  -- What a map holds after an insertion.
  pub lookup-insert :
      (key k : K) (value : V) (m : Map K V)
      → lookup k (insert key value m) ≡ (if key == k then some value else lookup k m)
  unfolding insert lookup
  lookup-insert key k value [] = refl
  lookup-insert key k value (entry ∷ m) = ground (
    arith,
    lookup-insert key k value m,
    e.same_iff entry.0 k,
    e.same_iff entry.0 key,
    e.same_iff key k,
  )

  pub lookup-delete :
      (k j : K) (m : Map K V) → lookup j (delete k m) ≡ (if k == j then none else lookup j m)
  unfolding lookup delete
  lookup-delete k j [] = ground arith
  lookup-delete k j ((i, w) ∷ m) =
      ground (arith, e.same_iff k j, e.same_iff i k, e.same_iff i j, lookup-delete k j m)

  pub lookup-insert_self : (k : K) (v : V) (m : Map K V) → lookup k (insert k v m) ≡ some v
  lookup-insert_self k v m = ground (arith, lookup-insert k k v m, same_refl k)

  pub lookup-delete_self : (k : K) (m : Map K V) → lookup k (delete k m) ≡ none
  lookup-delete_self k m = ground (arith, lookup-delete k k m, same_refl k)

  pub lookup-insert_ne :
      (k j : K) (v : V) (m : Map K V) → k ≢ j → lookup j (insert k v m) ≡ lookup j m
  lookup-insert_ne k j v m h = ground (arith, lookup-insert k j v m, e.same_iff k j)

  pub lookup-delete_ne : (k j : K) (m : Map K V) → k ≢ j → lookup j (delete k m) ≡ lookup j m
  lookup-delete_ne k j m h = ground (arith, lookup-delete k j m, e.same_iff k j)

module _ {K V : Type 0} ⦃e : Eq K⦄ where
  delete-absent : (k : K) (m : Map K V) → lookup k m ≡ none → delete k m ≡ m
  unfolding lookup delete
  delete-absent k [] h = refl
  delete-absent k ((j, w) ∷ m) h = ground (arith, delete-absent k m)

  -- Deleting what has just been added gives the map back.
  pub delete-insert :
      (k : K) (v : V) (m : Map K V) → lookup k m ≡ none → delete k (insert k v m) ≡ m
  unfolding lookup insert delete
  delete-insert k v [] h = ground (arith, e.same_iff k k)
  delete-insert k v ((j, w) ∷ m) h = ground (arith, delete-insert k v m)

  -- Where an entry of a map with one insertion comes from.
  pub lookup-insert_cases :
      (k j : K) (v w : V) (m : Map K V)
      → lookup j (insert k v m) ≡ some w
      → ((k ≡ j) × (v ≡ w)) ⊎ (lookup j m ≡ some w)
  lookup-insert_cases k j v w m h = ground (arith, lookup-insert k j v m, e.same_iff k j)

  pub lookup-delete-some :
      (k j : K) (w : V) (m : Map K V) → lookup j (delete k m) ≡ some w → lookup j m ≡ some w
  lookup-delete-some k j w m h = ground (arith, lookup-delete k j m)

-- No key stands in two entries.
module _ {K V : Type 0} ⦃e : Eq K⦄ where
  abbrev pub IsUnique : Map K V → Type 0
  IsUnique [] = Unit
  IsUnique ((k, v) ∷ m) = (lookup k m ≡ none) × IsUnique m

  pub insert-IsUnique : (k : K) (v : V) (m : Map K V) → IsUnique m → IsUnique (insert k v m)
  unfolding insert lookup
  insert-IsUnique k v [] u = (refl, tt)
  insert-IsUnique k v ((j, w) ∷ m) (fresh, u) = elim (Bool-cases (j == k)) [
    | inl same ↦ rw same (subst (λ i. lookup i m ≡ none) ((e.same_iff j k).0 same) fresh, u)
    | inr other ↦ rw other (
      ground (arith, lookup-insert k j v m, e.same_iff k j, e.same_iff j k),
      insert-IsUnique k v m u,
    )
  ]

  pub delete-IsUnique : (k : K) (m : Map K V) → IsUnique m → IsUnique (delete k m)
  unfolding delete
  delete-IsUnique k [] u = tt
  delete-IsUnique k ((j, w) ∷ m) (fresh, u) = elim (Bool-cases (j == k)) [
    | inl same ↦ rw same (delete-IsUnique k m u)
    | inr other ↦ rw other (ground (arith, lookup-delete k j m), delete-IsUnique k m u)
  ]

  pub found_behind :
      (k j : K) (v : V) (m : Map K V)
      → (w : V) × (lookup j m ≡ some w)
      → (w : V) × (lookup j ((k, v) ∷ m) ≡ some w)
  unfolding lookup
  found_behind k j v m (w, h) = elim (Bool-cases (k == j)) [
    | inl same ↦ (v, rw same refl)
    | inr other ↦ (w, rw other h)
  ]

  -- The key of each entry is found.
  pub lookup-entries : (m : Map K V) → All (λ p. (w : V) × (lookup p.0 m ≡ some w)) m
  unfolding lookup
  lookup-entries [] = tt
  lookup-entries ((k, v) ∷ m) = (
    (v, rw (same_refl k) refl),
    All-weaken _ _ m (λ p. found_behind k p.0 v m) (lookup-entries m),
  )

-- What a loop over keys has still to do: each entry is as it is to be, or its key is still to come.
abbrev pub Among : {K : Type 0} → K → List K → Type 0
Among k [] = ⊥
Among k (j ∷ js) = (j ≡ k) ⊎ Among k js

module _ {K V : Type 0} ⦃e : Eq K⦄ where
  pub keys-Among : (k : K) (v : V) (m : Map K V) → lookup k m ≡ some v → Among k (keys m)
  unfolding lookup
  keys-Among k v [] h = cc
  keys-Among k v ((j, w) ∷ m) h = elim (Bool-cases (j == k)) [
    | inl same ↦ inl ((e.same_iff j k).0 same)
    | inr other ↦ inr (keys-Among k v m (ground arith))
  ]

  abbrev pub Remains : (K → V → Type 0) → Map K V → List K → Type 0
  Remains P m js = (k : K) (v : V) → lookup k m ≡ some v → P k v ⊎ Among k js

  -- What a round does: an entry of another name was there before, and one under the name is good.
  abbrev pub Round : (V → Type 0) → K → Map K V → Map K V → Type 0
  Round P j m m' =
      (k : K) (v : V) → lookup k m' ≡ some v → ((j ≢ k) × (lookup k m ≡ some v)) ⊎ ((j ≡ k) × P v)

  pub Round-same :
      (P : V → Type 0) (j : K) (m : Map K V) → ((v : V) → lookup j m ≡ some v → P v) → Round P j m m
  Round-same P j m good k v h = elim (Bool-cases (j == k)) [
    | inl same ↦
        let eq = (e.same_iff j k).0 same in
        inr (eq, good v (ground (arith, subst (λ i. lookup i m ≡ lookup k m) eq)))
    | inr other ↦ inl (λ eq. absurd (ground (arith, e.same_iff j k)), h)
  ]

  pub Round-gone :
      (P : V → Type 0) (j : K) (m m' : Map K V)
      → ((k : K) → lookup k m' ≡ (if j == k then none else lookup k m))
      → Round P j m m'
  Round-gone P j m m' at k v h = elim (Bool-cases (j == k)) [
    | inl same ↦ absurd (ground (arith, at k))
    | inr other ↦ inl (λ eq. absurd (ground (arith, e.same_iff j k)), ground (arith, at k))
  ]

  pub Round-insert :
      (P : V → Type 0) (j : K) (v : V) (m : Map K V) → P v → Round P j m (insert j v m)
  Round-insert P j v m good k w h = elim (Bool-cases (j == k)) [
    | inl same ↦ inr ((e.same_iff j k).0 same, subst P (ground (arith, lookup-insert j k v m)) good)
    | inr other ↦
        inl (λ eq. absurd (ground (arith, e.same_iff j k)), ground (arith, lookup-insert j k v m))
  ]

  pub Round-mono :
      (P Q : V → Type 0) (j : K) (m m' : Map K V)
      → ((v : V) → P v → Q v)
      → Round P j m m'
      → Round Q j m m'
  Round-mono P Q j m m' weaker r k v h = elim (r k v h) [
    | inl other ↦ inl other
    | inr (same, p) ↦ inr (same, weaker v p)
  ]

  -- One round after another of the same key.
  pub Round-twice :
      (P Q : V → Type 0) (j : K) (m m' m'' : Map K V)
      → Round P j m m'
      → Round Q j m' m''
      → Round Q j m m''
  Round-twice P Q j m m' m'' first second k v h = elim (second k v h) [
    | inr good ↦ inr good
    | inl (other, there) ↦ (elim (first k v there) [
      | inl before ↦ inl before
      | inr (same, _) ↦ absurd (other same)
    ])
  ]

  pub Remains-step :
      (P : K → V → Type 0) (Q : V → Type 0) (m m' : Map K V) (j : K) (js : List K)
      → Round Q j m m'
      → ((v : V) → Q v → P j v)
      → Remains P m (j ∷ js)
      → Remains P m' js
  Remains-step P Q m m' j js round good before k v h = elim (round k v h) [
    | inr (same, q) ↦ inl (subst (λ i. P i v) same (good v q))
    | inl (other, there) ↦ (elim (before k v there) [
      | inl done ↦ inl done
      | inr (inl same) ↦ absurd (other same)
      | inr (inr later) ↦ inr later
    ])
  ]

  pub Remains-done :
      (P : K → V → Type 0) (m : Map K V)
      → Remains P m []
      → (k : K) (v : V) → lookup k m ≡ some v
      → P k v
  Remains-done P m h k v there = elim (h k v there) [ inl done ↦ done | inr later ↦ absurd later ]

module _ {K V : Type 0} ⦃e : Eq K⦄ where
  pub behind :
      (k : K) (v : V) (m : Map K V) (q : K × V)
      → lookup k m ≡ none
      → lookup q.0 m ≡ some q.1
      → lookup q.0 ((k, v) ∷ m) ≡ some q.1
  unfolding lookup
  behind k v m (j, w) fresh h = elim (Bool-cases (k == j)) [
    | inl same ↦
        absurd (ground (arith, subst (λ i. lookup i m ≡ none) ((e.same_iff k j).0 same) fresh))
    | inr other ↦ rw other h
  ]

  -- Where no key stands twice, each entry is the one that its key finds.
  pub unique-entries : (m : Map K V) → IsUnique m → All (λ q. lookup q.0 m ≡ some q.1) m
  unfolding lookup
  unique-entries [] u = tt
  unique-entries ((k, v) ∷ m) (fresh, u) =
      (rw (same_refl k) refl, All-weaken _ _ m (λ q. behind k v m q fresh) (unique-entries m u))
