-- ===== src/Core/Store/Keys.antt =====
-- The keys and the documents of the store, read back.
use gorb.Prelude.{
  Text_eq, ◌≡◌, refl, Bool, true, false, [], ◌∷◌, ◌++◌, none, some, arith, nat_eq_iff,
}
use gorb.Prelude.Text.{Text, is_empty, Lacks}
use gorb.Core.Options.{bool_eq}
use gorb.Core.Store.{Store, slash, after_last_slash, get_id, service_key}

after_last_slash-Lacks : (s : Text) → Lacks slash s → after_last_slash s ≡ none
unfolding after_last_slash
after_last_slash-Lacks [] h = refl
after_last_slash-Lacks (c ∷ s) (h, hs) =
    rw (after_last_slash-Lacks s hs) (ground (arith, nat_eq_iff c slash))

after_last_slash-append :
    (path id : Text) → Lacks slash id → after_last_slash (path ++ slash ∷ id) ≡ some id
unfolding after_last_slash
after_last_slash-append [] id h = rw (after_last_slash-Lacks id h)
after_last_slash-append (c ∷ path) id h = rw (after_last_slash-append path id h)

-- The name of a service comes back from the key under which the store holds it, if the name has no
-- slash and the path of services is not empty.
pub get_id-service_key :
    (s : Store) (vs_id : Text)
    → is_empty s.store_service_path ≡ false
    → Lacks slash vs_id
    → get_id (service_key s vs_id) ≡ vs_id
unfolding get_id
get_id-service_key s vs_id h lacks = go s.store_service_path h
  where
    go : (path : Text) → is_empty path ≡ false → get_id (path ++ slash ∷ vs_id) ≡ vs_id
    go [] e = cc
    go (c ∷ path) e = ground (arith, after_last_slash-append path vs_id lacks)

pub bool_eq_refl : (b : Bool) → bool_eq b b ≡ true
bool_eq_refl true = refl
bool_eq_refl false = refl
