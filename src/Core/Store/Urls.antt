-- ===== src/Core/Store/Urls.antt =====
-- The URLs that NewStore of core/store.go accepts.
use gorb.Prelude.{
  Text_eq, ◌≡◌, refl, sym, ap, subst, ◌∙◌, ◌⊎◌, inl, inr, true, false, Option, some, List, [], ◌∷◌,
  ◌++◌, arith, ◌==◌, Bool-cases, All, map, append_one, append_nil, Option-cases,
}
use gorb.Prelude.Text.{Text, is_empty, to_lower}
use gorb.Prelude.Exec.{Outcome, ok, err, panic}
use gorb.Core.Store.Setup.{Url, Urls, no_urls, differs, add_url, read_urls}

-- A text that is empty or the one chosen.
abbrev pub Fits : Text → Text → Type 0
Fits chosen s = (s ≡ []) ⊎ (s ≡ chosen)

is_empty_iff : (s : Text) → is_empty s ≡ true → s ≡ []
is_empty_iff [] h = refl
is_empty_iff (c ∷ s) h = absurd cc

differs-Fits : (before now : Text) → differs before now ≡ false → Fits now before
differs-Fits before now h = elim (Bool-cases (is_empty before)) [
  | inl e ↦ inl (is_empty_iff before e)
  | inr e ↦ elim (Bool-cases (before == now)) [
    | inl same ↦ inr ((Text_eq.same_iff before now).0 same)
    | inr other ↦ absurd (ground arith)
  ]
]

add_url-ok :
    (acc acc' : Urls) (u : Url)
    → add_url acc u ≡ ok acc'
    → (Fits (to_lower u.scheme) acc.scheme × Fits u.path acc.store_path)
      × (acc' ≡ record {
        scheme = to_lower u.scheme;
        store_path = u.path;
        hosts = acc.hosts ++ u.host ∷ [];
      })
unfolding add_url
add_url-ok acc acc' u h = elim (Bool-cases (differs acc.scheme (to_lower u.scheme))) [
  | inl e ↦ absurd (cc (rw e at h))
  | inr e ↦ elim (Bool-cases (differs acc.store_path u.path)) [
    | inl e' ↦ absurd (cc (rw (e, e') at h))
    | inr e' ↦ ((differs-Fits _ _ e, differs-Fits _ _ e'), sym (cc (rw (e, e') at h)))
  ]
]

-- The URLs that were read after some others, and how they fit what was found in the end.
pub record IsRead (parse : Text → Option Url) (urls : List Text) (acc found : Urls) (us : List Url)
    : Type 0 where
  pub parsed : map parse urls ≡ map some us
  pub hosts : found.hosts ≡ acc.hosts ++ map (λ u. u.host) us
  pub schemes : All (λ u. Fits found.scheme (to_lower u.scheme)) us
  pub paths : All (λ u. Fits found.store_path u.path) us
  pub scheme_kept : Fits found.scheme acc.scheme
  pub path_kept : Fits found.store_path acc.store_path

-- What fits something that is the same as, or fits, a third thing.
Fits-trans : (x y z : Text) → Fits y x → Fits z y → Fits z x
Fits-trans x y z (inl e) h = inl e
Fits-trans x y z (inr e) (inl e') = inl (e ∙ e')
Fits-trans x y z (inr e) (inr e') = inr (e ∙ e')

module _ (parse : Text → Option Url) where
  IsRead-cons :
      (u : Text) (urls : List Text) (acc acc' found : Urls) (uri : Url) (us : List Url)
      → parse u ≡ some uri
      → add_url acc uri ≡ ok acc'
      → IsRead parse urls acc' found us
      → IsRead parse (u ∷ urls) acc found (uri ∷ us)
  IsRead-cons u urls acc acc' found uri us e added h =
      let (fits, made) = add_url-ok acc acc' uri added in
      let scheme : acc'.scheme ≡ to_lower uri.scheme = ap (λ a. a.scheme) made in
      let path : acc'.store_path ≡ uri.path = ap (λ a. a.store_path) made in
      record {
        parsed = cc (e, h.parsed);
        hosts =
            h.hosts
            ∙ ap (λ a. a.hosts ++ map (λ u. u.host) us) made
            ∙ append_one acc.hosts uri.host _;
        schemes = (subst (Fits found.scheme) scheme h.scheme_kept, h.schemes);
        paths = (subst (Fits found.store_path) path h.path_kept, h.paths);
        scheme_kept = Fits-trans _ _ _ fits.0 (subst (Fits found.scheme) scheme h.scheme_kept);
        path_kept = Fits-trans _ _ _ fits.1 (subst (Fits found.store_path) path h.path_kept);
      }

  read_urls-from :
      (urls : List Text) (acc found : Urls)
      → read_urls parse urls acc ≡ ok found
      → (us : List Url) × IsRead parse urls acc found us
  unfolding read_urls
  read_urls-from [] acc found h =
      let same : acc ≡ found = cc h in
      (
        [],
        record {
          parsed = refl;
          hosts = sym (append_nil acc.hosts ∙ ap (λ a. a.hosts) same);
          schemes = tt;
          paths = tt;
          scheme_kept = inr (ap (λ a. a.scheme) same);
          path_kept = inr (ap (λ a. a.store_path) same);
        },
      )
  read_urls-from (u ∷ urls) acc found h = elim (Option-cases (parse u)) [
    | inl e ↦ absurd (cc (rw (e, read_urls) at h))
    | inr (uri, e) ↦
        go uri e (add_url acc uri) refl (rw (e, read_urls) at h)
          (λ acc'. read_urls-from urls acc' found)
  ]
    where
      go :
          (uri : Url)
          → parse u ≡ some uri
          → (r : Outcome Urls) → add_url acc uri ≡ r
          → (elim r [ ok acc' ↦ read_urls parse urls acc' | err e ↦ err e | panic ↦ panic ])
            ≡ ok found
          → ((acc' : Urls)
              → read_urls parse urls acc' ≡ ok found
              → (us : List Url) × IsRead parse urls acc' found us)
          → (us : List Url) × IsRead parse (u ∷ urls) acc found us
      go uri e (ok acc') added h next =
          let (us, rest) = next acc' h in
          (uri ∷ us, IsRead-cons u urls acc acc' found uri us e added rest)
      go uri e (err x) added h next = absurd cc
      go uri e panic added h next = absurd cc

  -- When NewStore accepts its URLs, each of them parses, the hosts are theirs in the same order, and
  -- each scheme, in small letters, and each path is the one chosen or is empty.
  read_urls-IsRead :
      (urls : List Text) (found : Urls)
      → read_urls parse urls no_urls ≡ ok found
      → (us : List Url) × IsRead parse urls no_urls found us
  read_urls-IsRead urls found = read_urls-from urls no_urls found
