-- ===== src/Link/Names.antt =====
-- gorb-docker-link/main.go, invokeFunc: the names of services and backends, made of names of images
-- and containers.
use gorb.Prelude.{
  Text_eq, ℕ, suc, ◌<◌, ◌^◌, ◌≡◌, ◌≢◌, refl, sym, ap, ◌∙◌, ◌||◌, ◌&&◌, [], ◌∷◌, ◌++◌, arith, nat_eq,
  if◌then◌else◌, map, All, All-append, inl, inr, Bool-cases, subst,
}
use gorb.Prelude.Text.{Text, is_empty, Lacks}
use gorb.Prelude.Int.{ℤ, pos, negsuc}
use gorb.Prelude.Decimal.{decimal, decimal_int, decimal_injective, decimal-All}
use gorb.Link.{ApiPort}

abbrev pub dash : ℕ
dash = b'-'

unfoldable pub mangle_code : ℕ → ℕ
mangle_code c = if nat_eq c b'/' || nat_eq c b':' then dash else c

-- `strings.Map` with the function of invokeFunc
unfoldable pub mangle : Text → Text
unfolding mangle_code
mangle = map mangle_code

unfoldable pub trim_left : ℕ → Text → Text
trim_left cut [] = []
trim_left cut (c ∷ s) = let rest = trim_left cut s in if nat_eq c cut then rest else c ∷ s

unfoldable pub trim_right : ℕ → Text → Text
trim_right cut [] = []
trim_right cut (c ∷ s) =
    let rest = trim_right cut s in if is_empty rest && nat_eq c cut then [] else c ∷ rest

-- `strings.Trim` with a set of one character
unfoldable pub trim : ℕ → Text → Text
unfolding trim_left trim_right
trim cut s = trim_right cut (trim_left cut s)

-- `%s-%d-%s`
unfoldable pub port_name : Text → ℤ → Text → Text
port_name name port type = mangle name ++ dash ∷ decimal_int port ++ dash ∷ type

unfoldable pub service_id : Text → ApiPort → Text
service_id vs b = port_name vs b.private_port b.type

unfoldable pub backend_id : Text → ApiPort → Text
backend_id rs b = trim dash (port_name rs b.public_port b.type)

Lacks-middle : (sep : ℕ) (xs ys : Text) → ¬ Lacks sep (xs ++ sep ∷ ys)
Lacks-middle sep [] ys h = h.0 refl
Lacks-middle sep (x ∷ xs) ys h = Lacks-middle sep xs ys h.1

-- A text with a separator is taken apart at the last one in one way only.
last_sep_unique :
    (sep : ℕ) (a c b d : Text)
    → Lacks sep b
    → Lacks sep d
    → a ++ sep ∷ b ≡ c ++ sep ∷ d
    → (a ≡ c) × (b ≡ d)
last_sep_unique sep [] [] b d hb hd e = (refl, ground arith)
last_sep_unique sep [] (x ∷ c) b d hb hd e =
    let tail : b ≡ c ++ sep ∷ d = ground (arith, e) in
    absurd (Lacks-middle sep c d (subst (Lacks sep) tail hb))
last_sep_unique sep (x ∷ a) [] b d hb hd e =
    let tail : a ++ sep ∷ b ≡ d = ground (arith, e) in
    absurd (Lacks-middle sep a b (subst (Lacks sep) (sym tail) hd))
last_sep_unique sep (x ∷ a) (y ∷ c) b d hb hd e = ground (arith, last_sep_unique sep a c b d hb hd)

-- Two services have one name only if their images do once mangled, and their ports and the types
-- of these are the same; for ports that an int64 holds and types without a dash.
service_id_injective :
    (v w : Text) (a b : ApiPort) (m n : ℕ)
    → a.private_port ≡ pos m
    → b.private_port ≡ pos n
    → m < 2 ^ 63
    → n < 2 ^ 63
    → Lacks dash a.type
    → Lacks dash b.type
    → service_id v a ≡ service_id w b
    → (mangle v ≡ mangle w) × (m ≡ n) × (a.type ≡ b.type)
unfolding service_id port_name decimal_int
service_id_injective v w a b m n ea eb hm hn la lb e =
    (names.0, decimal_injective m n (omega arith) (omega arith) names.1, outer.1)
  where
    joined :
        (mangle v ++ dash ∷ decimal m) ++ dash ∷ a.type
        ≡ (mangle w ++ dash ∷ decimal n) ++ dash ∷ b.type
    joined = ap (λ z. port_name v z a.type) (sym ea) ∙ e ∙ ap (λ z. port_name w z b.type) eb

    outer : (mangle v ++ dash ∷ decimal m ≡ mangle w ++ dash ∷ decimal n) × (a.type ≡ b.type)
    outer = last_sep_unique dash _ _ a.type b.type la lb joined

    names : (mangle v ≡ mangle w) × (decimal m ≡ decimal n)
    names =
        last_sep_unique dash _ _ (decimal m) (decimal n) (decimal-All _ m (λ c l u e. omega arith))
          (decimal-All _ n (λ c l u e. omega arith)) outer.0

-- No character that a path or a host separates by.
abbrev Clean : ℕ → Type 0
Clean c = (c ≢ b'/') × (c ≢ b':')

abbrev IsClean : Text → Type 0
IsClean = All Clean

mangle-IsClean : (s : Text) → IsClean (mangle s)
unfolding mangle
mangle-IsClean [] = tt
mangle-IsClean (c ∷ s) = (ground arith, mangle-IsClean s)

decimal-IsClean : (n : ℕ) → IsClean (decimal n)
decimal-IsClean n = decimal-All Clean n λ c l u. (λ e. omega arith, λ e. omega arith)

decimal_int_pos : (n : ℕ) → decimal n ≡ decimal_int (pos n)
unfolding decimal_int
decimal_int_pos n = refl

decimal_int_negsuc : (n : ℕ) → dash ∷ decimal (suc n) ≡ decimal_int (negsuc n)
unfolding decimal_int
decimal_int_negsuc n = refl

dash-IsClean : (s : Text) → IsClean s → IsClean (dash ∷ s)
dash-IsClean s h = ((cc, cc), h)

decimal_int-IsClean : (z : ℤ) → IsClean (decimal_int z)
decimal_int-IsClean (pos n) = subst IsClean (decimal_int_pos n) (decimal-IsClean n)
decimal_int-IsClean (negsuc n) =
    subst IsClean (decimal_int_negsuc n) (dash-IsClean (decimal (suc n)) (decimal-IsClean (suc n)))

port_name-IsClean :
    (name : Text) (port : ℤ) (type : Text) → IsClean type → IsClean (port_name name port type)
unfolding port_name
port_name-IsClean name port type h =
    All-append Clean (mangle name ++ dash ∷ decimal_int port) (dash ∷ type) (dash-IsClean type h) (
      All-append Clean (mangle name) (dash ∷ decimal_int port)
        (dash-IsClean (decimal_int port) (decimal_int-IsClean port)) (mangle-IsClean name))

trim_left-IsClean : (cut : ℕ) (s : Text) → IsClean s → IsClean (trim_left cut s)
unfolding trim_left
trim_left-IsClean cut [] h = tt
trim_left-IsClean cut (c ∷ s) h = elim (Bool-cases (nat_eq c cut)) [
  | inl e ↦ rw e (trim_left-IsClean cut s h.1)
  | inr e ↦ rw e h
]

trim_right-IsClean : (cut : ℕ) (s : Text) → IsClean s → IsClean (trim_right cut s)
unfolding trim_right
trim_right-IsClean cut [] h = tt
trim_right-IsClean cut (c ∷ s) h = elim (Bool-cases (is_empty (trim_right cut s) && nat_eq c cut)) [
  | inl e ↦ rw e tt
  | inr e ↦ rw e (h.0, trim_right-IsClean cut s h.1)
]

-- The names of services and backends hold no slash and no colon, whatever the images and containers
-- are called, if the type of the port holds none.
names-IsClean :
    (vs rs : Text) (b : ApiPort)
    → IsClean b.type
    → IsClean (service_id vs b) × IsClean (backend_id rs b)
unfolding service_id backend_id trim
names-IsClean vs rs b h = (
  port_name-IsClean vs b.private_port b.type h,
  trim_right-IsClean dash _
      (trim_left-IsClean dash _ (port_name-IsClean rs b.public_port b.type h)),
)
