-- ===== src/Client/Proxy/NoProxy.antt =====
-- The hosts that a no-proxy list names.
use mathlib.Core.Path.{ap₂}
use cor_rest.Base.{
  ◌==◌, Bool-cases, Option-cases, Bytes, length, take, drop, get_elem?, length-append, length-drop,
  lower, str_case_eq, strn_case_eq, ℕ, zero, suc, ◌-◌, ◌<◌, ◌≡◌, refl, sym, ap, ◌∙◌, subst, ◌⊎◌,
  inl, inr, true, ◌&&◌, some, [], ◌∷◌, ◌++◌, arith,
}
use cor_rest.Client.Proxy.{or_nul, is_within}

-- The host is the name, or a label and more stand before it; upper and lower case are the same.
abbrev pub InDomain : Bytes → Bytes → Type 0
InDomain name host =
    (str_case_eq name host ≡ true)
    ⊎ ((p : Bytes) × (q : Bytes) × (host ≡ p ++ b'.' ∷ q) × (str_case_eq name q ≡ true))

length-str_case_eq : (a b : Bytes) → str_case_eq a b ≡ true → length a ≡ length b
unfolding str_case_eq
length-str_case_eq [] [] h = refl
length-str_case_eq [] (y ∷ b) h = absurd (ground (arith, h))
length-str_case_eq (x ∷ a) [] h = absurd (ground (arith, h))
length-str_case_eq (x ∷ a) (y ∷ b) h =
    let rest : str_case_eq a b ≡ true = ground (arith, h) in ap suc (length-str_case_eq a b rest)

strn_case_eq-whole :
    (a b : Bytes) → length a ≡ length b → strn_case_eq (length a) a b ≡ str_case_eq a b
unfolding str_case_eq strn_case_eq
strn_case_eq-whole [] [] h = refl
strn_case_eq-whole [] (y ∷ b) h = absurd (omega (arith, h))
strn_case_eq-whole (x ∷ a) [] h = absurd (omega (arith, h))
strn_case_eq-whole (x ∷ a) (y ∷ b) h =
    ap (λ t. lower x == lower y && t) (strn_case_eq-whole a b (omega (arith, h)))

split_at : (s : Bytes) (i c : ℕ) → get_elem? s i ≡ some c → s ≡ take i s ++ c ∷ drop (suc i) s
split_at [] i c h = absurd (ground (arith, h))
split_at (x ∷ s) zero c h = let e : x ≡ c = ground (arith, h) in ap (λ t. t ∷ s) e
split_at (x ∷ s) (suc i) c h = ap (λ t. x ∷ t) (split_at s i c h)

get_elem?-middle : (p q : Bytes) (c : ℕ) → get_elem? (p ++ c ∷ q) (length p) ≡ some c
get_elem?-middle [] q c = refl
get_elem?-middle (x ∷ p) q c = get_elem?-middle p q c

pub drop-middle : (p q : Bytes) (c : ℕ) → drop (suc (length p)) (p ++ c ∷ q) ≡ q
drop-middle [] q c = refl
drop-middle (x ∷ p) q c = drop-middle p q c

-- The test of an entry's name is this relation.
pub is_within_sound : (name host : Bytes) → is_within name host ≡ true → InDomain name host
unfolding is_within
is_within_sound name host h =
    let n = length name in
    let l = length host in
    elim (Bool-cases (n == l && strn_case_eq n name host)) [
      | inl same ↦
          let size : length name ≡ length host = ground (arith, same) in
          let equal : strn_case_eq n name host ≡ true = ground (arith, same) in
          inl (sym (strn_case_eq-whole name host size) ∙ equal)
      | inr other ↦
          let longer : n < l = ground (arith, h, other) in
          let dot : or_nul (get_elem? host (l - n - 1)) == b'.' ≡ true = ground (arith, h, other) in
          let equal : strn_case_eq n name (drop (l - n) host) ≡ true = ground (arith, h, other) in
          let i = l - n - 1 in
          let q = drop (l - n) host in
          let size : length name ≡ length q = omega (arith, longer, length-drop (l - n) host) in
          elim (Option-cases (get_elem? host i)) [
            | inl nothing ↦ absurd (ground (arith, nothing, dot))
            | inr (c, there) ↦
                let is_dot : c ≡ b'.' = ground (arith, there, dot) in
                let next : suc i ≡ l - n = omega (arith, longer) in
                inr (
                  take i host,
                  q,
                  split_at host i c there ∙ ap₂ (λ x k. take i host ++ x ∷ drop k host) is_dot next,
                  sym (strn_case_eq-whole name q size) ∙ equal,
                )
          ]
    ]

is_within-domain :
    (name p q : Bytes) → str_case_eq name q ≡ true → is_within name (p ++ b'.' ∷ q) ≡ true
unfolding is_within
is_within-domain name p q same =
    let host = p ++ b'.' ∷ q in
    let n = length name in
    let l = length host in
    let size = length-str_case_eq name q same in
    let long = length-append p (b'.' ∷ q) in
    let at_dot : l - n - 1 ≡ length p = omega (arith, size, long) in
    let behind : l - n ≡ suc (length p) = omega (arith, size, long) in
    let dot : or_nul (get_elem? host (l - n - 1)) ≡ b'.' =
      ap (λ k. or_nul (get_elem? host k)) at_dot ∙ ap or_nul (get_elem?-middle p q b'.') in
    let tail : strn_case_eq n name (drop (l - n) host) ≡ true =
      ap (strn_case_eq n name) (ap (λ k. drop k host) behind ∙ drop-middle p q b'.')
      ∙ strn_case_eq-whole name q size
      ∙ same in
    let longer : n < l = omega (arith, size, long) in ground (arith, dot, tail, longer)

pub is_within_complete : (name host : Bytes) → InDomain name host → is_within name host ≡ true
unfolding is_within
is_within_complete name host (inl same) =
    let size = length-str_case_eq name host same in
    ground (arith, size, strn_case_eq-whole name host size, same)
is_within_complete name host (inr (p, q, split, same)) =
    subst (λ t. is_within name t ≡ true) (sym split) (is_within-domain name p q same)
