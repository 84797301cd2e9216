-- ===== src/Client/Proxy/Entry.antt =====
-- The name that an entry of a no-proxy list stands for.
use cor_rest.Base.{
  ◌==◌, ==→eq, Bool-cases, Option-cases, Bytes, length, take, drop, take-append, codes, str_eq,
  str_eq_iff, has_char, index_char, ℕ, suc, ◌+◌, ◌≡◌, refl, sym, ap, ◌∙◌, subst, ◌≢◌, ◌↔◌, ◌⊎◌, inl,
  inr, true, false, ◌||◌, none, some, [], ◌∷◌, ◌++◌, arith,
}
use cor_rest.Client.Proxy.{without_port, without_dot, entry_matches}
use cor_rest.Client.Proxy.NoProxy.{InDomain, drop-middle, is_within_sound, is_within_complete}

-- The entry is the name, ":" and a port: it has one colon, and no "]" as an IPv6 address has.
pub record HasPort (e name : Bytes) : Type 0 where
  pub port : Bytes
  pub is_split : e ≡ name ++ b':' ∷ port
  pub first_colon : has_char b':' name ≡ false
  pub last_colon : has_char b':' port ≡ false
  pub no_bracket : has_char b']' e ≡ false

-- The entry less its port, if it has one
abbrev pub Names : Bytes → Bytes → Type 0
Names e name = HasPort e name ⊎ ((name ≡ e) × ((n : Bytes) → ¬ HasPort e n))

-- The name less a dot before it, if it has one
abbrev pub Undotted : Bytes → Bytes → Type 0
Undotted name bare = (name ≡ b'.' ∷ bare) ⊎ ((bare ≡ name) × ((t : Bytes) → name ≢ b'.' ∷ t))

-- The entry is "*", or names the host or its domain.
abbrev pub Spares : Bytes → Bytes → Type 0
Spares host e =
    (name : Bytes) × (Names e name
      × ((name ≡ codes "*") ⊎ ((bare : Bytes) × (Undotted name bare × InDomain bare host))))

index_char-append :
    (c : ℕ) (n p : Bytes) → has_char c n ≡ false → index_char c (n ++ c ∷ p) ≡ some (length n)
unfolding index_char has_char
index_char-append c [] p h = ground arith
index_char-append c (x ∷ n) p h =
    let other : x == c ≡ false = ground (arith, h) in
    let later = index_char-append c n p (ground (arith, h)) in ground (arith, other, later)

index_char-some :
    (c : ℕ) (s : Bytes) (i : ℕ)
    → index_char c s ≡ some i
    → (s ≡ take i s ++ c ∷ drop (suc i) s) × (has_char c (take i s) ≡ false)
unfolding index_char has_char
index_char-some c [] i h = absurd (ground (arith, h))
index_char-some c (x ∷ s) i h = elim (Bool-cases (x == c)) [
  | inl e ↦
      let at_start : i ≡ 0 = ground (arith, e, h) in
      rw at_start (ap (λ t. t ∷ s) (==→eq x c e), refl)
  | inr e ↦ elim (Option-cases (index_char c s)) [
    | inl nothing ↦ absurd (ground (arith, e, nothing, h))
    | inr (k, there) ↦
        let next : i ≡ suc k = ground (arith, e, there, h) in
        let (split, first) = index_char-some c s k there in
        rw next (ap (λ t. x ∷ t) split, ground (arith, e, first))
  ]
]

HasPort-index :
    (e name : Bytes) (h : HasPort e name)
    → (index_char b':' e ≡ some (length name))
      × ((drop (length name + 1) e ≡ h.port) × (take (length name) e ≡ name))
HasPort-index e name h =
    let behind : length name + 1 ≡ suc (length name) = omega arith in
    (
      ap (index_char b':') h.is_split ∙ index_char-append b':' name h.port h.first_colon,
      (
        ap (λ k. drop k e) behind
            ∙ ap (drop (suc (length name))) h.is_split
            ∙ drop-middle name h.port b':',
        ap (take (length name)) h.is_split ∙ take-append name (b':' ∷ h.port),
      ),
    )

without_port-HasPort : (e name : Bytes) → HasPort e name → without_port e ≡ name
unfolding without_port
without_port-HasPort e name h =
    let (found, (behind, front)) = HasPort-index e name h in
    let last = ap (has_char b':') behind ∙ h.last_colon in
    rw (found, h.no_bracket, last, without_port) front

-- An entry without a colon, with a "]" or a second colon, and with a port
without_port-none : (e : Bytes) → index_char b':' e ≡ none → Names e (without_port e)
unfolding without_port
without_port-none e h =
    let whole : without_port e ≡ e = rw (h, without_port) refl in
    inr
      (whole, λ n port. let found = (HasPort-index e n port).0 in absurd (ground (arith, h, found)))

without_port-some : (e : Bytes) (i : ℕ) → index_char b':' e ≡ some i → Names e (without_port e)
unfolding without_port
without_port-some e i h =
    let is_other = has_char b']' e || has_char b':' (drop (i + 1) e) in
    elim (Bool-cases is_other) [
      | inl other ↦
          let whole : without_port e ≡ e = rw (h, other, without_port) refl in
          inr (
            whole,
            λ n port.
                let (found, (behind, front)) = HasPort-index e n port in
                let same : i ≡ length n = ground (arith, h, found) in
                let last =
                  ap (λ k. has_char b':' (drop (k + 1) e)) same
                  ∙ ap (has_char b':') behind
                  ∙ port.last_colon in
                absurd (ground (arith, other, last, port.no_bracket)),
          )
      | inr plain ↦
          let front : without_port e ≡ take i e = rw (h, plain, without_port) refl in
          let (split, first) = index_char-some b':' e i h in
          let next : i + 1 ≡ suc i = omega arith in
          let last : has_char b':' (drop (i + 1) e) ≡ false = ground (arith, plain) in
          subst (λ n. Names e n) (sym front)
            (inl (record {
              port = drop (suc i) e;
              is_split = split;
              first_colon = first;
              last_colon = sym (ap (λ k. has_char b':' (drop k e)) next) ∙ last;
              no_bracket = ground (arith, plain);
            }))
    ]

without_port-Names : (e : Bytes) → Names e (without_port e)
without_port-Names e = elim (Option-cases (index_char b':' e)) [
  | inl nothing ↦ without_port-none e nothing
  | inr (i, there) ↦ without_port-some e i there
]

without_dot-Undotted : (name : Bytes) → Undotted name (without_dot name)
without_dot-Undotted [] = inr (refl, λ t e. ground (arith, e))
without_dot-Undotted (c ∷ s) = elim (Bool-cases (c == b'.')) [
  | inl dot ↦ rw dot (inl (ap (λ x. x ∷ s) (==→eq c b'.' dot)))
  | inr other ↦
      rw other
        (inr (refl, λ t e. let same : c ≡ b'.' = ground (arith, e) in ground (arith, same, other)))
]

Undotted-without_dot : (name bare : Bytes) → Undotted name bare → without_dot name ≡ bare
Undotted-without_dot name bare (inl e) = ap without_dot e
Undotted-without_dot name bare (inr (same, no_dot)) = elim (without_dot-Undotted name) [
  | inl e ↦ absurd (no_dot _ e)
  | inr (e, l) ↦ e ∙ sym same
]

Names-without_port : (e name : Bytes) → Names e name → without_port e ≡ name
Names-without_port e name (inl port) = without_port-HasPort e name port
Names-without_port e name (inr (same, no_port)) = elim (without_port-Names e) [
  | inl port ↦ absurd (no_port _ port)
  | inr (whole, l) ↦ whole ∙ sym same
]

pub entry_matches-Spares : (host e : Bytes) → entry_matches host e ≡ true ↔ Spares host e
unfolding entry_matches
entry_matches-Spares host e =
    let name = without_port e in
    (
      λ h. (
        name,
        (
          without_port-Names e,
          elim (Bool-cases (str_eq name (codes "*"))) [
            | inl star ↦ inl ((str_eq_iff name (codes "*")).0 star)
            | inr other ↦ inr (
              without_dot name,
              (
                without_dot-Undotted name,
                is_within_sound (without_dot name) host (ground (arith, h, other)),
              ),
            )
          ],
        ),
      ),
      λ (n, (names, s)).
          let same = Names-without_port e n names in
          elim s [
            | inl star ↦
                let is_star = (str_eq_iff name (codes "*")).1 (same ∙ star) in
                ground (arith, is_star)
            | inr (bare, (undotted, domain)) ↦
                let is_bare = ap without_dot same ∙ Undotted-without_dot n bare undotted in
                let within =
                  is_within_complete (without_dot name) host
                    (subst (λ t. InDomain t host) (sym is_bare) domain) in
                ground (arith, within)
          ],
    )
