-- ===== src/Reply/Parts.antt =====
-- What the parts of an answer's headers are, by relations of their own.
use cor_rest.Base.{
  ltb, leb, ◌==◌, if◌then◌else◌, ltb→lt, lt→ltb, leb→le, le→leb, ==→eq, &&→both, both→&&,
  Bool-cases, Bytes, All, codes, str_eq, str_eq_iff, str_case_eq, strn_case_eq, ℕ, ◌≤◌, ◌<◌, ◌≡◌,
  refl, ◌≢◌, ◌↔◌, ◌⊎◌, inl, inr, Bool, true, false, ◌&&◌, ◌||◌, Option, none, some, List, [], ◌∷◌,
  arith,
}
use cor_rest.Reply.{prefers, first_allow, type_of_answer, has_body, Out}

abbrev pub optional : Bytes → Option Bytes → List (Bytes × Bytes)
optional key none = []
optional key (some v) = (key, v) ∷ []

-- The answer has a body, rendered or to be rendered.
abbrev pub HasBody : Out → Type 0
HasBody o = (0 < o.payload_size) ⊎ ((o.no_render ≡ true) × (o.has_tree ≡ true))

-- A created entity or an error
abbrev pub IsJsonStatus : ℕ → Type 0
IsJsonStatus code = (code ≡ 201) ⊎ ((400 ≤ code) × (code ≤ 599))

-- Without a body there is no type; with one it is JSON for such a status, else the negotiated one.
abbrev pub IsTyped : Out → List (Bytes × Bytes) → Type 0
IsTyped o typed =
    (¬ HasBody o × (typed ≡ []))
    ⊎ (HasBody o
        × IsJsonStatus o.http_status_code
        × (typed ≡ (codes "Content-Type", codes "application/json") ∷ []))
    ⊎ (HasBody o
        × ¬ IsJsonStatus o.http_status_code
        × (typed ≡ optional (codes "Content-Type") o.content_type))

-- A header Prefer whose value begins with "ngsi-ld=", in upper or lower case
abbrev pub SomePrefers : List (Bytes × Bytes) → Type 0
SomePrefers [] = ⊥
SomePrefers (h ∷ hs) =
    ((str_case_eq h.0 (codes "Prefer") ≡ true) × (strn_case_eq 8 h.1 (codes "ngsi-ld=") ≡ true))
    ⊎ SomePrefers hs

abbrev pub IsApplied : List (Bytes × Bytes) → List (Bytes × Bytes) → Type 0
IsApplied received applied =
    (SomePrefers received × (applied ≡ (codes "Preference-Applied", codes "ngsi-ld=1.9.1") ∷ []))
    ⊎ (¬ SomePrefers received × (applied ≡ []))

-- The value of the first header Allow, if there is one
abbrev pub IsFirstAllow : List (Bytes × Bytes) → Option Bytes → Type 0
IsFirstAllow hs none = All (λ h. h.0 ≢ codes "Allow") hs
IsFirstAllow [] (some v) = ⊥
IsFirstAllow (h ∷ hs) (some v) =
    ((h.0 ≡ codes "Allow") × (h.1 ≡ v)) ⊎ ((h.0 ≢ codes "Allow") × IsFirstAllow hs (some v))

abbrev pub typed_part : Out → List (Bytes × Bytes)
unfolding type_of_answer
typed_part o = if has_body o then optional (codes "Content-Type") (type_of_answer o) else []

json_status : (code : ℕ) → (code == 201 || leb 400 code && leb code 599) ≡ true ↔ IsJsonStatus code
json_status code = (
  λ h. elim (Bool-cases (code == 201)) [
    | inl created ↦ inl (==→eq code 201 created)
    | inr other ↦
        inr (leb→le 400 code (ground (arith, h, other)), leb→le code 599 (ground (arith, h, other)))
  ],
  λ s. elim s [
    | inl created ↦ rw created refl
    | inr (low, high) ↦
        let l = le→leb 400 code low in let u = le→leb code 599 high in ground (arith, l, u)
  ],
)

has_body-HasBody : (o : Out) → has_body o ≡ true ↔ HasBody o
has_body-HasBody o = (
  λ h. elim (Bool-cases (ltb 0 o.payload_size)) [
    | inl some_bytes ↦ inl (ltb→lt 0 o.payload_size some_bytes)
    | inr empty ↦ inr (ground (arith, h, empty), ground (arith, h, empty))
  ],
  λ s. elim s [
    | inl some_bytes ↦ let b = lt→ltb 0 o.payload_size some_bytes in ground (arith, b)
    | inr (delayed, tree) ↦ ground (arith, delayed, tree)
  ],
)

true-not-false : (b : Bool) → b ≡ true → b ≡ false → ⊥
true-not-false b h k = ground (arith, h, k)

pub typed_part-IsTyped : (o : Out) → IsTyped o (typed_part o)
unfolding typed_part type_of_answer
typed_part-IsTyped o =
    let body = has_body-HasBody o in
    let json = json_status o.http_status_code in
    elim (Bool-cases (has_body o)) [
      | inr no_body ↦ inl (λ b. true-not-false (has_body o) (body.1 b) no_body, rw no_body refl)
      | inl some_body ↦
          elim (Bool-cases (
            o.http_status_code == 201
            || leb 400 o.http_status_code && leb o.http_status_code 599)) [
              | inl is_json ↦
                  inr (inl (body.0 some_body, json.0 is_json, rw (some_body, is_json) refl))
              | inr other ↦ inr (
                  inr (
                    body.0 some_body,
                    λ j. true-not-false _ (json.1 j) other,
                    rw (some_body, other) refl,
                  ))
            ]
    ]

prefers-SomePrefers : (hs : List (Bytes × Bytes)) → prefers hs ≡ true ↔ SomePrefers hs
unfolding prefers
prefers-SomePrefers [] = (λ h. absurd (ground (arith, h)), λ s. absurd s)
prefers-SomePrefers (h ∷ hs) =
    let more = prefers-SomePrefers hs in
    let key = str_case_eq h.0 (codes "Prefer") in
    let value = strn_case_eq 8 h.1 (codes "ngsi-ld=") in
    (
      λ e. elim (Bool-cases (key && value)) [
        | inl here ↦ inl (&&→both key value here)
        | inr not_here ↦ inr (more.0 (ground (arith, e, not_here)))
      ],
      λ s. elim s [
        | inl (k, v) ↦ let both = both→&& key value k v in ground (arith, both)
        | inr there ↦ let m = more.1 there in ground (arith, m)
      ],
    )

abbrev pub applied_part : List (Bytes × Bytes) → List (Bytes × Bytes)
unfolding prefers
applied_part received =
    if prefers received then (codes "Preference-Applied", codes "ngsi-ld=1.9.1") ∷ [] else []

pub applied_part-IsApplied :
    (received : List (Bytes × Bytes)) → IsApplied received (applied_part received)
unfolding applied_part
applied_part-IsApplied received =
    let some_prefers = prefers-SomePrefers received in
    elim (Bool-cases (prefers received)) [
      | inl yes_there ↦ inl (some_prefers.0 yes_there, rw yes_there refl)
      | inr no_one ↦
          inr (λ s. true-not-false (prefers received) (some_prefers.1 s) no_one, rw no_one refl)
    ]

IsFirstAllow-later :
    (h : Bytes × Bytes) (hs : List (Bytes × Bytes)) (v : Option Bytes)
    → h.0 ≢ codes "Allow"
    → IsFirstAllow hs v
    → IsFirstAllow (h ∷ hs) v
IsFirstAllow-later h hs none other later = (other, later)
IsFirstAllow-later h hs (some v) other later = inr (other, later)

pub first_allow-IsFirstAllow : (hs : List (Bytes × Bytes)) → IsFirstAllow hs (first_allow hs)
unfolding first_allow
first_allow-IsFirstAllow [] = tt
first_allow-IsFirstAllow (h ∷ hs) =
    let same = str_eq_iff h.0 (codes "Allow") in
    elim (Bool-cases (str_eq h.0 (codes "Allow"))) [
      | inl e ↦ rw e (inl (same.0 e, refl))
      | inr e ↦ rw e (
          IsFirstAllow-later h hs (first_allow hs)
            (λ k. true-not-false (str_eq h.0 (codes "Allow")) (same.1 k) e)
            (first_allow-IsFirstAllow hs))
    ]
