-- ===== src/Reply/Headers.antt =====
-- The headers of an answer, as one list.
use mathlib.Core.List.{append_assoc, append-nil}
use cor_rest.Base.{
  ltb, if◌then◌else◌, Bool-cases, Bytes, length, take, take-nil, codes, ℕ, zero, suc, ◌≡◌, refl,
  sym, ap, ◌∙◌, inl, inr, Bool, true, false, Option, none, some, List, [], ◌∷◌, ◌++◌, arith,
}
use cor_rest.Verb.{Verb}
use cor_rest.Reply.Parts.{
  optional, IsTyped, IsApplied, IsFirstAllow, typed_part, typed_part-IsTyped, applied_part,
  applied_part-IsApplied, first_allow-IsFirstAllow,
}
use cor_rest.Reply.{
  hdr_add, add_all, add_some, prefers, first_allow, type_of_answer, has_body, is_options,
  max_age_text, add_preflight, add_cors, response_header_v_build, Out, Cors,
}

hdr_add-take :
    (max : ℕ) (h : Bytes × Bytes) (xs : List (Bytes × Bytes))
    → hdr_add max h (take max xs) ≡ take max (xs ++ h ∷ [])
unfolding hdr_add
hdr_add-take zero h xs = refl
hdr_add-take (suc zero) h [] = refl
hdr_add-take (suc (suc n)) h [] = ground arith
hdr_add-take (suc n) h (x ∷ xs) =
    let later = hdr_add-take n h xs in
    elim (Bool-cases (ltb (length (take n xs)) n)) [ inl e ↦ ground arith | inr e ↦ ground arith ]

add_all-take :
    (max : ℕ) (hs xs : List (Bytes × Bytes)) → add_all max hs (take max xs) ≡ take max (xs ++ hs)
unfolding add_all
add_all-take max [] xs = ap (take max) (sym (append-nil xs))
add_all-take max (h ∷ hs) xs =
    ap (add_all max hs) (hdr_add-take max h xs)
    ∙ add_all-take max hs (xs ++ h ∷ [])
    ∙ ap (take max) (append_assoc xs (h ∷ []) hs)

add_some-take :
    (max : ℕ) (key : Bytes) (o : Option Bytes) (xs : List (Bytes × Bytes))
    → add_some max key o (take max xs) ≡ take max (xs ++ optional key o)
unfolding add_some
add_some-take max key none xs = ap (take max) (sym (append-nil xs))
add_some-take max key (some v) xs = hdr_add-take max (key, v) xs

abbrev pub allowed_headers : Cors → Bytes
allowed_headers cors = elim cors.allow_headers [
  | none ↦ codes "Content-Type, Accept, Link"
  | some v ↦ v
]

-- What a preflight request is told, with the methods that are allowed.
abbrev pub preflight_headers : Bool → Cors → Option Bytes → List (Bytes × Bytes)
unfolding max_age_text
preflight_headers room cors methods =
    optional (codes "Access-Control-Allow-Methods") methods
    ++ ((codes "Access-Control-Allow-Headers", allowed_headers cors)
        ∷ (if ltb 0 cors.max_age
            then optional (codes "Access-Control-Max-Age") (max_age_text room cors.max_age)
            else []))

abbrev pub cors_headers : Bool → Cors → Verb → Option Bytes → List (Bytes × Bytes)
unfolding preflight_headers
cors_headers room cors method methods = elim cors.allow_origin [
  | none ↦ []
  | some origin ↦
      (codes "Access-Control-Allow-Origin", origin)
      ∷ ((if is_options method then preflight_headers room cors methods else [])
          ++ optional (codes "Access-Control-Expose-Headers") cors.expose_headers)
]

-- All that an answer has to say, of these parts and with these methods allowed
abbrev pub headers_of :
    Bool
    → Cors
    → Verb
    → Out
    → List (Bytes × Bytes)
    → List (Bytes × Bytes)
    → Option Bytes
    → List (Bytes × Bytes)
unfolding cors_headers
headers_of room cors method o typed applied methods =
    typed ++ applied ++ o.header_v ++ cors_headers room cors method methods

-- A step that adds these headers, as far as there is room for them.
abbrev Adds : ℕ → (List (Bytes × Bytes) → List (Bytes × Bytes)) → List (Bytes × Bytes) → Type 0
Adds max f ys = (xs : List (Bytes × Bytes)) → f (take max xs) ≡ take max (xs ++ ys)

module _ (max : ℕ) (f g : List (Bytes × Bytes) → List (Bytes × Bytes))
    (ys zs : List (Bytes × Bytes)) where
  Adds-then : Adds max f ys → Adds max g zs → Adds max (λ hv. g (f hv)) (ys ++ zs)
  Adds-then h k xs = ap g (h xs) ∙ k (xs ++ ys) ∙ ap (take max) (append_assoc xs ys zs)

  Adds-if :
      (b : Bool)
      → Adds max f ys
      → Adds max g zs
      → Adds max (λ hv. if b then f hv else g hv) (if b then ys else zs)
  Adds-if true h k = h
  Adds-if false h k = k

Adds-nothing : (max : ℕ) → Adds max (λ hv. hv) []
Adds-nothing max xs = ap (take max) (sym (append-nil xs))

add_preflight-Adds :
    (max : ℕ) (room : Bool) (cors : Cors) (o : Out)
    → Adds max
        (add_preflight max room cors o)
        (preflight_headers room cors (first_allow o.header_v))
unfolding add_preflight
add_preflight-Adds max room cors o =
    let methods = first_allow o.header_v in
    let allowed : Bytes × Bytes = (codes "Access-Control-Allow-Headers", allowed_headers cors) in
    let age = max_age_text room cors.max_age in
    let add_age = λ (hv : List (Bytes × Bytes)).
      if ltb 0 cors.max_age then add_some max (codes "Access-Control-Max-Age") age hv else hv in
    Adds-then max (add_some max (codes "Access-Control-Allow-Methods") methods)
      (λ hv. add_age (hdr_add max allowed hv)) _ _
      (add_some-take max (codes "Access-Control-Allow-Methods") methods)
      (Adds-then max (hdr_add max allowed) add_age (allowed ∷ []) _ (hdr_add-take max allowed) (
        Adds-if max (add_some max (codes "Access-Control-Max-Age") age) (λ hv. hv) _ []
          (ltb 0 cors.max_age) (add_some-take max (codes "Access-Control-Max-Age") age)
          (Adds-nothing max)))

origin-Adds :
    (max : ℕ) (room : Bool) (cors : Cors) (method : Verb) (o : Out) (origin : Option Bytes)
    → Adds max
        (λ hv. elim origin [
          | none ↦ hv
          | some v ↦
              let hv' = hdr_add max (codes "Access-Control-Allow-Origin", v) hv in
              let hv'' = if is_options method then add_preflight max room cors o hv' else hv' in
              add_some max (codes "Access-Control-Expose-Headers") cors.expose_headers hv''
        ])
        (elim origin [
          | none ↦ []
          | some v ↦
              (codes "Access-Control-Allow-Origin", v)
              ∷ ((if is_options method
                    then preflight_headers room cors (first_allow o.header_v)
                    else [])
                  ++ optional (codes "Access-Control-Expose-Headers") cors.expose_headers)
        ])
origin-Adds max room cors method o none = Adds-nothing max
origin-Adds max room cors method o (some v) =
    let first : Bytes × Bytes = (codes "Access-Control-Allow-Origin", v) in
    let preflight = λ (hv : List (Bytes × Bytes)).
      if is_options method then add_preflight max room cors o hv else hv in
    let expose = add_some max (codes "Access-Control-Expose-Headers") cors.expose_headers in
    Adds-then max (hdr_add max first) (λ hv. expose (preflight hv)) (first ∷ []) _
      (hdr_add-take max first)
      (Adds-then max preflight expose _ _
        (Adds-if max (add_preflight max room cors o) (λ hv. hv) _ [] (is_options method)
          (add_preflight-Adds max room cors o) (Adds-nothing max))
        (add_some-take max (codes "Access-Control-Expose-Headers") cors.expose_headers))

response_header_v_build-headers_of :
    (max : ℕ) (room : Bool) (cors : Cors) (method : Verb) (received : List (Bytes × Bytes))
    (o : Out)
    → response_header_v_build max room cors method received o
      ≡ take max (
          headers_of room cors method o
            (typed_part o)
            (applied_part received)
            (first_allow o.header_v))
unfolding response_header_v_build add_cors
response_header_v_build-headers_of max room cors method received o =
    let preference : Bytes × Bytes = (codes "Preference-Applied", codes "ngsi-ld=1.9.1") in
    let kind = λ (hv : List (Bytes × Bytes)).
      if has_body o then add_some max (codes "Content-Type") (type_of_answer o) hv else hv in
    let prefer =
      λ (hv : List (Bytes × Bytes)). if prefers received then hdr_add max preference hv else hv in
    let whole =
      Adds-then max (λ hv. add_all max o.header_v (prefer (kind hv)))
        (add_cors max room cors method o) _ _
        (Adds-then max (λ hv. prefer (kind hv)) (add_all max o.header_v) _ _
          (Adds-then max kind prefer _ _
            (Adds-if max (add_some max (codes "Content-Type") (type_of_answer o)) (λ hv. hv) _ []
              (has_body o) (add_some-take max (codes "Content-Type") (type_of_answer o))
              (Adds-nothing max))
            (Adds-if max (hdr_add max preference) (λ hv. hv) _ [] (prefers received)
              (hdr_add-take max preference) (Adds-nothing max)))
          (add_all-take max o.header_v))
        (origin-Adds max room cors method o cors.allow_origin) [] in
    ap (λ hv. add_cors max room cors method o (add_all max o.header_v (prefer (kind hv))))
      (sym (take-nil max))
    ∙ whole

-- The parts of an answer's headers, and what they are
pub record IsAnswer (max : ℕ) (room : Bool) (cors : Cors) (method : Verb)
    (received : List (Bytes × Bytes)) (o : Out) (hv : List (Bytes × Bytes)) : Type 0 where
  pub typed : List (Bytes × Bytes)
  pub applied : List (Bytes × Bytes)
  pub methods : Option Bytes
  pub is_typed : IsTyped o typed
  pub is_applied : IsApplied received applied
  pub is_first_allow : IsFirstAllow o.header_v methods
  pub are_in_order : hv ≡ take max (headers_of room cors method o typed applied methods)

-- The headers of an answer are, of the following in order, as many as the array holds: its type if it
-- has a body, which is JSON for the status 201 or an error and else the negotiated one; the preference
-- applied if some header Prefer asks for one; those that the service added, in order; and those for
-- other origins, where an OPTIONS request is told the value of the first Allow.
pub response_header_v_build-IsAnswer :
    (max : ℕ) (room : Bool) (cors : Cors) (method : Verb) (received : List (Bytes × Bytes))
    (o : Out)
    → IsAnswer max room cors method received o
        (response_header_v_build max room cors method received o)
response_header_v_build-IsAnswer max room cors method received o = record {
  typed = typed_part o;
  applied = applied_part received;
  methods = first_allow o.header_v;
  is_typed = typed_part-IsTyped o;
  is_applied = applied_part-IsApplied received;
  is_first_allow = first_allow-IsFirstAllow o.header_v;
  are_in_order = response_header_v_build-headers_of max room cors method received o;
}
