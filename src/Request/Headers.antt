-- ===== src/Request/Headers.antt =====
-- What the headers of a request leave in its state.
use mathlib.Core.List.{append_assoc, append-nil}
use cor_rest.Base.{
  ltb, if◌then◌else◌, Bool-cases, Bytes, length, codes, str_case_eq, ℕ, ◌+◌, ◌≡◌, refl, ap, subst,
  inl, inr, Bool, true, false, Option, none, some, List, [], ◌∷◌, ◌++◌, arith,
}
use cor_rest.Mime.{mime_type_parse}
use cor_rest.Request.{url_path_normalize, state_init, note_known, http_header_add, RequestIn}

-- The headers handed over one after the other.
abbrev pub add_headers : (ℕ → Bool) → List (Bytes × Bytes) → RequestIn → RequestIn
add_headers room [] r = r
add_headers room (h ∷ hs) r = add_headers room hs (http_header_add room h.0 h.1 r)

-- The value of the last header of that name, upper and lower case alike, or else `o`.
abbrev pub last_value : Bytes → List (Bytes × Bytes) → Option Bytes → Option Bytes
last_value name [] o = o
last_value name (h ∷ hs) o = last_value name hs (if str_case_eq h.0 name then some h.1 else o)

-- What of a state the headers decide.
pub record HasHeaders (hs : List (Bytes × Bytes)) (type' accepted : Option Bytes) (r : RequestIn)
    : Type 0 where
  pub in_order : r.http_header_v ≡ hs
  pub last_type : r.content_type ≡ type'
  pub classified : r.content_mime ≡ mime_type_parse r.content_type
  pub last_accept : r.accept ≡ accepted

accept_no_type :
    (key : Bytes)
    → str_case_eq key (codes "Content-Type") ≡ true
    → str_case_eq key (codes "Accept") ≡ false
unfolding str_case_eq
accept_no_type [] h = ground arith
accept_no_type (c ∷ s) h = ground arith

note_known-HasHeaders :
    (h : Bytes × Bytes) (hs : List (Bytes × Bytes)) (t a : Option Bytes) (r : RequestIn)
    → HasHeaders hs t a r
    → HasHeaders hs
        (if str_case_eq h.0 (codes "Content-Type") then some h.1 else t)
        (if str_case_eq h.0 (codes "Accept") then some h.1 else a)
        (note_known h.0 h.1 r)
unfolding note_known
note_known-HasHeaders h hs t a r v = elim (Bool-cases (str_case_eq h.0 (codes "Content-Type"))) [
  | inl e ↦
      let other = accept_no_type h.0 e in
      rw (e, other)
        (record {
          in_order = v.in_order;
          last_type = refl;
          classified = refl;
          last_accept = v.last_accept;
        })
  | inr e ↦ elim (Bool-cases (str_case_eq h.0 (codes "Accept"))) [
    | inl e' ↦
        rw (e, e')
          (record {
            in_order = v.in_order;
            last_type = v.last_type;
            classified = v.classified;
            last_accept = refl;
          })
    | inr e' ↦ rw (e, e') v
  ]
]

HasHeaders-grown :
    (h : Bytes × Bytes) (hs : List (Bytes × Bytes)) (t a : Option Bytes) (r : RequestIn) (slots : ℕ)
    → HasHeaders hs t a r
    → HasHeaders
        (hs ++ h ∷ [])
        t
        a
        (record r { http_header_v = r.http_header_v ++ h ∷ []; http_header_size = slots })
HasHeaders-grown h hs t a r slots v = record {
  in_order = ap (λ l. l ++ h ∷ []) v.in_order;
  last_type = v.last_type;
  classified = v.classified;
  last_accept = v.last_accept;
}

http_header_add-HasHeaders :
    (h : Bytes × Bytes) (hs : List (Bytes × Bytes)) (t a : Option Bytes) (r : RequestIn)
    → HasHeaders hs t a r
    → HasHeaders
        (hs ++ h ∷ [])
        (if str_case_eq h.0 (codes "Content-Type") then some h.1 else t)
        (if str_case_eq h.0 (codes "Accept") then some h.1 else a)
        (http_header_add (λ n. true) h.0 h.1 r)
unfolding http_header_add
http_header_add-HasHeaders h hs t a r v =
    elim (Bool-cases (ltb (length r.http_header_v) r.http_header_size)) [
      | inl e ↦ rw e (
          note_known-HasHeaders h (hs ++ h ∷ []) t a _
            (HasHeaders-grown h hs t a r r.http_header_size v))
      | inr e ↦ rw e (
          note_known-HasHeaders h (hs ++ h ∷ []) t a _
            (HasHeaders-grown h hs t a r (r.http_header_size + 5) v))
    ]

pub add_headers-HasHeaders :
    (more hs : List (Bytes × Bytes)) (t a : Option Bytes) (r : RequestIn)
    → HasHeaders hs t a r
    → HasHeaders
        (hs ++ more)
        (last_value (codes "Content-Type") more t)
        (last_value (codes "Accept") more a)
        (add_headers (λ n. true) more r)
add_headers-HasHeaders [] hs t a r v = rw (append-nil hs) v
add_headers-HasHeaders (h ∷ more) hs t a r v =
    let t' = if str_case_eq h.0 (codes "Content-Type") then some h.1 else t in
    let a' = if str_case_eq h.0 (codes "Accept") then some h.1 else a in
    let r' = http_header_add (λ n. true) h.0 h.1 r in
    subst
      (λ l.
        HasHeaders l (last_value (codes "Content-Type") more t')
          (last_value (codes "Accept") more a') (add_headers (λ n. true) more r'))
      (append_assoc hs (h ∷ []) more)
      (add_headers-HasHeaders more (hs ++ h ∷ []) t' a' r'
        (http_header_add-HasHeaders h hs t a r v))

-- With memory at hand, after any headers are handed to a new request its header array holds them in
-- order, its Content-Type and Accept are the values of the last headers of these names, upper and
-- lower case alike, and its media type is the class of that Content-Type.
pub add_headers-state_init :
    (url method : Bytes) (hs : List (Bytes × Bytes))
    → HasHeaders hs
        (last_value (codes "Content-Type") hs none)
        (last_value (codes "Accept") hs none)
        (add_headers (λ n. true) hs (state_init url method))
unfolding state_init url_path_normalize mime_type_parse
add_headers-state_init url method hs =
    add_headers-HasHeaders hs [] none none (state_init url method)
      (record { in_order = refl; last_type = refl; classified = refl; last_accept = refl })
