-- ===== src/Request/Params/RoundTrip.antt =====
-- The whole query string, and the URL that carries it.
use mathlib.Core.List.{append_assoc}
use cor_rest.Base.{
  ltb, if◌then◌else◌, Bool-cases, Bytes, length, length-append, All, ℕ, zero, suc, ◌+◌, ◌≤◌, ◌≡◌,
  ap, ◌∙◌, ◌≢◌, inl, inr, true, some, List, [], ◌∷◌, ◌++◌, map, arith,
}
use cor_rest.Verb.{verb_from_string}
use cor_rest.Url.RoundTrip.{url_value_encode-some, url_value_encode-All-IsSafe}
use cor_rest.Request.{
  drop_slash, url_path_normalize, state_init, uri_param_add, decoded_text, params_loop,
  uri_params_parse, KeyValue, RequestIn,
}
use cor_rest.Request.Params.{
  encoded, print_with, print_params, as_param, decoded_text-encoded, EndsNoName,
  encode_bytes-All-EndsNoName, safe_no_amp, scan_name-append, split_at-append, split_at-All,
  params_loop-more, params_loop-last, IsParam,
}

-- What the loop needs of an encoding: the name ends nowhere, the value is in one piece, and both are
-- read back.
pub record IsCarried (enc : Bytes → Bytes) (q : Bytes × Bytes) : Type 0 where
  pub name_whole : All EndsNoName (enc q.0)
  pub value_whole : All (λ c. c ≢ b'&') (enc q.1)
  pub name_back : decoded_text (enc q.0) ≡ q.0
  pub value_back : decoded_text (enc q.1) ≡ q.1

abbrev pub with_params : List KeyValue → ℕ → RequestIn → RequestIn
with_params ps slots r = record r { uri_param_v = ps; uri_param_size = slots }

module _ (enc : Bytes → Bytes) where
  -- What the loop adds for a printed parameter, with allocation never failing.
  uri_param_add-param :
      (q : Bytes × Bytes) (r : RequestIn)
      → IsCarried enc q
      → (slots : ℕ) × (uri_param_add (λ n. true) (decoded_text (enc q.0)) (decoded_text (enc q.1)) r
          ≡ record r { uri_param_v = r.uri_param_v ++ as_param q ∷ []; uri_param_size = slots })
  unfolding uri_param_add
  uri_param_add-param q r ok =
      let n = ok.name_back in
      let v = ok.value_back in
      elim (Bool-cases (ltb (length r.uri_param_v) r.uri_param_size)) [
        | inl e ↦ (r.uri_param_size, ground arith)
        | inr e ↦ (r.uri_param_size + 5, ground arith)
      ]

  pub params_loop-print :
      (fuel : ℕ) (q : Bytes × Bytes) (qs : List (Bytes × Bytes)) (r : RequestIn)
      → length (q ∷ qs) ≤ fuel
      → All (IsCarried enc) (q ∷ qs)
      → (slots : ℕ) × (params_loop (λ n. true) fuel (print_with enc (q ∷ qs)) r
          ≡ with_params (r.uri_param_v ++ map as_param (q ∷ qs)) slots r)
  params_loop-print zero q qs r enough h = absurd (omega arith)
  params_loop-print (suc fuel) q [] r enough h =
      let (slots, added) = uri_param_add-param q r h.0 in
      (
        slots,
        params_loop-last (λ n. true) fuel (print_with enc (q ∷ [])) (enc q.0) (enc q.1) (enc q.1) r
              (scan_name-append (enc q.0) (enc q.1) h.0.name_whole)
              (split_at-All b'&' (enc q.1) h.0.value_whole)
            ∙ added,
      )
  params_loop-print (suc fuel) q (q' ∷ qs) r enough h =
      let (slots, added) = uri_param_add-param q r h.0 in
      let rest = print_with enc (q' ∷ qs) in
      let behind = enc q.1 ++ b'&' ∷ rest in
      let (slots', later) =
        params_loop-print fuel q' qs (with_params (r.uri_param_v ++ as_param q ∷ []) slots r)
          (omega arith) h.1 in
      (
        slots',
        params_loop-more (λ n. true) fuel (print_with enc (q ∷ q' ∷ qs)) (enc q.0) behind (enc q.1)
              rest r (scan_name-append (enc q.0) behind h.0.name_whole)
              (split_at-append b'&' (enc q.1) rest h.0.value_whole)
            ∙ ap (params_loop (λ n. true) fuel rest) added
            ∙ later
            ∙ ap (λ ps. with_params ps slots' r)
                (append_assoc r.uri_param_v (as_param q ∷ []) (map as_param (q' ∷ qs))),
      )

  length-print_with :
      (q : Bytes × Bytes) (qs : List (Bytes × Bytes))
      → length (q ∷ qs) ≤ length (print_with enc (q ∷ qs))
  length-print_with q [] = omega (arith, length-append (enc q.0) (b'=' ∷ enc q.1))
  length-print_with q (q' ∷ qs) = omega (
    arith,
    length-print_with q' qs,
    length-append (enc q.0) (b'=' ∷ (enc q.1 ++ b'&' ∷ print_with enc (q' ∷ qs))),
    length-append (enc q.1) (b'&' ∷ print_with enc (q' ∷ qs)),
  )

  -- The parser on printed parameters
  pub uri_params_parse-print_with :
      (q : Bytes × Bytes) (qs : List (Bytes × Bytes)) (r : RequestIn)
      → r.url_params ≡ some (print_with enc (q ∷ qs))
      → All (IsCarried enc) (q ∷ qs)
      → (slots : ℕ) × (uri_params_parse (λ n. true) r
          ≡ with_params (r.uri_param_v ++ map as_param (q ∷ qs)) slots r)
  unfolding uri_params_parse
  uri_params_parse-print_with q qs r params ok =
      let (slots, loop) =
        params_loop-print (length (print_with enc (q ∷ qs))) q qs r (length-print_with q qs) ok in
      (slots, ground arith)

IsParam-IsCarried : (q : Bytes × Bytes) → IsParam q → IsCarried encoded q
IsParam-IsCarried q ok = record {
  name_whole =
      rw (url_value_encode-some q.0) (encode_bytes-All-EndsNoName q.0 ok.name_bytes ok.no_equals);
  value_whole = safe_no_amp (encoded q.1) (url_value_encode-All-IsSafe q.1 ok.value_bytes);
  name_back = decoded_text-encoded q.0 ok.name_bytes;
  value_back = decoded_text-encoded q.1 ok.value_bytes;
}

pub All-IsCarried : (qs : List (Bytes × Bytes)) → All IsParam qs → All (IsCarried encoded) qs
All-IsCarried [] ok = tt
All-IsCarried (q ∷ qs) ok = (IsParam-IsCarried q ok.0, All-IsCarried qs ok.1)

-- The path as it is kept: without a slash at its end, if there is more than that.
abbrev pub kept_path : Bytes → Bytes
kept_path path = if ltb 1 (length path) then drop_slash path else path

-- With memory at hand, a URL that is a path without "?" and, behind "?", at least one encoded parameter
-- of bytes 1 to 255, with no "=" in a name, with "=" between name and value and "&" between
-- parameters, is taken apart into the path, less one slash at its end, and exactly those parameters,
-- in order and decoded.
pub uri_params_parse-print_params :
    (path method : Bytes) (q : Bytes × Bytes) (qs : List (Bytes × Bytes))
    → All (λ c. c ≢ b'?') path
    → All IsParam (q ∷ qs)
    → (let r =
          uri_params_parse (λ n. true) (state_init (path ++ b'?' ∷ print_params (q ∷ qs)) method) in
        (r.url_path ≡ kept_path path)
        × (r.url_path_len ≡ length (kept_path path))
        × (r.uri_param_v ≡ map as_param (q ∷ qs))
        × (r.verb ≡ verb_from_string method))
unfolding uri_params_parse state_init url_path_normalize
uri_params_parse-print_params path method q qs no_mark ok =
    let text = print_params (q ∷ qs) in
    let split = split_at-append b'?' path text no_mark in
    let start = state_init (path ++ b'?' ∷ text) method in
    let params : start.url_params ≡ some text = ground arith in
    let (slots, all_params) =
      uri_params_parse-print_with encoded q qs start params (All-IsCarried (q ∷ qs) ok) in
    let path_kept : start.url_path ≡ kept_path path = ground arith in
    let len_kept : start.url_path_len ≡ length (kept_path path) = ground arith in
    let verb_kept : start.verb ≡ verb_from_string method = ground arith in
    (
      ap (λ r. r.url_path) all_params ∙ path_kept,
      ap (λ r. r.url_path_len) all_params ∙ len_kept,
      ap (λ r. r.uri_param_v) all_params,
      ap (λ r. r.verb) all_params ∙ verb_kept,
    )
