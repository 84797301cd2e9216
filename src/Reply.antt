-- ===== src/Reply.antt =====
-- The answer's side of the state: corRestBodyPolicyCheck and corRestResponseHeaderVBuild of
-- corRestInit.c, corRestProblem.c, with the fields of CorRestOut.h that they read or write. What is
-- logged is left out, and a problem's text is a value, of which vsnprintf keeps what fits.
pub mod Parts
pub mod Headers
pub mod Number
pub mod Policy
mod Tests
use cor_rest.Base.{
  ltb, leb, ◌==◌, if◌then◌else◌, Bytes, length, take, codes, str_eq, strn_eq, str_case_eq,
  strn_case_eq, ℕ, zero, suc, ◌+◌, ◌-◌, ◌*◌, ◌/◌, ◌%◌, ◌^◌, Bool, true, false, not, ◌&&◌, ◌||◌,
  Option, none, some, List, [], ◌∷◌, ◌++◌,
}
use cor_rest.Verb.{Verb, put, post, patch, options}

pub record Problem : Type 0 where
  pub status : ℕ
  pub problem_type : Bytes
  pub title : Bytes
  pub detail : Bytes

-- The fields of CorRestOut; a late problem of `none` is a lateStatus of 0.
pub record Out : Type 0 where
  pub http_status_code : ℕ
  pub problem_type : Option Bytes
  pub problem_title : Option Bytes
  pub problem_detail : Bytes
  pub late : Option Problem
  pub content_type : Option Bytes
  pub header_v : List (Bytes × Bytes)
  pub payload_size : ℕ
  pub no_render : Bool
  pub has_tree : Bool

-- corRestProblemFunction; `room` is the size of problemDetail.
unfoldable pub rest_problem : ℕ → Problem → Out → Out
rest_problem room p o = record o {
  http_status_code = p.status;
  problem_type = some p.problem_type;
  problem_title = some p.title;
  problem_detail = take (room - 1) p.detail;
}

-- corRestProblemLateFunction, for a status that is not 0
unfoldable pub rest_problem_late : ℕ → Problem → Out → Out
rest_problem_late room p o = elim o.late [
  | some q ↦ o
  | none ↦ record o { late = some (record p { detail = take (room - 1) p.detail }) }
]

abbrev pub is_write : Verb → Bool
is_write post = true
is_write put = true
is_write patch = true
is_write _ = false

-- The digits at the front as a number; `none` where they overflow 64 bits.
unfoldable pub digits_ull : ℕ → Bytes → Option ℕ
digits_ull n [] = some n
digits_ull n (c ∷ s) =
    let next = n * 10 + (c - b'0') in
    let rest = digits_ull next s in
    if not (leb b'0' c && leb c b'9') then some n else if leb (2 ^ 64) next then none else rest

abbrev pub or_most : Option ℕ → ℕ
or_most none = 2 ^ 64 - 1
or_most (some n) = n

unfoldable pub skip_isspace : Bytes → Bytes
skip_isspace [] = []
skip_isspace (c ∷ s) =
    let rest = skip_isspace s in if c == 0x20 || leb 0x09 c && leb c 0x0d then rest else c ∷ s

-- strtoull(s, NULL, 10) of the language's library, which negates a number behind "-".
unfoldable pub strtoull : Bytes → ℕ
unfolding skip_isspace digits_ull
strtoull s = elim (skip_isspace s) [
  | [] ↦ 0
  | c ∷ t ↦
      if c == b'-'
      then elim (digits_ull 0 t) [ none ↦ 2 ^ 64 - 1 | some n ↦ (2 ^ 64 - n) % 2 ^ 64 ]
      else if c == b'+'
      then or_most (digits_ull 0 t)
      else or_most (digits_ull 0 (c ∷ t))
]

-- corRestBodyPolicyCheck. The limit of 0 is no limit; the answer says whether the length is missing.
-- `too_large` makes the problem from the length and the limit.
unfoldable pub body_policy_check :
    ℕ → (ℕ → ℕ → Problem) → ℕ → Verb → Option Bytes → Option Bytes → Out → Out × Bool
unfolding strn_eq strtoull rest_problem
body_policy_check room too_large limit method none header o = (o, false)
body_policy_check room too_large limit method (some url) header o =
    if not (is_write method)
    then (o, false)
    else if not (strn_eq 9 url (codes "/ngsi-ld/"))
    then (o, false)
    else elim header [
      | none ↦ (record o { http_status_code = 411 }, true)
      | some text ↦
          if ltb 0 limit && ltb limit (strtoull text)
          then (rest_problem room (too_large (strtoull text) limit) o, false)
          else (o, false)
    ]

-- corRestCors; `none` is NULL, and a maximal age that is not positive is 0.
pub record Cors : Type 0 where
  pub allow_origin : Option Bytes
  pub allow_headers : Option Bytes
  pub max_age : ℕ
  pub expose_headers : Option Bytes

-- HDR_ADD
unfoldable pub hdr_add : ℕ → Bytes × Bytes → List (Bytes × Bytes) → List (Bytes × Bytes)
hdr_add max h hv = if ltb (length hv) max then hv ++ h ∷ [] else hv

-- The loop over the headers of the service routine.
unfoldable pub add_all : ℕ → List (Bytes × Bytes) → List (Bytes × Bytes) → List (Bytes × Bytes)
unfolding hdr_add
add_all max [] hv = hv
add_all max (h ∷ hs) hv = add_all max hs (hdr_add max h hv)

unfoldable pub add_some : ℕ → Bytes → Option Bytes → List (Bytes × Bytes) → List (Bytes × Bytes)
unfolding hdr_add
add_some max key none hv = hv
add_some max key (some v) hv = hdr_add max (key, v) hv

-- Whether the loop over the request's headers finds a Prefer of this library.
unfoldable pub prefers : List (Bytes × Bytes) → Bool
unfolding str_case_eq strn_case_eq
prefers [] = false
prefers (h ∷ hs) =
    let rest = prefers hs in
    str_case_eq h.0 (codes "Prefer") && strn_case_eq 8 h.1 (codes "ngsi-ld=") || rest

-- The value of the first header Allow.
unfoldable pub first_allow : List (Bytes × Bytes) → Option Bytes
unfolding str_eq
first_allow [] = none
first_allow (h ∷ hs) =
    let rest = first_allow hs in if str_eq h.0 (codes "Allow") then some h.1 else rest

unfoldable pub type_of_answer : Out → Option Bytes
type_of_answer o =
    let code = o.http_status_code in
    if code == 201 || leb 400 code && leb code 599
    then some (codes "application/json")
    else o.content_type

abbrev pub has_body : Out → Bool
has_body o = ltb 0 o.payload_size || o.no_render && o.has_tree

abbrev pub is_options : Verb → Bool
is_options options = true
is_options _ = false

-- The digits of a number, before the text; ten are enough for an int.
unfoldable pub decimal : ℕ → ℕ → Bytes → Bytes
decimal zero n text = text
decimal (suc fuel) n text =
    let text' = (b'0' + n % 10) ∷ text in
    let rest = decimal fuel (n / 10) text' in if ltb n 10 then text' else rest

unfoldable pub max_age_text : Bool → ℕ → Option Bytes
unfolding decimal
max_age_text room n = if room then some (decimal 10 n []) else none

-- The part for a preflight request. `room` says whether the arena has space for the text of the age.
unfoldable pub add_preflight : ℕ → Bool → Cors → Out → List (Bytes × Bytes) → List (Bytes × Bytes)
unfolding add_some first_allow hdr_add max_age_text
add_preflight max room cors o hv =
    let hv' = add_some max (codes "Access-Control-Allow-Methods") (first_allow o.header_v) hv in
    let allowed : Bytes = elim cors.allow_headers [
      | none ↦ codes "Content-Type, Accept, Link"
      | some v ↦ v
    ] in
    let hv'' = hdr_add max (codes "Access-Control-Allow-Headers", allowed) hv' in
    if ltb 0 cors.max_age
    then add_some max (codes "Access-Control-Max-Age") (max_age_text room cors.max_age) hv''
    else hv''

unfoldable pub add_cors : ℕ → Bool → Cors → Verb → Out → List (Bytes × Bytes) → List (Bytes × Bytes)
unfolding add_preflight add_some hdr_add
add_cors max room cors method o hv = elim cors.allow_origin [
  | none ↦ hv
  | some origin ↦
      let hv' = hdr_add max (codes "Access-Control-Allow-Origin", origin) hv in
      let hv'' = if is_options method then add_preflight max room cors o hv' else hv' in
      add_some max (codes "Access-Control-Expose-Headers") cors.expose_headers hv''
]

-- corRestResponseHeaderVBuild, from the request's verb and headers
unfoldable pub response_header_v_build :
    ℕ → Bool → Cors → Verb → List (Bytes × Bytes) → Out → List (Bytes × Bytes)
unfolding add_some type_of_answer prefers add_all add_cors hdr_add
response_header_v_build max room cors method received o =
    let typed =
      if has_body o then add_some max (codes "Content-Type") (type_of_answer o) [] else [] in
    let applied =
      if prefers received
      then hdr_add max (codes "Preference-Applied", codes "ngsi-ld=1.9.1") typed
      else typed in
    add_cors max room cors method o (add_all max o.header_v applied)
