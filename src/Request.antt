-- ===== src/Request.antt =====
-- The request's side of the state: CorRestIn.h, corRestStateInit.c, and corRestUriParamAdd,
-- corRestUriParamsParse and corRestHttpHeaderAdd of corRestInit.c. The decoder works in place on
-- slices of the query string that do not overlap, so a slice is a value here. The copy of the URL is
-- taken to succeed, as the code takes it to.
pub mod Params
pub mod Headers
mod Tests
use cor_rest.Base.{
  ltb, ◌==◌, if◌then◌else◌, Bytes, length, codes, str_case_eq, c_string, ℕ, zero, suc, ◌+◌, Bool,
  true, false, ◌||◌, Option, none, some, List, [], ◌∷◌, ◌++◌,
}
use cor_rest.Verb.{verb_from_string, Verb}
use cor_rest.Mime.{mime_type_parse, MimeType, mime_none}
use cor_rest.Url.{decode_bytes}

-- CorRestKeyValue, with the registry's bit of the name
pub record KeyValue : Type 0 where
  pub key : Bytes
  pub value : Bytes
  pub bit : ℕ

-- The fields of CorRestIn that the code here reads or writes; `none` is NULL.
pub record RequestIn : Type 0 where
  pub verb : Verb
  pub url_path : Bytes
  pub url_path_len : ℕ
  pub url_params : Option Bytes
  pub uri_param_v : List KeyValue
  pub uri_param_size : ℕ
  pub http_header_v : List (Bytes × Bytes)
  pub http_header_size : ℕ
  pub content_type : Option Bytes
  pub content_mime : MimeType
  pub accept : Option Bytes

-- A path without the slash at its end.
unfoldable pub drop_slash : Bytes → Bytes
drop_slash [] = []
drop_slash (c ∷ []) = if c == b'/' then [] else c ∷ []
drop_slash (c ∷ d ∷ s) = c ∷ drop_slash (d ∷ s)

-- corRestUrlPathNormalize
unfoldable pub url_path_normalize : RequestIn → RequestIn
unfolding drop_slash
url_path_normalize r =
    let path = if ltb 1 (length r.url_path) then drop_slash r.url_path else r.url_path in
    record r { url_path = path; url_path_len = length path }

-- The text before the first `c`, and what is behind it if it is there.
unfoldable pub split_at : ℕ → Bytes → Bytes × Option Bytes
split_at c [] = ([], none)
split_at c (d ∷ s) =
    let (front, behind) = split_at c s in if d == c then ([], some s) else (d ∷ front, behind)

-- corRestStateInit, the request's side
unfoldable pub state_init : Bytes → Bytes → RequestIn
unfolding verb_from_string split_at url_path_normalize
state_init url method =
    let (path, params) = split_at b'?' url in
    url_path_normalize (record {
      verb = verb_from_string method;
      url_path = path;
      url_path_len = 0;
      url_params = params;
      uri_param_v = [];
      uri_param_size = 10;
      http_header_v = [];
      http_header_size = 10;
      content_type = none;
      content_mime = mime_none;
      accept = none;
    })

-- corRestUriParamAdd; `room` says whether corAlloc finds space for that many.
unfoldable pub uri_param_add : (ℕ → Bool) → Bytes → Bytes → RequestIn → RequestIn
uri_param_add room name value r =
    let grown = r.uri_param_size + 5 in
    let all_params = r.uri_param_v ++ record { key = name; value = value; bit = 0 } ∷ [] in
    if ltb (length r.uri_param_v) r.uri_param_size
    then record r { uri_param_v = all_params }
    else if room grown
    then record r { uri_param_v = all_params; uri_param_size = grown }
    else r

-- The name at `p`: up to "=" or "&" or the end, and what stands there.
unfoldable pub scan_name : Bytes → Bytes × Bytes
scan_name [] = ([], [])
scan_name (c ∷ s) =
    let (name, p) = scan_name s in if c == b'=' || c == b'&' then ([], c ∷ s) else (c ∷ name, p)

-- corRestUrlValueDecode, on a text that is there
unfoldable pub decoded_text : Bytes → Bytes
unfolding decode_bytes
decoded_text s = c_string (decode_bytes s)

-- The loop of corRestUriParamsParse; the fuel bounds the parameters.
unfoldable pub params_loop : (ℕ → Bool) → ℕ → Bytes → RequestIn → RequestIn
unfolding uri_param_add scan_name split_at decoded_text
params_loop room zero p r = r
params_loop room (suc fuel) [] r = r
params_loop room (suc fuel) (c ∷ p) r =
    let (name, at) = scan_name (c ∷ p) in
    elim at [
      | [] ↦ uri_param_add room (decoded_text name) [] r
      | d ∷ behind ↦ elim (d == b'=') [
        | false ↦ params_loop room fuel behind (uri_param_add room (decoded_text name) [] r)
        | true ↦
            let (value, more) = split_at b'&' behind in
            let r' = uri_param_add room (decoded_text name) (decoded_text value) r in
            elim more [ none ↦ r' | some p' ↦ params_loop room fuel p' r' ]
      ]
    ]

-- corRestUriParamsParse
unfoldable pub uri_params_parse : (ℕ → Bool) → RequestIn → RequestIn
unfolding params_loop
uri_params_parse room r = elim r.url_params [ none ↦ r | some p ↦ params_loop room (length p) p r ]

-- The end of corRestHttpHeaderAdd.
unfoldable pub note_known : Bytes → Bytes → RequestIn → RequestIn
unfolding mime_type_parse
note_known key value r =
    if str_case_eq key (codes "Content-Type")
    then record r { content_type = some value; content_mime = mime_type_parse (some value) }
    else if str_case_eq key (codes "Accept")
    then record r { accept = some value }
    else r

-- corRestHttpHeaderAdd
unfoldable pub http_header_add : (ℕ → Bool) → Bytes → Bytes → RequestIn → RequestIn
unfolding note_known
http_header_add room key value r =
    let grown = r.http_header_size + 5 in
    let all_headers = r.http_header_v ++ (key, value) ∷ [] in
    if ltb (length r.http_header_v) r.http_header_size
    then note_known key value (record r { http_header_v = all_headers })
    else if room grown
    then note_known key value (record r { http_header_v = all_headers; http_header_size = grown })
    else r
