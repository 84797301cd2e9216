-- ===== src/Client/Headers.antt =====
-- The headers of a client's request: corRestClientRequestInit, ...RequestHeader, ...RequestCleanup,
-- ...RequestBody and ...RequestTimeout of corRestClient.c, with the vector that the headers are in.
pub mod Owned
mod Tests
use cor_rest.Base.{
  ltb, ◌==◌, if◌then◌else◌, Bytes, length, strn_case_eq, ℕ, ◌+◌, Bool, true, false, not, ◌&&◌,
  Option, none, some, List, [], ◌∷◌, ◌++◌,
}
use cor_rest.Verb.{Verb}
use cor_rest.Response.Chunk.{Long, plus, minus}

-- Where the headers are: in the request itself, in its allocator, or in the block k of malloc
pub data Vector : Type 0 where
  inline_vector arena_vector : Vector
  heap_vector : ℕ → Vector

-- The calls of malloc and free
pub data Memory : Type 0 where
  mallocs : ℕ → Memory
  frees : Vector → Memory

-- CorRestClientRequest; `next_block` is the number of the next block of malloc.
pub record ClientRequest : Type 0 where
  pub request_verb : Verb
  pub request_url : Option Bytes
  pub has_alloc : Bool
  pub vector : Vector
  pub header_v : List (Bytes × Bytes)
  pub header_size : ℕ
  pub next_block : ℕ
  pub request_body : Option Bytes
  pub body_len : ℕ
  pub connect_timeout : ℕ
  pub request_timeout : ℕ
  pub redirects_allowed : ℕ

abbrev pub initial_slots : ℕ
initial_slots = 10

-- corRestClientRequestInit, with the default timeout for a request
unfoldable pub request_init : ℕ → Verb → Option Bytes → Bool → ClientRequest
request_init timeout verb url has_alloc = record {
  request_verb = verb;
  request_url = url;
  has_alloc = has_alloc;
  vector = inline_vector;
  header_v = [];
  header_size = initial_slots;
  next_block = 0;
  request_body = none;
  body_len = 0;
  connect_timeout = 5000;
  request_timeout = timeout;
  redirects_allowed = 5;
}

abbrev pub is_inline : Vector → Bool
is_inline inline_vector = true
is_inline _ = false

-- The test and the free of both functions
unfoldable pub free_vector : ClientRequest → List Memory
free_vector r = if not (is_inline r.vector) && not r.has_alloc then frees r.vector ∷ [] else []

abbrev pub new_vector : Bool → ℕ → Vector
new_vector has_alloc k = if has_alloc then arena_vector else heap_vector k

abbrev pub taken_block : Bool → ℕ → List Memory
taken_block has_alloc k = if has_alloc then [] else mallocs k ∷ []

-- corRestClientRequestHeader; `room` says whether a vector of that size is to be had.
unfoldable pub request_header :
    (ℕ → Bool) → Bytes → Bytes → ClientRequest → List Memory × ClientRequest
unfolding free_vector
request_header room name value r =
    let added = r.header_v ++ (name, value) ∷ [] in
    let grown = r.header_size + 5 in
    if ltb (length r.header_v) r.header_size
    then ([], record r { header_v = added })
    else if room grown
    then (
      taken_block r.has_alloc r.next_block ++ free_vector r,
      record r {
        vector = new_vector r.has_alloc r.next_block;
        header_v = added;
        header_size = grown;
        next_block = r.next_block + 1;
      },
    )
    else ([], r)

-- corRestClientRequestCleanup
unfoldable pub request_cleanup : ClientRequest → List Memory × ClientRequest
unfolding free_vector
request_cleanup r =
    (free_vector r, record r { vector = inline_vector; header_v = []; header_size = initial_slots })

-- corRestClientRequestBody and corRestClientRequestTimeout
unfoldable pub request_body_set : Option Bytes → ℕ → ClientRequest → ClientRequest
request_body_set body n r = record r { request_body = body; body_len = n }

abbrev pub positive_or : Long → ℕ → ℕ
positive_or (plus n) old = if ltb 0 n then n else old
positive_or (minus n) old = old

unfoldable pub request_timeout_set : Long → Long → ClientRequest → ClientRequest
request_timeout_set connect whole r = record r {
  connect_timeout = positive_or connect r.connect_timeout;
  request_timeout = positive_or whole r.request_timeout;
}

-- corRestClientResponseHeader
unfoldable pub client_response_header : Bytes → List (Bytes × Bytes) → Option Bytes
unfolding strn_case_eq
client_response_header name [] = none
client_response_header name ((key, value) ∷ hs) =
    let rest = client_response_header name hs in
    if strn_case_eq (length name) key name && length key == length name then some value else rest
