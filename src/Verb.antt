-- ===== src/Verb.antt =====
-- CorRestVerb.h and corRestVerbFromString.c: the HTTP methods and their names.
pub mod RoundTrip
mod Tests
use cor_rest.Base.{if◌then◌else◌, Bytes, codes, str_eq, ℕ}

-- CorRestVerb; `verbs` is the number of verbs, which stands for "no verb".
pub data Verb : Type 0 where
  get put post delete patch head options verbs : Verb

-- The enum's value, which indexes the service vectors.
unfoldable pub verb_index : Verb → ℕ
verb_index get = 0
verb_index put = 1
verb_index post = 2
verb_index delete = 3
verb_index patch = 4
verb_index head = 5
verb_index options = 6
verb_index verbs = 7

unfoldable pub verb_from_string : Bytes → Verb
unfolding str_eq
verb_from_string method =
    if str_eq method (codes "GET")
    then get
    else if str_eq method (codes "PUT")
    then put
    else if str_eq method (codes "POST")
    then post
    else if str_eq method (codes "DELETE")
    then delete
    else if str_eq method (codes "PATCH")
    then patch
    else if str_eq method (codes "HEAD")
    then head
    else if str_eq method (codes "OPTIONS")
    then options
    else verbs

unfoldable pub verb_to_string : Verb → Bytes
verb_to_string get = codes "GET"
verb_to_string put = codes "PUT"
verb_to_string post = codes "POST"
verb_to_string delete = codes "DELETE"
verb_to_string patch = codes "PATCH"
verb_to_string head = codes "HEAD"
verb_to_string options = codes "OPTIONS"
verb_to_string verbs = codes "UNKNOWN"
