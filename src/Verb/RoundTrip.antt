-- ===== src/Verb/RoundTrip.antt =====
-- The names and the verbs determine one another.
use cor_rest.Base.{Bytes, codes, str_eq_iff, ◌≡◌, refl, sym, ◌∙◌, subst, ◌≢◌, ◌↔◌, arith}
use cor_rest.Verb.{
  verb_from_string, verb_to_string, Verb, get, put, post, delete, patch, head, options, verbs,
}

-- Every verb is read back from its name, and the "no verb" value from its own text too.
pub from_string-to_string : (v : Verb) → verb_from_string (verb_to_string v) ≡ v
unfolding verb_from_string verb_to_string
from_string-to_string get = refl
from_string-to_string put = refl
from_string-to_string post = refl
from_string-to_string delete = refl
from_string-to_string patch = refl
from_string-to_string head = refl
from_string-to_string options = refl
from_string-to_string verbs = refl

to_string-from_string :
    (m : Bytes) → verb_from_string m ≢ verbs → verb_to_string (verb_from_string m) ≡ m
unfolding verb_from_string verb_to_string
to_string-from_string m h = ground (
  arith,
  str_eq_iff m (codes "GET"),
  str_eq_iff m (codes "PUT"),
  str_eq_iff m (codes "POST"),
  str_eq_iff m (codes "DELETE"),
  str_eq_iff m (codes "PATCH"),
  str_eq_iff m (codes "HEAD"),
  str_eq_iff m (codes "OPTIONS"),
)

-- A method is read as a verb exactly when it is that verb's name.
pub verb_from_string_iff :
    (m : Bytes) (v : Verb) → v ≢ verbs → (verb_from_string m ≡ v) ↔ (m ≡ verb_to_string v)
verb_from_string_iff m v h = (
  λ e. sym (subst (λ w. verb_to_string w ≡ m) e (to_string-from_string m (λ x. h (sym e ∙ x)))),
  λ e. subst (λ t. verb_from_string t ≡ v) (sym e) (from_string-to_string v),
)
