-- ===== src/Verb/Tests.antt =====
-- The verbs at concrete methods.
use cor_rest.Base.{codes, ◌≡◌, refl}
use cor_rest.Verb.{verb_from_string, verbs}

lower_case_is_no_verb : verb_from_string (codes "get") ≡ verbs
unfolding verb_from_string
lower_case_is_no_verb = refl
