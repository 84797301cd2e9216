-- ===== src/Reply/Policy.antt =====
-- When the length of a body is missing, and which late problem is answered.
use cor_rest.Base.{
  ltb, if◌then◌else◌, ltb→lt, lt→ltb, &&→both, both→&&, Bool-cases, Bytes, take, drop, codes,
  strn_eq, strn_eq-prefix, strn_eq_right, ℕ, ◌-◌, ◌<◌, ◌≡◌, refl, sym, ap, ◌∙◌, subst, ◌↔◌, ◌⊎◌,
  inl, inr, Bool, true, false, not, ◌&&◌, Option, none, some, List, [], ◌∷◌, ◌++◌, arith,
}
use cor_rest.Reply.Number.{strtoull-IsNumber, IsNumber}
use cor_rest.Verb.{Verb, get, put, post, delete, patch, head, options, verbs}
use cor_rest.Reply.{
  rest_problem, rest_problem_late, is_write, strtoull, body_policy_check, Problem, Out,
}

abbrev pub api_root : Bytes
api_root = codes "/ngsi-ld/"

api_root_iff :
    (url : Bytes) → (strn_eq 9 url api_root ≡ true) ↔ ((rest : Bytes) × (url ≡ api_root ++ rest))
api_root_iff url = (
  λ h. (drop 9 url, strn_eq_right api_root url h),
  λ (rest, e). subst (λ t. strn_eq 9 t api_root ≡ true) (sym e) (strn_eq-prefix api_root rest),
)

-- The tests of the check where there is a Content-Length.
abbrev tested : Bool → Bool → Bool → Out → Out → Out × Bool
tested b c d x y =
    if b then (x, false) else if c then (x, false) else if d then (y, false) else (x, false)

never_missing : (b c d : Bool) (x y : Out) → (tested b c d x y).1 ≡ false
never_missing true c d x y = refl
never_missing false true d x y = refl
never_missing false false true x y = refl
never_missing false false false x y = refl

true-false : ¬ (true ≡ false)
true-false e = ground arith

some-none : {t : Bytes} → ¬ (some t ≡ none)
some-none e = ground arith

with_length :
    (room : ℕ) (too_large : ℕ → ℕ → Problem) (limit : ℕ) (method : Verb) (url text : Bytes)
    (o : Out)
    → (body_policy_check room too_large limit method (some url) (some text) o).1 ≡ false
unfolding body_policy_check
with_length room too_large limit method url text o =
    never_missing (not (is_write method)) (not (strn_eq 9 url api_root))
      (ltb 0 limit && ltb limit (strtoull text)) o
      (rest_problem room (too_large (strtoull text) limit) o)

-- The methods that a body is sent with
abbrev pub SendsBody : Verb → Type 0
SendsBody v = (v ≡ post) ⊎ (v ≡ put) ⊎ (v ≡ patch)

is_write-SendsBody : (v : Verb) → (is_write v ≡ true) ↔ SendsBody v
is_write-SendsBody post = (λ h. inl refl, λ s. refl)
is_write-SendsBody put = (λ h. inr (inl refl), λ s. refl)
is_write-SendsBody patch = (λ h. inr (inr refl), λ s. refl)
is_write-SendsBody get = (λ h. absurd (ground arith), λ s. absurd (ground arith))
is_write-SendsBody delete = (λ h. absurd (ground arith), λ s. absurd (ground arith))
is_write-SendsBody head = (λ h. absurd (ground arith), λ s. absurd (ground arith))
is_write-SendsBody options = (λ h. absurd (ground arith), λ s. absurd (ground arith))
is_write-SendsBody verbs = (λ h. absurd (ground arith), λ s. absurd (ground arith))

body_policy_check-flag :
    (room : ℕ) (too_large : ℕ → ℕ → Problem) (limit : ℕ) (method : Verb) (url : Bytes)
    (header : Option Bytes) (o : Out)
    → (let r = body_policy_check room too_large limit method (some url) header o in
        ((r.1 ≡ true) ↔ (
          (is_write method ≡ true) × (header ≡ none) × ((rest : Bytes) × (url ≡ api_root ++ rest))))
        × (r.1 ≡ true → (r.0.http_status_code ≡ 411) × (r.0.problem_type ≡ o.problem_type)))
unfolding body_policy_check
body_policy_check-flag room too_large limit method url none o =
    let root = api_root_iff url in
    elim (Bool-cases (is_write method)) [
      | inr e ↦ (ground arith, ground arith)
      | inl e ↦ elim (Bool-cases (strn_eq 9 url api_root)) [
        | inl e' ↦ (ground arith, ground arith)
        | inr e' ↦ (ground arith, ground arith)
      ]
    ]
body_policy_check-flag room too_large limit method url (some text) o =
    let no_flag = with_length room too_large limit method url text o in
    (
      (λ e. absurd (true-false (sym e ∙ no_flag)), λ (w, none', u). absurd (some-none none')),
      λ e. absurd (true-false (sym e ∙ no_flag)),
    )

-- A body that is too large by its Content-Length
abbrev pub IsTooLarge : ℕ → ℕ → Verb → Bytes → Type 0
IsTooLarge limit v method url =
    SendsBody method × ((rest : Bytes) × (url ≡ api_root ++ rest)) × (0 < limit) × (limit < v)

is_too_large :
    (limit v : ℕ) (method : Verb) (url : Bytes)
    → (is_write method && (strn_eq 9 url api_root && (ltb 0 limit && ltb limit v)) ≡ true)
      ↔ IsTooLarge limit v method url
is_too_large limit v method url =
    let writes = is_write-SendsBody method in
    let root = api_root_iff url in
    (
      λ h.
          let (w, h') = &&→both (is_write method) _ h in
          let (u, h'') = &&→both (strn_eq 9 url api_root) _ h' in
          let (l, m) = &&→both (ltb 0 limit) _ h'' in
          (writes.0 w, root.0 u, ltb→lt 0 limit l, ltb→lt limit v m),
      λ (w, u, l, m). both→&& (is_write method) _ (writes.1 w) (
          both→&& (strn_eq 9 url api_root) _ (root.1 u)
            (both→&& (ltb 0 limit) _ (lt→ltb 0 limit l) (lt→ltb limit v m))),
    )

body_policy_check-some :
    (room : ℕ) (too_large : ℕ → ℕ → Problem) (limit : ℕ) (method : Verb) (url text : Bytes) (v : ℕ)
    (o : Out)
    → strtoull text ≡ v
    → (body_policy_check room too_large limit method (some url) (some text) o).0 ≡ (
        if is_write method && (strn_eq 9 url api_root && (ltb 0 limit && ltb limit v))
        then rest_problem room (too_large v limit) o
        else o)
unfolding body_policy_check
body_policy_check-some room too_large limit method url text v o e =
    elim (Bool-cases (is_write method)) [
      | inr w ↦ rw (e, w) refl
      | inl w ↦ elim (Bool-cases (strn_eq 9 url api_root)) [
        | inr u ↦ rw (e, w, u) refl
        | inl u ↦ elim (Bool-cases (ltb 0 limit && ltb limit v)) [
          | inr l ↦ rw (e, w, u, l) refl
          | inl l ↦ rw (e, w, u, l) refl
        ]
      ]
    ]

-- For a URL: the length is found missing exactly where the method is POST, PUT or PATCH, the URL is
-- under /ngsi-ld/ and there is no Content-Length, and then the status is 411 and no problem is told.
-- Where the Content-Length is the digits of a number of 64 bits, the answer is the problem of a body
-- that is too large if the method and the URL are of these, there is a limit and the number is above
-- it, and else it is left as it was.
pub body_policy_check-missing :
    (room : ℕ) (too_large : ℕ → ℕ → Problem) (limit : ℕ) (method : Verb) (url : Bytes)
    (header : Option Bytes) (o : Out)
    → (let r = body_policy_check room too_large limit method (some url) header o in
        ((r.1 ≡ true)
          ↔ (SendsBody method × (header ≡ none) × ((rest : Bytes) × (url ≡ api_root ++ rest))))
        × (r.1 ≡ true → (r.0.http_status_code ≡ 411) × (r.0.problem_type ≡ o.problem_type))
        × ((text : Bytes) (v : ℕ)
            → header ≡ some text
            → IsNumber text v
            → (IsTooLarge limit v method url → r.0 ≡ rest_problem room (too_large v limit) o)
              × (¬ IsTooLarge limit v method url → r.0 ≡ o)))
body_policy_check-missing room too_large limit method url header o =
    let flag = body_policy_check-flag room too_large limit method url header o in
    let writes = is_write-SendsBody method in
    (
      (
        λ h. let (w, absent, under) = flag.0.0 h in (writes.0 w, absent, under),
        λ (s, absent, under). flag.0.1 (writes.1 s, absent, under),
      ),
      flag.1,
      λ text v given number.
          let check = is_too_large limit v method url in
          let result =
            ap (λ h. (body_policy_check room too_large limit method (some url) h o).0) given
            ∙ body_policy_check-some room too_large limit method url text v o
                (strtoull-IsNumber text v number) in
          (
            λ large. (let e = check.1 large in result ∙ rw e refl),
            λ small.
                elim (Bool-cases
                  (is_write method && (strn_eq 9 url api_root && (ltb 0 limit && ltb limit v)))) [
                    | inl e ↦ absurd (small (check.0 e))
                    | inr e ↦ result ∙ rw e refl
                  ],
          ),
    )

-- Late problems, one after the other.
abbrev pub late_problems : ℕ → List Problem → Out → Out
late_problems room [] o = o
late_problems room (p ∷ ps) o = late_problems room ps (rest_problem_late room p o)

late_kept :
    (room : ℕ) (ps : List Problem) (q : Problem) (o : Out)
    → o.late ≡ some q
    → late_problems room ps o ≡ o
unfolding rest_problem_late
late_kept room [] q o e = refl
late_kept room (p ∷ ps) q o e =
    let same : rest_problem_late room p o ≡ o = ground arith in
    ap (late_problems room ps) same ∙ late_kept room ps q o e

-- Of any late problems of one request the first is kept, its detail cut to what the array holds, and
-- nothing else of the answer changes.
pub late_problems-first :
    (room : ℕ) (p : Problem) (ps : List Problem) (o : Out)
    → o.late ≡ none
    → late_problems room (p ∷ ps) o
      ≡ record o { late = some (record p { detail = take (room - 1) p.detail }) }
unfolding rest_problem_late
late_problems-first room p ps o e =
    let kept : Problem = record p { detail = take (room - 1) p.detail } in
    let same : rest_problem_late room p o ≡ record o { late = some kept } = ground arith in
    ap (late_problems room ps) same ∙ late_kept room ps kept (record o { late = some kept }) refl
