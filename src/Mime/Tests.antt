-- ===== src/Mime/Tests.antt =====
-- The media types at concrete headers.
use cor_rest.Base.{
  ◌==◌, if◌then◌else◌, Bytes, codes, strn_case_eq, ℕ, ◌+◌, ◌≡◌, refl, some, [], ◌∷◌,
}
use cor_rest.Mime.{mime_none, ld_json}
use cor_rest.Mime.Accept.{
  trim_spaces, name_matches, token_of, split_entries, token_type, note, choose, entry_type,
  extract_q, entry_q, negotiate, accept_parse, Double, positive,
}
use cor_rest.Mime.Accept.Negotiated.{IsPreferred, accept_parse-IsPreferred}

-- A reader of "0" and "0.d", which is all that the headers below hold.
abbrev tenth : ℕ → Double
tenth d = if d == b'0' then positive 0 else positive (0x3fb0000000000000 + d)

abbrev read_q : Bytes → Double
read_q (a ∷ b ∷ d ∷ []) = tenth d
read_q (a ∷ []) = tenth a
read_q _ = positive 0

abbrev header : Bytes
header = codes "text/html, application/json;q=0.4, application/ld+json; q=0.7,*/*;q=0"

accept-header : accept_parse read_q (some header) ≡ ld_json
unfolding accept_parse split_entries negotiate note entry_type entry_q token_type token_of
    trim_spaces extract_q choose name_matches strn_case_eq
accept-header = refl

accept-nothing : accept_parse read_q (some (codes "text/html")) ≡ mime_none
unfolding accept_parse split_entries negotiate note entry_type entry_q token_type token_of
    trim_spaces extract_q choose name_matches strn_case_eq
accept-nothing = refl

accept_parse-IsPreferred_example : IsPreferred (entry_q read_q) ld_json (split_entries header)
accept_parse-IsPreferred_example =
    accept_parse-IsPreferred read_q header ld_json (λ e. cc) accept-header (λ e. cc)
