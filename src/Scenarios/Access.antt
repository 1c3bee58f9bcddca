-- ===== src/Scenarios/Access.antt =====
-- Requests with and without a token (backend-api/auth.js).
use diiac_patchforge.Prelude.{
  ℕ, ◌≡◌, refl, ◌⊎◌, inl, true, Option, none, some, String, [], ◌∷◌, str_eq, if◌then◌else◌,
}
use diiac_patchforge.Prelude.Texts.{codes}
use diiac_patchforge.Auth.{
  Claims, admitted, refused, authorize_request, roles_for_route, is_route, matches, after_text,
  after_segment, authorize, with_token, with_claims,
}
use diiac_patchforge.Auth.Laws.{IsEntitled, authorize_request-IsEntitled}

abbrev reader : Claims
reader = record { subject = "o1"; roles = "PatchForge.Reader" ∷ [] }

abbrev verify_one : String → Option Claims
verify_one token = if str_eq token "t1" then some reader else none

reader_reads :
    authorize_request verify_one true "GET" (codes "/api/patchforge/assets") (some "t1")
    ≡ admitted reader
unfolding authorize_request roles_for_route is_route matches after_text after_segment authorize
    with_token with_claims
reader_reads = refl

reader_ingests :
    authorize_request verify_one true "POST" (codes "/api/patchforge/assets/ingest") (some "t1")
    ≡ refused 403 "insufficient_patchforge_role"
unfolding authorize_request roles_for_route is_route matches after_text after_segment authorize
    with_token with_claims
reader_ingests = refl

authorize_request-IsEntitled_example :
    ((c : Claims) × (authorize_request verify_one true "GET"
          (codes "/api/patchforge/assets")
          (some "t1")
        ≡ admitted c)
      × IsEntitled verify_one
          (roles_for_route "GET" (codes "/api/patchforge/assets"))
          (some "t1")
          c)
    ⊎ ((status : ℕ) × (error : String) × (authorize_request verify_one true "GET"
            (codes "/api/patchforge/assets")
            (some "t1")
          ≡ refused status error))
authorize_request-IsEntitled_example =
    authorize_request-IsEntitled verify_one "GET" (codes "patchforge/assets") (some "t1") (inl refl)
