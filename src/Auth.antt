-- ===== src/Auth.antt =====
-- Authorization of requests (backend-api/auth.js): the roles of a route, and `authorizeRequest`. The
-- verification of a token is a parameter.
pub mod Laws
use diiac_patchforge.Prelude.{
  ℕ, Bool, true, false, not, ◌&&◌, ◌||◌, Option, none, some, String, List, [], ◌∷◌, ◌++◌, str_eq,
  if◌then◌else◌, ◌==◌, find, any,
}
use diiac_patchforge.Prelude.Texts.{codes, member}
use Prim.Native.String.{◌++◌ as str_append}

-- A part of a route's pattern: a literal text, or `[^/]+`.
pub data Piece : Type 0 where
  lit : String → Piece
  segment : Piece

-- `exact` is whether the pattern ends in `$`; each pattern begins with `^`.
pub record Route : Type 0 where
  pub method : String
  pub pieces : List Piece
  pub exact : Bool
  pub roles : List String

-- what is left of a text behind a prefix
unfoldable pub after_text : List ℕ → List ℕ → Option (List ℕ)
after_text [] s = some s
after_text (c ∷ cs) [] = none
after_text (c ∷ cs) (x ∷ s) = let rest = after_text cs s in if x == c then rest else none

abbrev is_slash : List ℕ → Bool
is_slash [] = true
is_slash (c ∷ s) = c == b'/'

-- what is left behind the characters that are no slash
unfoldable pub after_segment : List ℕ → List ℕ
after_segment [] = []
after_segment (c ∷ s) = let rest = after_segment s in if c == b'/' then c ∷ s else rest

unfoldable pub matches : List Piece → Bool → Option (List ℕ) → Bool
matches pieces exact none = false
matches [] exact (some []) = true
matches [] exact (some (c ∷ s)) = not exact
matches (lit t ∷ pieces) exact (some s) = matches pieces exact (after_text (codes t) s)
matches (segment ∷ pieces) exact (some s) =
    let rest = matches pieces exact (some (after_segment s)) in not (is_slash s) && rest

abbrev pub admin_role : String
admin_role = "PatchForge.Admin"

abbrev auditing : List String
auditing = "PatchForge.Admin" ∷ "PatchForge.Auditor" ∷ []

abbrev administering : List String
administering = "PatchForge.Admin" ∷ []

abbrev triaging : List String
triaging = "PatchForge.TriageAnalyst" ∷ "PatchForge.SecurityLead" ∷ "PatchForge.Admin" ∷ []

abbrev recording : List String
recording = "PatchForge.TriageAnalyst" ∷ "PatchForge.Admin" ∷ []

abbrev leading : List String
leading = "PatchForge.SecurityLead" ∷ "PatchForge.Admin" ∷ []

abbrev submitting : List String
submitting =
    "PatchForge.TriageAnalyst" ∷ "PatchForge.SecurityLead" ∷ "PatchForge.ServiceOwner"
    ∷ "PatchForge.Admin" ∷ []

abbrev reviewing : List String
reviewing =
    "PatchForge.SecurityLead" ∷ "PatchForge.ServiceOwner" ∷ "PatchForge.CABApprover"
    ∷ "PatchForge.RiskOwner" ∷ "PatchForge.Admin" ∷ []

abbrev generating : List String
generating = "PatchForge.SecurityLead" ∷ "PatchForge.CABApprover" ∷ "PatchForge.Admin" ∷ []

abbrev transitioning : List String
transitioning =
    "PatchForge.SecurityLead" ∷ "PatchForge.CABApprover" ∷ "PatchForge.RiskOwner"
    ∷ "PatchForge.Admin" ∷ []

abbrev reading : List String
reading =
    "PatchForge.Reader" ∷ "PatchForge.Auditor" ∷ "PatchForge.TriageAnalyst"
    ∷ "PatchForge.SecurityLead" ∷ "PatchForge.CABApprover" ∷ "PatchForge.RiskOwner"
    ∷ "PatchForge.ServiceOwner" ∷ "PatchForge.Admin" ∷ []

abbrev full : String → String → List String → Route
full method path roles = record {
  method = method;
  pieces = lit path ∷ [];
  exact = true;
  roles = roles;
}

abbrev under : String → String → List String → Route
under method path roles = record {
  method = method;
  pieces = lit path ∷ [];
  exact = false;
  roles = roles;
}

abbrev shaped : List Piece → List String → Route
shaped pieces roles = record { method = "POST"; pieces = pieces; exact = true; roles = roles }

-- The route of three alternatives stands as three routes, one after the other.
abbrev pub route_roles : List Route
route_roles =
    full "GET" "/api/patchforge/admin/config" auditing
    ∷ full "PUT" "/api/patchforge/admin/config" administering
    ∷ full "GET" "/api/patchforge/admin/health" auditing
    ∷ full "GET" "/api/patchforge/admin/purge" auditing
    ∷ full "POST" "/api/patchforge/admin/purge" administering
    ∷ full "POST" "/api/patchforge/admin/uat-cleanup" administering
    ∷ full "POST" "/api/patchforge/vulnerabilities/ingest" triaging
    ∷ shaped (lit "/api/patchforge/vulnerabilities/" ∷ segment ∷ lit "/review" ∷ []) leading
    ∷ shaped (lit "/api/patchforge/vulnerabilities/" ∷ segment ∷ lit "/evidence" ∷ []) submitting
    ∷ shaped
        (lit "/api/patchforge/vulnerabilities/"
          ∷ segment
          ∷ lit "/evidence/"
          ∷ segment
          ∷ lit "/review"
          ∷ [])
        reviewing
    ∷ shaped
        (lit "/api/patchforge/vulnerabilities/"
          ∷ segment
          ∷ lit "/evidence/"
          ∷ segment
          ∷ lit "/reopen"
          ∷ [])
        reviewing
    ∷ full "POST" "/api/patchforge/assets/ingest" recording
    ∷ full "POST" "/api/patchforge/services/ingest" recording
    ∷ full "POST" "/api/patchforge/agent-findings/ingest" triaging
    ∷ full "POST" "/api/patchforge/source-feeds/refresh" triaging
    ∷ under "POST" "/api/patchforge/bayesian/" triaging
    ∷ under "POST" "/api/patchforge/vendors" triaging
    ∷ full "POST" "/api/patchforge/decision-packs/generate" generating
    ∷ full "POST" "/api/patchforge/reports-packs/generate" generating
    ∷ full "POST" "/api/patchforge/reports/generate" generating
    ∷ full "POST" "/api/patchforge/action-packs" generating
    ∷ shaped (lit "/api/patchforge/workflow/items/" ∷ segment ∷ lit "/transition" ∷ [])
        transitioning
    ∷ under "POST" "/api/sra/" triaging
    ∷ under "GET" "/api/" reading
    ∷ under "POST" "/api/" triaging
    ∷ []

unfoldable pub is_route : String → List ℕ → Route → Bool
is_route method path r = str_eq r.method method && matches r.pieces r.exact (some path)

abbrev roles_or_none : Option Route → List String
roles_or_none none = []
roles_or_none (some r) = r.roles

-- rolesForRoute
unfoldable pub roles_for_route : String → List ℕ → List String
roles_for_route method path = roles_or_none (find (is_route method path) route_roles)

-- The claims of a verified token; the roles are those of `normalizeRoles`.
pub record Claims : Type 0 where
  pub subject : String
  pub roles : List String

pub data Authorized : Type 0 where
  unprotected : Authorized
  auth_disabled : Authorized
  admitted : Claims → Authorized
  refused : ℕ → String → Authorized

abbrev pub permits : List String → Claims → Bool
permits required c = any (λ role. member role required || str_eq role admin_role) c.roles

unfoldable pub with_claims : List String → Option Claims → Authorized
with_claims required none = refused 401 "invalid_bearer_token"
with_claims required (some c) =
    if permits required c then admitted c else refused 403 "insufficient_patchforge_role"

unfoldable pub with_token : (String → Option Claims) → List String → Option String → Authorized
with_token verify required none = refused 401 "missing_bearer_token"
with_token verify required (some token) = with_claims required (verify token)

-- authorizeRequest; `verify` is `none` where the verification throws, and the token is that of the
-- `Authorization` header.
unfoldable pub authorize :
    (String → Option Claims) → Bool → List String → Option String → Authorized
authorize verify is_required [] token = unprotected
authorize verify is_required (r ∷ rs) token =
    if is_required then with_token verify (r ∷ rs) token else auth_disabled

unfoldable pub authorize_request :
    (String → Option Claims) → Bool → String → List ℕ → Option String → Authorized
authorize_request verify is_required method path token =
    authorize verify is_required (roles_for_route method path) token
