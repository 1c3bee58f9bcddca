-- ===== src/Auth/Laws.antt =====
-- Who is let in (backend-api/auth.js).
use diiac_patchforge.Prelude.{
  ℕ, zero, suc, ◌≡◌, refl, ◌⊎◌, inl, inr, arith, Bool, true, false, Option, none, some, String,
  List, [], ◌∷◌, ◌++◌, find, any, Bool-cases, All, All-find,
}
use diiac_patchforge.Prelude.Texts.{codes}
use diiac_patchforge.Auth.{
  Route, lit, matches, after_text, is_route, route_roles, roles_for_route, Claims, Authorized,
  admitted, refused, permits, with_claims, with_token, authorize, authorize_request,
}

-- the token of a caller who is let in, its claims, and a role among them
pub record IsEntitled (verify : String → Option Claims) (required : List String)
    (token : Option String) (c : Claims) : Type 0 where
  pub bearer : String
  pub is_bearer : token ≡ some bearer
  pub is_verified : verify bearer ≡ some c
  pub is_permitted : permits required c ≡ true

abbrev drop : ℕ → List Route → List Route
drop zero rs = rs
drop (suc n) [] = []
drop (suc n) (r ∷ rs) = drop n rs

module _ (p : Route → Bool) where
  any-drop : (n : ℕ) (rs : List Route) → any p (drop n rs) ≡ true → any p rs ≡ true
  any-drop zero rs h = h
  any-drop (suc n) [] h = h
  any-drop (suc n) (r ∷ rs) h = ground (arith, any-drop n rs h)

  found : (rs : List Route) → any p rs ≡ true → (r : Route) × (find p rs ≡ some r)
  found [] h = cc
  found (r ∷ rs) h = elim (Bool-cases (p r)) [
    | inl t ↦ (r, rw t refl)
    | inr f ↦ let (s, e) = found rs (rw f at h) in (s, rw f e)
  ]

-- The catch-all routes match every path below `/api/`.
abbrev IsApiMethod : String → Type 0
IsApiMethod method = (method ≡ "GET") ⊎ (method ≡ "POST")

matches_below :
    (rest : List ℕ) → matches (lit "/api/" ∷ []) false (some (codes "/api/" ++ rest)) ≡ true
unfolding matches after_text
matches_below [] = refl
matches_below (c ∷ rest) = refl

any_route :
    (method : String) (rest : List ℕ)
    → IsApiMethod method
    → any (is_route method (codes "/api/" ++ rest)) route_roles ≡ true
unfolding is_route
any_route method rest (inl get) = rw get (
    any-drop (is_route "GET" (codes "/api/" ++ rest)) 23 route_roles (rw (matches_below rest) refl))
any_route method rest (inr post) = rw post (
    any-drop (is_route "POST" (codes "/api/" ++ rest)) 24 route_roles
      (rw (matches_below rest) refl))

abbrev HasRoles : List String → Type 0
HasRoles [] = ⊥
HasRoles (_ ∷ _) = Unit

routes-HasRoles : All (λ r. HasRoles r.roles) route_roles
routes-HasRoles = (
  tt,
  (
    tt,
    (
      tt,
      (
        tt,
        (
          tt,
          (
            tt,
            (
              tt,
              (
                tt,
                (
                  tt,
                  (
                    tt,
                    (
                      tt,
                      (
                        tt,
                        (
                          tt,
                          (
                            tt,
                            (tt, (tt, (tt, (tt, (tt, (tt, (tt, (tt, (tt, (tt, (tt, tt))))))))))),
                          ),
                        ),
                      ),
                    ),
                  ),
                ),
              ),
            ),
          ),
        ),
      ),
    ),
  ),
)

roles_for_route-HasRoles :
    (method : String) (rest : List ℕ)
    → IsApiMethod method
    → HasRoles (roles_for_route method (codes "/api/" ++ rest))
unfolding roles_for_route
roles_for_route-HasRoles method rest m =
    let (r, e) =
      found (is_route method (codes "/api/" ++ rest)) route_roles (any_route method rest m) in
    rw e (
      All-find (λ x. HasRoles x.roles) (is_route method (codes "/api/" ++ rest)) route_roles
        routes-HasRoles e)

abbrev IsSettled : (String → Option Claims) → List String → Option String → Authorized → Type 0
IsSettled verify required token a =
    ((c : Claims) × (a ≡ admitted c) × IsEntitled verify required token c)
    ⊎ ((status : ℕ) × (error : String) × (a ≡ refused status error))

claims-IsSettled :
    (verify : String → Option Claims) (required : List String) (t : String) (o : Option Claims)
    → verify t ≡ o
    → IsSettled verify required (some t) (with_claims required o)
unfolding with_claims
claims-IsSettled verify required t none e = inr (401, "invalid_bearer_token", refl)
claims-IsSettled verify required t (some c) e = elim (Bool-cases (permits required c)) [
  | inr f ↦ rw f (inr (403, "insufficient_patchforge_role", refl))
  | inl g ↦
      rw g
        (inl (c, refl, record { bearer = t; is_bearer = refl; is_verified = e; is_permitted = g }))
]

token-IsSettled :
    (verify : String → Option Claims) (required : List String) (token : Option String)
    → IsSettled verify required token (with_token verify required token)
unfolding with_token
token-IsSettled verify required none = inr (401, "missing_bearer_token", refl)
token-IsSettled verify required (some t) = claims-IsSettled verify required t (verify t) refl

authorize-IsSettled :
    (verify : String → Option Claims) (required : List String) (token : Option String)
    → HasRoles required
    → IsSettled verify required token (authorize verify true required token)
unfolding authorize
authorize-IsSettled verify [] token h = absurd h
authorize-IsSettled verify (r ∷ rs) token h = token-IsSettled verify (r ∷ rs) token

-- Where authentication is required, a GET or a POST of any path below `/api/` is let in only with a token
-- that has been verified and that has a role of the route, or the administrator's; otherwise it is
-- refused.
pub authorize_request-IsEntitled :
    (verify : String → Option Claims) (method : String) (rest : List ℕ) (token : Option String)
    → (method ≡ "GET") ⊎ (method ≡ "POST")
    → ((c : Claims) × (authorize_request verify true method (codes "/api/" ++ rest) token
          ≡ admitted c)
        × IsEntitled verify (roles_for_route method (codes "/api/" ++ rest)) token c)
      ⊎ ((status : ℕ) × (error : String) × (authorize_request verify true method
              (codes "/api/" ++ rest)
              token
            ≡ refused status error))
unfolding authorize_request
authorize_request-IsEntitled verify method rest token m =
    authorize-IsSettled verify (roles_for_route method (codes "/api/" ++ rest)) token
      (roles_for_route-HasRoles method rest m)
