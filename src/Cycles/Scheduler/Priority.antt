-- ===== src/Cycles/Scheduler/Priority.antt =====
-- The order in which the scheduler refreshes vulnerabilities: `prioritizedCves` and
-- `scoreVulnerability` of backend-api/patchforge/scheduler.js.
pub mod Order
use diiac_patchforge.Prelude.{
  ℕ, ◌+◌, ◌≤◌, ◌≡◌, refl, Bool, true, false, not, ◌||◌, String, List, [], ◌∷◌, map, str_eq,
  if◌then◌else◌, ltb, keep, arith, Bool-cases, All,
}
use diiac_patchforge.Prelude.Texts.{codes, text_eq, lower, upper}

-- an absent text is empty
pub record Vulnerability : Type 0 where
  pub vulnerability_id : String
  pub canonical_id : String
  pub known_exploited : Bool
  pub internet_exposed : Bool
  pub severity : String
  pub patch_status : String
  pub ot_relevant : Bool

abbrev points : Bool → ℕ → ℕ
points b n = if b then n else 0

abbrev reads : String → String → Bool
reads s word = text_eq (lower (codes s)) (codes word)

unfoldable pub score_vulnerability : Vulnerability → ℕ
score_vulnerability v =
    points v.known_exploited 40
    + points v.internet_exposed 25
    + points (reads v.severity "critical") 20
    + points (reads v.patch_status "patch_available") 10
    + points v.ot_relevant 5

-- into a list in the order of `sort`, which is stable: after those that score at least as much
unfoldable pub insert_by_score : Vulnerability → List Vulnerability → List Vulnerability
insert_by_score v [] = v ∷ []
insert_by_score v (x ∷ xs) =
    let rest = insert_by_score v xs in
    if ltb (score_vulnerability x) (score_vulnerability v) then v ∷ x ∷ xs else x ∷ rest

abbrev pub sort_from : List Vulnerability → List Vulnerability → List Vulnerability
sort_from sorted [] = sorted
sort_from sorted (v ∷ vs) = sort_from (insert_by_score v sorted) vs

unfoldable pub sort_by_score : List Vulnerability → List Vulnerability
sort_by_score vs = sort_from [] vs

abbrev has_id : Vulnerability → Bool
has_id v = not (str_eq v.vulnerability_id "") || not (str_eq v.canonical_id "")

abbrev cve_of : Vulnerability → String
cve_of v = upper (if str_eq v.canonical_id "" then v.vulnerability_id else v.canonical_id)

unfoldable pub prioritized_cves : List Vulnerability → List String
prioritized_cves vs = map cve_of (sort_by_score (keep has_id vs))
