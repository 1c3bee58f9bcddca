-- ===== src/Scenarios/Flags.antt =====
-- Runs of the parser of security flags (backend-api/patchforge/securityBooleans.js) and of the retry
-- delay (backend-api/patchforge/automationWork.js).
use diiac_patchforge.Prelude.{◌≤◌, ◌≡◌, ◌↔◌, refl, true, false, List, [], ◌∷◌, arith}
use diiac_patchforge.Prelude.Numbers.{of_ℕ, nan}
use diiac_patchforge.Security.{Value, str, bool, undefined, parse_security_boolean}
use diiac_patchforge.Security.Laws.{IsAffirmative, parse_security_boolean-IsAffirmative}
use diiac_patchforge.Automation.Retry.{retry_delay, retry_delay_bounds}

parse_padded : parse_security_boolean (str " Yes ") false ≡ true
unfolding parse_security_boolean
parse_padded = refl

parse_enabled : parse_security_boolean (str "enabled") false ≡ false
unfolding parse_security_boolean
parse_enabled = refl

parse_security_boolean-IsAffirmative_example :
    (parse_security_boolean (str "yes") false ≡ true) ↔ IsAffirmative (str "yes")
parse_security_boolean-IsAffirmative_example = parse_security_boolean-IsAffirmative (str "yes")

abbrev candidates : List Value
candidates = undefined ∷ bool false ∷ str "on" ∷ []

retry_delay_bounds_example :
    (1 ≤ retry_delay 3 nan (of_ℕ 2000) 5) × (retry_delay 3 nan (of_ℕ 2000) 5 ≤ 750000)
retry_delay_bounds_example = retry_delay_bounds 3 nan (of_ℕ 2000) 5 (omega arith)
