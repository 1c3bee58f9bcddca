-- ===== src/Scenarios/Postures.antt =====
-- A FortiGate and an advisory on its SSL VPN (backend-api/patchforge/configApplicability.js).
use diiac_patchforge.Prelude.{is_some, ◌&&◌, ◌≡◌, ◌↔◌, refl, true, false, some, [], any}
use diiac_patchforge.Prelude.Texts.{codes, is_word, is_space, trim, lower, lower_code, contains}
use diiac_patchforge.Applicability.{Advisory, Asset, absent, text}
use diiac_patchforge.Applicability.Terms.{
  list, normalize, collapse, split_on, first_value, canonical_term, add_aliases, expand_alias_terms,
}
use diiac_patchforge.Applicability.Versions.{
  equal, version_compare, version_parts, normalized_version, compare_parts, compare_from,
  version_satisfies_any, version_satisfies,
}
use diiac_patchforge.Applicability.Status.{
  affected_version_status, product_match_status, feature_enabled_status, exposure_status_for,
  is_reviewed, is_positive_evidence, has_reviewed_config_evidence, reviewed_asset_evidence,
}
use diiac_patchforge.Applicability.Gaps.{
  is_disabled_unreviewed, is_unknown_feature, gap_checks, supersedence_unreviewed,
  source_unreviewed, is_unidentified, is_unmatched, is_uncertain, is_unknown_exposure, is_exposed,
}
use diiac_patchforge.Applicability.Posture.{
  feature_of, Input, assess_config_applicability, derive_applicability_posture,
  derive_urgency_posture, not_applicable, monitor, is_exploited, has_patch, is_affected, is_live,
  blocks_scope,
}
use diiac_patchforge.Applicability.Versions.Order.{Meaning, version_compare_iff}
use diiac_patchforge.Applicability.Posture.Laws.{
  emergency-IsGrounded, not_applicable-IsReviewed, monitor_iff, ready-IsComplete,
}

abbrev vpn_advisory : Advisory
vpn_advisory = record {
  advisory_id = codes "FG-IR-1";
  cve = codes "CVE-2026-0001";
  vendor_id = text (codes "fortinet");
  product_id = absent;
  product_family = absent;
  affected_products = text (codes "FortiOS");
  affected_models = absent;
  affected_versions = text (codes "7.0.0-7.0.9, 7.2.x");
  fixed_versions = text (codes "7.2.5");
  affected_feature = text (codes "SSL VPN");
  affected_features = absent;
  feature = absent;
  known_exploited = false;
  kev = true;
  patch_available = false;
  review_state = codes "Reviewed";
  evidence_state = codes "attached";
  superseded = false;
  supersedence_review_state = [];
  superseded_review_state = [];
}

abbrev edge_firewall : Asset
edge_firewall = record {
  asset_id = text (codes "fw-1");
  vendor_id = text (codes "fortinet");
  product_family = text (codes "FortiGate");
  model = absent;
  product_id = absent;
  firmware_version = codes "v7.2.4";
  software_version = [];
  review_state = codes "approved";
  evidence_state = codes "reviewed";
  not_in_estate = false;
  internet_facing = some true;
  management_exposure = [];
  exposure = [];
  enabled_features = text (codes "ssl-vpn, ipsec");
  disabled_features = absent;
  config_evidence_refs = absent;
}

abbrev exposed : Input
exposed = record {
  advisory = vpn_advisory;
  asset = edge_firewall;
  known_exploited = false;
  patch_available = false;
}

abbrev patched : Input
patched = record exposed { asset = record edge_firewall { firmware_version = codes "7.2.10" } }

emergency-IsGrounded_example :
    (is_exploited exposed ≡ true)
    × (has_patch exposed ≡ true)
    × (edge_firewall.not_in_estate ≡ false)
    × (is_exposed (assess_config_applicability exposed).exposure_status ≡ true)
    × (is_affected (assess_config_applicability exposed).affected_version_status ≡ true)
    × (is_live (assess_config_applicability exposed).feature_enabled_status ≡ true)
    × (any blocks_scope (assess_config_applicability exposed).evidence_gaps ≡ false)
unfolding assess_config_applicability derive_applicability_posture derive_urgency_posture gap_checks
    affected_version_status product_match_status feature_enabled_status exposure_status_for
    is_reviewed is_positive_evidence has_reviewed_config_evidence reviewed_asset_evidence list
    normalize collapse split_on first_value canonical_term add_aliases expand_alias_terms
    version_compare version_parts normalized_version compare_parts compare_from
    version_satisfies_any version_satisfies is_word is_space trim lower lower_code contains
emergency-IsGrounded_example = emergency-IsGrounded exposed refl

not_applicable-IsReviewed_example :
    (is_reviewed (codes "approved") ≡ true)
    × (is_positive_evidence (codes "reviewed") ≡ true)
    × (supersedence_unreviewed vpn_advisory ≡ false)
unfolding assess_config_applicability derive_applicability_posture derive_urgency_posture gap_checks
    affected_version_status product_match_status feature_enabled_status exposure_status_for
    is_reviewed is_positive_evidence has_reviewed_config_evidence reviewed_asset_evidence list
    normalize collapse split_on first_value canonical_term add_aliases expand_alias_terms
    version_compare version_parts normalized_version compare_parts compare_from
    version_satisfies_any version_satisfies is_word is_space trim lower lower_code contains
not_applicable-IsReviewed_example = not_applicable-IsReviewed patched refl

monitor_iff_example :
    ((assess_config_applicability patched).urgency_posture ≡ monitor)
    ↔ ((assess_config_applicability patched).applicability_posture ≡ not_applicable)
monitor_iff_example = monitor_iff patched

ready-IsComplete_example :
    (reviewed_asset_evidence patched.asset ≡ true)
    × (is_unidentified patched.asset ≡ false)
    × (is_unmatched (product_match_status vpn_advisory patched.asset) ≡ false)
    × (is_uncertain (affected_version_status vpn_advisory patched.asset) ≡ false)
    × ((is_some (feature_of vpn_advisory)
          && is_disabled_unreviewed
              (feature_enabled_status patched.asset (feature_of vpn_advisory)))
        ≡ false)
    × ((is_some (feature_of vpn_advisory)
          && is_unknown_feature (feature_enabled_status patched.asset (feature_of vpn_advisory)))
        ≡ false)
    × (is_unknown_exposure (exposure_status_for patched.asset) ≡ false)
    × (source_unreviewed vpn_advisory ≡ false)
    × (supersedence_unreviewed vpn_advisory ≡ false)
unfolding assess_config_applicability derive_applicability_posture derive_urgency_posture gap_checks
    affected_version_status product_match_status feature_enabled_status exposure_status_for
    is_reviewed is_positive_evidence has_reviewed_config_evidence reviewed_asset_evidence list
    normalize collapse split_on first_value canonical_term add_aliases expand_alias_terms
    version_compare version_parts normalized_version compare_parts compare_from
    version_satisfies_any version_satisfies is_word is_space trim lower lower_code contains
ready-IsComplete_example = ready-IsComplete patched refl

version_compare_iff_example :
    (version_compare (codes "7.2") (codes "v7.2.0") ≡ equal)
    ↔ Meaning equal (version_parts (codes "7.2")) (version_parts (codes "v7.2.0"))
version_compare_iff_example = version_compare_iff (codes "7.2") (codes "v7.2.0") equal
