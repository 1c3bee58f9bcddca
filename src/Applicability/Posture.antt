-- ===== src/Applicability/Posture.antt =====
-- `assessConfigApplicability` of backend-api/patchforge/configApplicability.js: the
-- postures that are derived. The identifiers that are copied from the input are left out.
pub mod Laws
use diiac_patchforge.Prelude.{
  Bool, true, false, not, ◌&&◌, ◌||◌, Option, none, some, String, List, [], ◌∷◌, ◌++◌, map, str_eq,
  if◌then◌else◌, any, is_some, ◌==◌,
}
use diiac_patchforge.Prelude.Texts.{codes, member}
use diiac_patchforge.Applicability.{Text, Field, Advisory, Asset}
use diiac_patchforge.Applicability.Terms.{has_text, is_given, has_length, first_value, list}
use diiac_patchforge.Applicability.Status.{
  VersionStatus, unknown_version, affected, fixed_version_reviewed, fixed_version_pending_review,
  not_affected, not_listed_pending_review, ProductStatus, unknown_product, matched,
  unmatched_reviewed, unmatched_pending_review, FeatureState, not_specified, enabled,
  disabled_reviewed, disabled_unreviewed, unknown_feature, ExposureStatus,
  internet_or_management_exposed, not_internet_exposed_reviewed,
  not_internet_exposed_pending_review, unknown_exposure, or_text, is_reviewed, is_positive_evidence,
  has_reviewed_config_evidence, reviewed_asset_evidence, affected_version_status,
  product_match_status, feature_enabled_status, exposure_status_for,
}
use diiac_patchforge.Applicability.Gaps.{
  Check, Gap, evidence_of, gap_checks, gaps_of, is_disabled_reviewed, is_disabled_unreviewed,
  is_exposed, is_uncertain, is_unidentified, is_unknown_exposure, is_unknown_feature,
  is_unknown_product, is_unknown_version, is_unmatched, source_unreviewed, supersedence_unreviewed,
}

pub data ApplicabilityPosture : Type 0 where
  requires_review not_applicable applicable conditional unknown : ApplicabilityPosture

pub data UrgencyPosture : Type 0 where
  monitor urgent_scope_confirmation_required no_action_pending_review emergency_patch_required
        patch_required mitigate_temporarily :
      UrgencyPosture

-- the options of the call that the assessment reads
pub record Input : Type 0 where
  pub advisory : Advisory
  pub asset : Asset
  pub known_exploited : Bool
  pub patch_available : Bool

pub record Assessment : Type 0 where
  pub affected_version_status : VersionStatus
  pub feature_enabled_status : FeatureState
  pub exposure_status : ExposureStatus
  pub applicability_posture : ApplicabilityPosture
  pub urgency_posture : UrgencyPosture
  pub evidence_required : List String
  pub evidence_gaps : List Gap
  pub human_review_required : Bool
  pub can_close_hard_gates_alone : Bool
  pub final_approval_issued : Bool
  -- decision_not_allowed_yet: whether it says that a recommendation may be made
  pub ready_to_recommend : Bool

abbrev is_fixed_or_clear : VersionStatus → Bool
is_fixed_or_clear not_affected = true
is_fixed_or_clear fixed_version_reviewed = true
is_fixed_or_clear _ = false

abbrev pub is_affected : VersionStatus → Bool
is_affected affected = true
is_affected _ = false

abbrev is_unmatched_reviewed : ProductStatus → Bool
is_unmatched_reviewed unmatched_reviewed = true
is_unmatched_reviewed _ = false

abbrev pub is_live : FeatureState → Bool
is_live enabled = true
is_live not_specified = true
is_live _ = false

unfoldable pub derive_applicability_posture :
    Advisory
    → Asset
    → VersionStatus
    → ProductStatus
    → FeatureState
    → Bool
    → Bool
    → List Gap
    → ApplicabilityPosture
derive_applicability_posture advisory asset version product state asset_evidence config_evidence
      gaps =
    if supersedence_unreviewed advisory
    then requires_review
    else if asset.not_in_estate && asset_evidence
    then not_applicable
    else if asset.not_in_estate
    then requires_review
    else if is_unmatched_reviewed product && asset_evidence
    then not_applicable
    else if is_fixed_or_clear version && asset_evidence
    then not_applicable
    else if is_disabled_reviewed state && config_evidence
    then not_applicable
    else if is_disabled_unreviewed state
    then requires_review
    else if is_affected version && is_live state
    then applicable
    else if is_unknown_version version || is_unknown_product product || any (λ _. true) gaps
    then requires_review
    else if has_text advisory.cve || has_text advisory.advisory_id
    then conditional
    else unknown

abbrev pub is_not_applicable : ApplicabilityPosture → Bool
is_not_applicable not_applicable = true
is_not_applicable _ = false

abbrev pub is_applicable : ApplicabilityPosture → Bool
is_applicable applicable = true
is_applicable _ = false

abbrev pub blocks_scope : Gap → Bool
blocks_scope g =
    member g.gap_id ("customer_network_asset" ∷ "firmware_version" ∷ "feature_state" ∷ [])

unfoldable pub derive_urgency_posture :
    ApplicabilityPosture
    → VersionStatus
    → FeatureState
    → ExposureStatus
    → Bool
    → Bool
    → Bool
    → List Gap
    → UrgencyPosture
derive_urgency_posture posture version state exposure exploited patch config_evidence gaps =
    if is_not_applicable posture && config_evidence
    then monitor
    else if is_disabled_unreviewed state
    then urgent_scope_confirmation_required
    else if is_unknown_version version || any blocks_scope gaps
    then if exploited then urgent_scope_confirmation_required else no_action_pending_review
    else if exploited && is_exposed exposure && is_applicable posture
    then if patch then emergency_patch_required else urgent_scope_confirmation_required
    else if is_applicable posture && patch
    then patch_required
    else if is_applicable posture
    then mitigate_temporarily
    else no_action_pending_review

abbrev pub feature_of : Advisory → Option Text
feature_of advisory =
    first_value (advisory.affected_feature ∷ advisory.affected_features ∷ advisory.feature ∷ [])

abbrev pub is_exploited : Input → Bool
is_exploited i = i.advisory.known_exploited || i.advisory.kev || i.known_exploited

abbrev pub has_patch : Input → Bool
has_patch i =
    i.advisory.patch_available || has_length i.advisory.fixed_versions || i.patch_available

abbrev pub config_evidence_of : Asset → Bool
config_evidence_of asset = reviewed_asset_evidence asset || has_reviewed_config_evidence asset

-- the assessment, of what it read
abbrev pub assessed :
    Input
    → VersionStatus
    → FeatureState
    → ExposureStatus
    → List Check
    → ApplicabilityPosture
    → Assessment
assessed i version state exposure checks posture = record {
  affected_version_status = version;
  feature_enabled_status = state;
  exposure_status = exposure;
  applicability_posture = posture;
  urgency_posture =
      derive_urgency_posture posture version state exposure (is_exploited i) (has_patch i)
        (config_evidence_of i.asset) (gaps_of checks);
  evidence_required = evidence_of checks;
  evidence_gaps = gaps_of checks;
  human_review_required = true;
  can_close_hard_gates_alone = false;
  final_approval_issued = false;
  ready_to_recommend = is_not_applicable posture && not (any (λ _. true) (gaps_of checks));
}

unfoldable pub assess_config_applicability : Input → Assessment
assess_config_applicability i =
    let version = affected_version_status i.advisory i.asset in
    let product = product_match_status i.advisory i.asset in
    let state = feature_enabled_status i.asset (feature_of i.advisory) in
    let exposure = exposure_status_for i.asset in
    let checks =
      gap_checks i.advisory i.asset (feature_of i.advisory) version product state exposure in
    assessed i version state exposure checks (
      derive_applicability_posture i.advisory i.asset version product state
        (reviewed_asset_evidence i.asset) (config_evidence_of i.asset) (gaps_of checks))
