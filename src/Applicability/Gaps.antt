-- ===== src/Applicability/Gaps.antt =====
-- The gaps in the evidence of an assessment: the checks at the head of `assessConfigApplicability` in
-- backend-api/patchforge/configApplicability.js. The English sentences of a gap are left out.
use diiac_patchforge.Prelude.{
  Bool, true, false, not, ◌&&◌, ◌||◌, Option, String, List, [], ◌∷◌, if◌then◌else◌, is_some,
}
use diiac_patchforge.Prelude.Texts.{codes}
use diiac_patchforge.Applicability.{Text, Advisory, Asset}
use diiac_patchforge.Applicability.Terms.{is_given}
use diiac_patchforge.Applicability.Status.{
  VersionStatus, unknown_version, affected, fixed_version_reviewed, fixed_version_pending_review,
  not_affected, not_listed_pending_review, ProductStatus, unknown_product, matched,
  unmatched_reviewed, unmatched_pending_review, FeatureState, disabled_reviewed,
  disabled_unreviewed, unknown_feature, ExposureStatus, internet_or_management_exposed,
  unknown_exposure, or_text, is_reviewed, is_positive_evidence,
}

pub record Gap : Type 0 where
  pub gap_id : String
  pub suggested_owner_role : String
  pub next_decision_gate : String
  pub current_state : Text

abbrev version_text : VersionStatus → String
version_text unknown_version = "unknown"
version_text affected = "affected"
version_text fixed_version_reviewed = "fixed_version_reviewed"
version_text fixed_version_pending_review = "fixed_version_pending_review"
version_text not_affected = "not_affected"
version_text not_listed_pending_review = "not_listed_pending_review"

abbrev product_text : ProductStatus → String
product_text unknown_product = "unknown"
product_text matched = "matched"
product_text unmatched_reviewed = "unmatched_reviewed"
product_text unmatched_pending_review = "unmatched_pending_review"

abbrev pub is_unmatched : ProductStatus → Bool
is_unmatched unknown_product = true
is_unmatched unmatched_pending_review = true
is_unmatched _ = false

abbrev pub is_uncertain : VersionStatus → Bool
is_uncertain unknown_version = true
is_uncertain fixed_version_pending_review = true
is_uncertain not_listed_pending_review = true
is_uncertain _ = false

abbrev pub is_unknown_version : VersionStatus → Bool
is_unknown_version unknown_version = true
is_unknown_version _ = false

abbrev pub is_unknown_product : ProductStatus → Bool
is_unknown_product unknown_product = true
is_unknown_product _ = false

abbrev pub is_disabled_unreviewed : FeatureState → Bool
is_disabled_unreviewed disabled_unreviewed = true
is_disabled_unreviewed _ = false

abbrev pub is_disabled_reviewed : FeatureState → Bool
is_disabled_reviewed disabled_reviewed = true
is_disabled_reviewed _ = false

abbrev pub is_unknown_feature : FeatureState → Bool
is_unknown_feature unknown_feature = true
is_unknown_feature _ = false

abbrev pub is_unknown_exposure : ExposureStatus → Bool
is_unknown_exposure unknown_exposure = true
is_unknown_exposure _ = false

abbrev pub is_exposed : ExposureStatus → Bool
is_exposed internet_or_management_exposed = true
is_exposed _ = false

abbrev gap : String → String → String → Text → Gap
gap id owner gate state = record {
  gap_id = id;
  suggested_owner_role = owner;
  next_decision_gate = gate;
  current_state = state;
}

abbrev asset_owner : String
asset_owner = "Network asset owner"

abbrev engineering_lead : String
engineering_lead = "Network engineering lead"

abbrev configuration_review : String
configuration_review = "Configuration applicability review"

abbrev pub supersedence_unreviewed : Advisory → Bool
supersedence_unreviewed advisory =
    advisory.superseded
    && not
        (is_reviewed (or_text advisory.supersedence_review_state advisory.superseded_review_state))

abbrev pub source_unreviewed : Advisory → Bool
source_unreviewed advisory =
    not (is_reviewed advisory.review_state) || not (is_positive_evidence advisory.evidence_state)

abbrev pub is_unidentified : Asset → Bool
is_unidentified asset =
    not (is_given asset.asset_id)
    && not (is_given asset.model)
    && not (is_given asset.product_family)

-- one `if` that adds a gap, and the evidence that closes it
pub record Check : Type 0 where
  pub found : Bool
  pub open_gap : Gap
  pub evidence : String

abbrev check : Bool → Gap → String → Check
check found g evidence = record { found = found; open_gap = g; evidence = evidence }

unfoldable pub gap_checks :
    Advisory
    → Asset
    → Option Text
    → VersionStatus
    → ProductStatus
    → FeatureState
    → ExposureStatus
    → List Check
gap_checks advisory asset feature version product state exposure =
    check (is_unidentified asset)
      (gap "customer_network_asset" asset_owner "Scope confirmation" (codes "missing"))
      "customer_network_asset_inventory"
    ∷ check (is_unmatched product)
        (gap "product_model_mapping" asset_owner "Scope confirmation"
          (codes (product_text product)))
        "reviewed_product_model_mapping"
    ∷ check (is_uncertain version)
        (gap "firmware_version" engineering_lead configuration_review
          (codes (version_text version)))
        "reviewed_firmware_version"
    ∷ check (is_some feature && is_disabled_unreviewed state)
        (gap "feature_disabled_review" engineering_lead configuration_review
          (codes "disabled_unreviewed"))
        "reviewed_feature_configuration"
    ∷ check (is_some feature && is_unknown_feature state)
        (gap "feature_state" engineering_lead configuration_review (codes "unknown"))
        "reviewed_feature_state"
    ∷ check (is_unknown_exposure exposure)
        (gap "exposure_state" engineering_lead "Exposure review" (codes "unknown"))
        "reviewed_exposure_state"
    ∷ check (source_unreviewed advisory)
        (gap "advisory_source_review" "Security lead" "Source review"
          (or_text advisory.review_state (codes "pending_review")))
        "reviewed_vendor_advisory"
    ∷ check (supersedence_unreviewed advisory)
        (gap "superseded_advisory_review" "Security lead" "Source review"
          (codes "superseded_pending_review"))
        "reviewed_supersedence"
    ∷ []

abbrev pub gaps_of : List Check → List Gap
gaps_of [] = []
gaps_of (c ∷ cs) = let rest = gaps_of cs in if c.found then c.open_gap ∷ rest else rest

abbrev pub evidence_of : List Check → List String
evidence_of [] = []
evidence_of (c ∷ cs) = let rest = evidence_of cs in if c.found then c.evidence ∷ rest else rest
