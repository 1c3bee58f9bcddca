-- ===== src/Applicability/Posture/Laws.antt =====
-- What a posture of backend-api/patchforge/configApplicability.js rests on.
use diiac_patchforge.Prelude.{
  ◌≡◌, ◌↔◌, refl, inl, inr, Bool, true, false, not, ◌&&◌, ◌||◌, Option, List, [], ◌∷◌, arith,
  length, All, is_some, Bool-cases, any,
}
use diiac_patchforge.Applicability.{Text, Advisory, Asset}
use diiac_patchforge.Applicability.Status.{
  VersionStatus, ProductStatus, FeatureState, ExposureStatus, reviewed_asset_evidence,
  has_reviewed_config_evidence, product_match_status, affected_version_status,
  feature_enabled_status, exposure_status_for, is_reviewed, is_positive_evidence,
}
use diiac_patchforge.Applicability.Gaps.{
  Gap, Check, gaps_of, evidence_of, gap_checks, supersedence_unreviewed, is_unidentified,
  is_unknown_exposure, is_exposed, is_disabled_unreviewed, is_unknown_feature, is_unmatched,
  is_uncertain, source_unreviewed,
}
use diiac_patchforge.Applicability.Posture.{
  Input, ApplicabilityPosture, not_applicable, applicable, monitor, emergency_patch_required,
  derive_applicability_posture, derive_urgency_posture, assess_config_applicability,
  config_evidence_of, is_exploited, has_patch, is_affected, is_live, blocks_scope,
  is_not_applicable, feature_of,
}

derive_not_applicable :
    (advisory : Advisory) (asset : Asset) (v : VersionStatus) (p : ProductStatus) (s : FeatureState)
    (a c : Bool) (gaps : List Gap)
    → derive_applicability_posture advisory asset v p s a c gaps ≡ not_applicable
    → (supersedence_unreviewed advisory ≡ false) × ((a || c) ≡ true)
unfolding derive_applicability_posture
derive_not_applicable advisory asset v p s a c gaps h = ground arith

config_evidence-IsReviewed :
    (asset : Asset) → config_evidence_of asset ≡ true → reviewed_asset_evidence asset ≡ true
unfolding reviewed_asset_evidence has_reviewed_config_evidence
config_evidence-IsReviewed asset h = ground arith

evidence_of_either :
    (asset : Asset)
    → (reviewed_asset_evidence asset || config_evidence_of asset) ≡ true
    → config_evidence_of asset ≡ true
evidence_of_either asset h = ground arith

both :
    (asset : Asset)
    → reviewed_asset_evidence asset ≡ true
    → (is_reviewed asset.review_state ≡ true) × (is_positive_evidence asset.evidence_state ≡ true)
unfolding reviewed_asset_evidence
both asset h = ground arith

-- An assessment of not applicable rests on evidence on the asset that was reviewed and accepted, and
-- never stands on an advisory that is superseded without a review of that.
pub not_applicable-IsReviewed :
    (i : Input)
    → (assess_config_applicability i).applicability_posture ≡ not_applicable
    → (is_reviewed i.asset.review_state ≡ true)
      × (is_positive_evidence i.asset.evidence_state ≡ true)
      × (supersedence_unreviewed i.advisory ≡ false)
unfolding assess_config_applicability
not_applicable-IsReviewed i h =
    let found = derive_not_applicable i.advisory i.asset _ _ _ _ _ _ h in
    let reviewed = config_evidence-IsReviewed i.asset (evidence_of_either i.asset found.1) in
    ((both i.asset reviewed).0, (both i.asset reviewed).1, found.0)

derive_emergency :
    (posture : ApplicabilityPosture) (v : VersionStatus) (s : FeatureState) (x : ExposureStatus)
    (exploited patch c : Bool) (gaps : List Gap)
    → derive_urgency_posture posture v s x exploited patch c gaps ≡ emergency_patch_required
    → (exploited ≡ true)
      × (patch ≡ true)
      × (is_exposed x ≡ true)
      × (posture ≡ applicable)
      × (any blocks_scope gaps ≡ false)
unfolding derive_urgency_posture
derive_emergency posture v s x exploited patch c gaps h = ground arith

derive_applicable :
    (advisory : Advisory) (asset : Asset) (v : VersionStatus) (p : ProductStatus) (s : FeatureState)
    (a c : Bool) (gaps : List Gap)
    → derive_applicability_posture advisory asset v p s a c gaps ≡ applicable
    → (is_affected v ≡ true) × (is_live s ≡ true) × (asset.not_in_estate ≡ false)
unfolding derive_applicability_posture
derive_applicable advisory asset v p s a c gaps h = ground arith

-- A monitor posture is given exactly where the advisory does not apply: the condition on the
-- reviewed configuration adds nothing to that.
derive_monitor :
    (posture : ApplicabilityPosture) (v : VersionStatus) (s : FeatureState) (x : ExposureStatus)
    (exploited patch c : Bool) (gaps : List Gap)
    → (posture ≡ not_applicable → c ≡ true)
    → (derive_urgency_posture posture v s x exploited patch c gaps ≡ monitor)
      ↔ (posture ≡ not_applicable)
unfolding derive_urgency_posture
derive_monitor posture v s x exploited patch c gaps k = ground arith

evidence-gaps : (cs : List Check) → length (evidence_of cs) ≡ length (gaps_of cs)
evidence-gaps [] = refl
evidence-gaps (c ∷ cs) = ground (arith, evidence-gaps cs)

-- The posture of an emergency patch is given only to a vulnerability that is known to be exploited,
-- on an asset of the estate that is exposed and runs an affected version, whose affected feature is
-- enabled or not specified, where there is a patch, and with no gap on the asset, the version or
-- the state of the feature.
pub emergency-IsGrounded :
    (i : Input)
    → (assess_config_applicability i).urgency_posture ≡ emergency_patch_required
    → (is_exploited i ≡ true)
      × (has_patch i ≡ true)
      × (i.asset.not_in_estate ≡ false)
      × (is_exposed (assess_config_applicability i).exposure_status ≡ true)
      × (is_affected (assess_config_applicability i).affected_version_status ≡ true)
      × (is_live (assess_config_applicability i).feature_enabled_status ≡ true)
      × (any blocks_scope (assess_config_applicability i).evidence_gaps ≡ false)
unfolding assess_config_applicability
emergency-IsGrounded i h =
    let (exploited, patch, exposed, posture, clear) = derive_emergency _ _ _ _ _ _ _ _ h in
    let (version, live, owned) = derive_applicable i.advisory i.asset _ _ _ _ _ _ posture in
    (exploited, patch, owned, exposed, version, live, clear)

evidence-not_applicable :
    (i : Input)
    → (assess_config_applicability i).applicability_posture ≡ not_applicable
    → config_evidence_of i.asset ≡ true
unfolding assess_config_applicability
evidence-not_applicable i h =
    evidence_of_either i.asset (derive_not_applicable i.advisory i.asset _ _ _ _ _ _ h).1

-- An assessment says to monitor exactly where it says that the advisory does not apply: the further
-- condition of the code, on the reviewed configuration, then holds already.
pub monitor_iff :
    (i : Input)
    → ((assess_config_applicability i).urgency_posture ≡ monitor)
      ↔ ((assess_config_applicability i).applicability_posture ≡ not_applicable)
unfolding assess_config_applicability
monitor_iff i = derive_monitor _ _ _ _ _ _ _ _ (evidence-not_applicable i)

gaps_of-none :
    (cs : List Check) → any (λ _. true) (gaps_of cs) ≡ false → All (λ c. c.found ≡ false) cs
gaps_of-none [] h = tt
gaps_of-none (c ∷ cs) h = elim (Bool-cases c.found) [
  | inl e ↦ cc
  | inr e ↦ (e, gaps_of-none cs (rw e at h))
]

gap_checks-clear :
    (advisory : Advisory) (asset : Asset) (f : Option Text) (v : VersionStatus) (p : ProductStatus)
    (s : FeatureState) (x : ExposureStatus)
    → any (λ _. true) (gaps_of (gap_checks advisory asset f v p s x)) ≡ false
    → (is_unidentified asset ≡ false)
      × (is_unmatched p ≡ false)
      × (is_uncertain v ≡ false)
      × ((is_some f && is_disabled_unreviewed s) ≡ false)
      × ((is_some f && is_unknown_feature s) ≡ false)
      × (is_unknown_exposure x ≡ false)
      × (source_unreviewed advisory ≡ false)
      × (supersedence_unreviewed advisory ≡ false)
unfolding gap_checks
gap_checks-clear advisory asset f v p s x h =
    let (a, (b, (c, (k, (l, (d, (e, (g, _)))))))) =
      gaps_of-none (gap_checks advisory asset f v p s x) h in
    (a, b, c, k, l, d, e, g)

split_ready :
    (p : ApplicabilityPosture) (b : Bool)
    → (is_not_applicable p && not b) ≡ true
    → (p ≡ not_applicable) × (b ≡ false)
split_ready p b h = ground arith

ready-no_gaps :
    (i : Input)
    → (assess_config_applicability i).ready_to_recommend ≡ true
    → ((assess_config_applicability i).applicability_posture ≡ not_applicable)
      × (any (λ _. true) (assess_config_applicability i).evidence_gaps ≡ false)
unfolding assess_config_applicability
ready-no_gaps i h = split_ready _ _ h

-- An assessment that may be recommended as not applicable is complete: the asset is identified and
-- its evidence reviewed, the product is matched or reviewed, version and exposure are settled, the
-- feature that the advisory names, if any, is neither unknown nor disabled without a review, and the
-- advisory is reviewed, its supersedence too where it has one.
pub ready-IsComplete :
    (i : Input)
    → (assess_config_applicability i).ready_to_recommend ≡ true
    → (reviewed_asset_evidence i.asset ≡ true)
      × (is_unidentified i.asset ≡ false)
      × (is_unmatched (product_match_status i.advisory i.asset) ≡ false)
      × (is_uncertain (affected_version_status i.advisory i.asset) ≡ false)
      × ((is_some (feature_of i.advisory)
            && is_disabled_unreviewed (feature_enabled_status i.asset (feature_of i.advisory)))
          ≡ false)
      × ((is_some (feature_of i.advisory)
            && is_unknown_feature (feature_enabled_status i.asset (feature_of i.advisory)))
          ≡ false)
      × (is_unknown_exposure (exposure_status_for i.asset) ≡ false)
      × (source_unreviewed i.advisory ≡ false)
      × (supersedence_unreviewed i.advisory ≡ false)
unfolding assess_config_applicability
ready-IsComplete i h =
    let (posture, none_left) = ready-no_gaps i h in
    let reviewed = config_evidence-IsReviewed i.asset (evidence-not_applicable i posture) in
    let (a, b, c, k, l, d, e, g) = gap_checks-clear i.advisory i.asset _ _ _ _ _ none_left in
    (reviewed, a, b, c, k, l, d, e, g)
