-- ===== src/Applicability/Status.antt =====
-- What configApplicability.js reads off an advisory and an asset: the state of the review, and the
-- statuses of version, product, feature and exposure.
use diiac_patchforge.Prelude.{
  Bool, true, false, not, ◌&&◌, ◌||◌, Option, none, some, List, [], ◌∷◌, ◌++◌, if◌then◌else◌, all,
  any,
}
use diiac_patchforge.Prelude.Texts.{is_word, trim, contains, text_eq}
use diiac_patchforge.Applicability.{Text, text, Advisory, Asset}
use diiac_patchforge.Applicability.Terms.{
  is_empty, list, normalize, includes, product_alias_groups, feature_alias_groups,
  expand_alias_terms,
}
use diiac_patchforge.Applicability.Versions.{is_less, version_compare, version_satisfies_any}

pub data VersionStatus : Type 0 where
  unknown_version affected fixed_version_reviewed fixed_version_pending_review not_affected
        not_listed_pending_review :
      VersionStatus

pub data ProductStatus : Type 0 where
  unknown_product matched unmatched_reviewed unmatched_pending_review : ProductStatus

pub data FeatureState : Type 0 where
  not_specified enabled disabled_reviewed disabled_unreviewed unknown_feature : FeatureState

pub data ExposureStatus : Type 0 where
  internet_or_management_exposed not_internet_exposed_reviewed not_internet_exposed_pending_review
        unknown_exposure :
      ExposureStatus

-- `a || b` on texts
abbrev pub or_text : Text → Text → Text
or_text [] t = t
or_text (c ∷ s) t = c ∷ s

unfoldable pub is_reviewed : Text → Bool
is_reviewed value = is_word (normalize value) ("reviewed" ∷ "accepted" ∷ "approved" ∷ [])

unfoldable pub is_positive_evidence : Text → Bool
is_positive_evidence value =
    is_word (normalize value) ("accepted_positive_evidence" ∷ "reviewed" ∷ "attached" ∷ [])

unfoldable pub has_reviewed_config_evidence : Asset → Bool
has_reviewed_config_evidence asset =
    is_reviewed asset.review_state
    && is_positive_evidence asset.evidence_state
    && any (λ _. true) (list asset.config_evidence_refs)

unfoldable pub reviewed_asset_evidence : Asset → Bool
reviewed_asset_evidence asset =
    is_reviewed asset.review_state && is_positive_evidence asset.evidence_state

-- the version that an asset runs
abbrev pub running_version : Asset → Text
running_version asset = trim (or_text asset.firmware_version asset.software_version)

abbrev pub is_at_least : Text → Text → Bool
is_at_least version fixed = not (is_less (version_compare version fixed))

abbrev pub is_below : Text → Text → Bool
is_below version fixed = is_less (version_compare version fixed)

-- affectedVersionStatus, of a version that is not empty
abbrev pub status_of_version : Text → List Text → List Text → Bool → VersionStatus
status_of_version version affected_versions fixed reviewed =
    if any (is_at_least version) fixed
    then if reviewed then fixed_version_reviewed else fixed_version_pending_review
    else if any (λ _. true) fixed && all (is_below version) fixed
    then affected
    else if not (any (λ _. true) affected_versions)
    then unknown_version
    else if version_satisfies_any version affected_versions
    then affected
    else if reviewed
    then not_affected
    else not_listed_pending_review

unfoldable pub affected_version_status : Advisory → Asset → VersionStatus
affected_version_status advisory asset =
    if is_empty (running_version asset)
    then unknown_version
    else status_of_version (running_version asset) (list advisory.affected_versions)
        (list advisory.fixed_versions) (reviewed_asset_evidence asset)

abbrev pub terms_match : List Text → List Text → Bool
terms_match asset_terms advisory_terms =
    any (λ a. any (λ term. text_eq term a || contains term a || contains a term) advisory_terms)
      asset_terms

unfoldable pub product_match_status : Advisory → Asset → ProductStatus
product_match_status advisory asset =
    let asset_terms =
      expand_alias_terms
        (list asset.vendor_id
          ++ list asset.product_family
          ++ list asset.model
          ++ list asset.product_id)
        product_alias_groups in
    let advisory_terms =
      expand_alias_terms
        (list advisory.vendor_id
          ++ list advisory.product_id
          ++ list advisory.product_family
          ++ list advisory.affected_products
          ++ list advisory.affected_models)
        product_alias_groups in
    if not (any (λ _. true) asset_terms) || not (any (λ _. true) advisory_terms)
    then unknown_product
    else if terms_match asset_terms advisory_terms
    then matched
    else if is_reviewed asset.review_state
    then unmatched_reviewed
    else unmatched_pending_review

-- featureEnabledStatus, of a feature that is given
abbrev pub state_of_feature : Asset → Text → FeatureState
state_of_feature asset feature =
    let terms = expand_alias_terms (list (text feature)) feature_alias_groups in
    if any (includes (expand_alias_terms (list asset.enabled_features) feature_alias_groups)) terms
    then enabled
    else if any (includes (expand_alias_terms (list asset.disabled_features) feature_alias_groups))
        terms
    then if has_reviewed_config_evidence asset then disabled_reviewed else disabled_unreviewed
    else unknown_feature

unfoldable pub feature_enabled_status : Asset → Option Text → FeatureState
feature_enabled_status asset none = not_specified
feature_enabled_status asset (some feature) = state_of_feature asset feature

-- `internet_facing === b`
abbrev pub is_facing : Bool → Option Bool → Bool
is_facing b none = false
is_facing true (some faces) = faces
is_facing false (some faces) = not faces

unfoldable pub exposure_status_for : Asset → ExposureStatus
exposure_status_for asset =
    let management = normalize (or_text asset.management_exposure asset.exposure) in
    if is_facing true asset.internet_facing
      || is_word management
          ("internet" ∷ "internet_facing" ∷ "public" ∷ "public_management" ∷ "external" ∷ [])
    then internet_or_management_exposed
    else if is_facing false asset.internet_facing
        || is_word management ("internal" ∷ "private" ∷ "none" ∷ [])
    then if is_reviewed asset.review_state
      then not_internet_exposed_reviewed
      else not_internet_exposed_pending_review
    else unknown_exposure
