-- ===== src/Applicability.antt =====
-- Configuration applicability (backend-api/patchforge/configApplicability.js): the advisory and the
-- asset that are compared. A text is the list of its code points, and a text that is absent is
-- empty; a value of another type stands as the text that `String` gives of it.
pub mod Terms
pub mod Versions
pub mod Status
pub mod Gaps
pub mod Posture
use diiac_patchforge.Prelude.{ℕ, Bool, List, Option}

abbrev pub Text : Type 0
Text = List ℕ

-- What `list` takes apart: nothing, a text with commas, or an array of such values.
mutual
  pub data Field : Type 0 where
    absent : Field
    text : Text → Field
    many : Fields → Field

  pub data Fields : Type 0 where
    nothing : Fields
    also : Field → Fields → Fields

pub record Advisory : Type 0 where
  pub advisory_id : Text
  pub cve : Text
  pub vendor_id : Field
  pub product_id : Field
  pub product_family : Field
  pub affected_products : Field
  pub affected_models : Field
  pub affected_versions : Field
  pub fixed_versions : Field
  pub affected_feature : Field
  pub affected_features : Field
  pub feature : Field
  pub known_exploited : Bool
  pub kev : Bool
  pub patch_available : Bool
  pub review_state : Text
  pub evidence_state : Text
  pub superseded : Bool
  pub supersedence_review_state : Text
  pub superseded_review_state : Text

pub record Asset : Type 0 where
  pub asset_id : Field
  pub vendor_id : Field
  pub product_family : Field
  pub model : Field
  pub product_id : Field
  pub firmware_version : Text
  pub software_version : Text
  pub review_state : Text
  pub evidence_state : Text
  pub not_in_estate : Bool
  pub internet_facing : Option Bool
  pub management_exposure : Text
  pub exposure : Text
  pub enabled_features : Field
  pub disabled_features : Field
  pub config_evidence_refs : Field
