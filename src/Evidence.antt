-- ===== src/Evidence.antt =====
-- Finding evidence and its review events (backend-api/patchforge/evidenceReview.js): the records, the
-- payloads that are hashed, and the roles that may review. Instants are milliseconds.
pub mod Replay
pub mod Actions
pub mod Projection
use diiac_patchforge.Prelude.{
  ℕ, Bool, true, false, not, ◌&&◌, ◌||◌, Option, none, some, String, List, [], ◌∷◌, str_eq,
  if◌then◌else◌, leb, ◌==◌, keep, map,
}
use diiac_patchforge.Prelude.Texts.{codes, text_eq, member, trim, lower, is_word}
use diiac_patchforge.Automation.{Lineage}

-- An expiry: none, an ISO text of an instant as the server writes it, or a text that is no date.
pub data Expiry : Type 0 where
  never : Expiry
  date : ℕ → Expiry
  unreadable : String → Expiry

-- A submitted record. `evidence` is the canonical JSON of the payload; an absent text is empty.
pub record Evidence : Type 0 where
  pub tenant_id : String
  pub evidence_id : String
  pub vulnerability_id : String
  pub canonical_id : String
  pub evidence_class : String
  pub summary : String
  pub evidence : String
  pub source_refs : List String
  pub submitted_source_type : String
  pub finding_revision_hash : String
  pub expires_at : Expiry
  pub content_hash : String
  pub server_owned : Bool
  pub immutable : Bool

-- The finding that evidence is about; `content` is its canonical JSON.
pub record Finding : Type 0 where
  pub vulnerability_id : String
  pub content_hash : String
  pub content : String

pub data EventType : Type 0 where
  review reopen other_type : EventType

pub data Decision : Type 0 where
  accepted rejected reopened other_decision : Decision

-- An event. The empty previous hash is `null`; the rationale is trimmed, as a list of character codes.
pub record Event : Type 0 where
  pub tenant_id : String
  pub evidence_event_id : String
  pub evidence_id : String
  pub vulnerability_id : String
  pub canonical_id : String
  pub evidence_class : String
  pub evidence_content_hash : String
  pub finding_revision_hash : String
  pub previous_event_hash : String
  pub event_type : EventType
  pub decision : Decision
  pub rationale : List ℕ
  pub actor_oid : String
  pub actor_upn : String
  pub actor_roles : List String
  pub lineage : Lineage
  pub expires_at : Expiry
  pub created_at : ℕ
  pub server_owned : Bool
  pub immutable : Bool
  pub event_hash : String

-- Each form of value that the code hashes, before its canonical JSON is taken.
pub record EventPayload : Type 0 where
  pub event_tenant : String
  pub event_id : String
  pub of_evidence : String
  pub of_vulnerability : String
  pub of_canonical : String
  pub of_class : String
  pub of_content : String
  pub of_revision : String
  pub previous : String
  pub of_type : EventType
  pub decided : Decision
  pub because : List ℕ
  pub by_oid : String
  pub by_upn : String
  pub by_roles : List String
  pub by_tenant : Option String
  pub effective_tenant : Option String
  pub requested_tenant : Option String
  pub tenant_source : Option String
  pub override_ignored : Bool
  pub expiring : Expiry
  pub at : ℕ

pub record SubmissionPayload : Type 0 where
  pub in_tenant : String
  pub submission_id : String
  pub about : String
  pub about_canonical : String
  pub submitted_class : String
  pub submitted_summary : String
  pub submitted_evidence : String
  pub submitted_refs : List (List ℕ)
  pub source_type : String
  pub revision : String
  pub expiry : Expiry

pub data Payload : Type 0 where
  submission : SubmissionPayload → Payload
  event : EventPayload → Payload
  event_key : String → String → String → Payload
  finding : String → Payload

-- `value || fallback` on texts
abbrev pub text_or : String → String → String
text_or s d = if str_eq s "" then d else s

abbrev pub expiry_eq : Expiry → Expiry → Bool
expiry_eq never never = true
expiry_eq (date a) (date b) = a == b
expiry_eq (unreadable a) (unreadable b) = str_eq a b
expiry_eq _ _ = false

-- isExpired
unfoldable pub is_expired : Expiry → ℕ → Bool
is_expired never now = false
is_expired (date t) now = leb t now
is_expired (unreadable s) now = true

abbrev pub is_nil {ℓ} : {A : Type ℓ} → List A → Bool
is_nil [] = true
is_nil (_ ∷ _) = false

-- normalizeId
unfoldable pub normalize_id : String → List ℕ
normalize_id s = lower (trim (codes s))

-- sameId
unfoldable pub same_id : String → String → Bool
unfolding normalize_id
same_id l r = not (is_nil (normalize_id l)) && text_eq (normalize_id l) (normalize_id r)

-- `[...new Set(xs)]`
unfoldable pub distinct_from : List String → List String → List String
distinct_from seen [] = []
distinct_from seen (x ∷ xs) =
    let rest = distinct_from (x ∷ seen) xs in
    let same = distinct_from seen xs in if member x seen then same else x ∷ rest

unfoldable pub distinct : List String → List String
distinct xs = distinct_from [] xs

-- the order of `sort`, on character codes
unfoldable pub codes_le : List ℕ → List ℕ → Bool
codes_le [] ys = true
codes_le (x ∷ xs) [] = false
codes_le (x ∷ xs) (y ∷ ys) = if x == y then codes_le xs ys else leb x y

unfoldable pub insert_sorted : String → List String → List String
unfolding codes_le
insert_sorted s [] = s ∷ []
insert_sorted s (t ∷ ts) =
    let rest = insert_sorted s ts in if codes_le (codes s) (codes t) then s ∷ t ∷ ts else t ∷ rest

-- sort()
unfoldable pub sorted : List String → List String
unfolding insert_sorted
sorted [] = []
sorted (s ∷ ss) = insert_sorted s (sorted ss)

abbrev has_codes : List ℕ → List (List ℕ) → Bool
has_codes s [] = false
has_codes s (t ∷ ts) = text_eq s t || has_codes s ts

-- `[...new Set(xs)]` on character codes
unfoldable pub distinct_codes : List (List ℕ) → List (List ℕ) → List (List ℕ)
distinct_codes seen [] = []
distinct_codes seen (x ∷ xs) =
    let rest = distinct_codes (x ∷ seen) xs in
    let same = distinct_codes seen xs in if has_codes x seen then same else x ∷ rest

-- stringList
unfoldable pub string_list : List String → List (List ℕ)
unfolding distinct_codes
string_list xs = distinct_codes [] (keep (λ s. not (is_nil s)) (map (λ s. trim (codes s)) xs))

abbrev pub general_review_roles : List String
general_review_roles = "PatchForge.SecurityLead" ∷ "PatchForge.Admin" ∷ []

abbrev pub service_review_roles : List String
service_review_roles =
    "PatchForge.ServiceOwner" ∷ "PatchForge.SecurityLead" ∷ "PatchForge.Admin" ∷ []

abbrev pub risk_review_roles : List String
risk_review_roles = "PatchForge.RiskOwner" ∷ "PatchForge.Admin" ∷ []

abbrev pub final_signoff_roles : List String
final_signoff_roles = "PatchForge.CABApprover" ∷ "PatchForge.Admin" ∷ []

abbrev pub service_evidence_classes : List String
service_evidence_classes =
    "affected_asset_scope" ∷ "affected_service_scope" ∷ "business_service_impact"
    ∷ "patch_feasibility" ∷ "test_evidence" ∷ "rollback_plan" ∷ "change_window" ∷ "customer_impact"
    ∷ "post_patch_validation" ∷ "maintenance_window" ∷ "vendor_support" ∷ []

abbrev pub risk_evidence_classes : List String
risk_evidence_classes =
    "risk_acceptance" ∷ "compensating_controls" ∷ "owner" ∷ "expiry_date" ∷ "rationale" ∷ []

-- rolesForEvidenceClass
unfoldable pub roles_for_evidence_class : String → List String
roles_for_evidence_class c =
    if str_eq c "human_review_signoff"
    then final_signoff_roles
    else if member c risk_evidence_classes
    then risk_review_roles
    else if member c service_evidence_classes
    then service_review_roles
    else general_review_roles

-- submissionPayload
unfoldable pub submission_payload : Evidence → SubmissionPayload
unfolding string_list
submission_payload r = record {
  in_tenant = r.tenant_id;
  submission_id = r.evidence_id;
  about = r.vulnerability_id;
  about_canonical = text_or r.canonical_id r.vulnerability_id;
  submitted_class = r.evidence_class;
  submitted_summary = r.summary;
  submitted_evidence = r.evidence;
  submitted_refs = string_list r.source_refs;
  source_type = text_or r.submitted_source_type "human_evidence_submission";
  revision = r.finding_revision_hash;
  expiry = r.expires_at;
}

-- eventPayload
unfoldable pub event_payload : Event → EventPayload
unfolding sorted
event_payload e = record {
  event_tenant = e.tenant_id;
  event_id = e.evidence_event_id;
  of_evidence = e.evidence_id;
  of_vulnerability = e.vulnerability_id;
  of_canonical = e.canonical_id;
  of_class = e.evidence_class;
  of_content = e.evidence_content_hash;
  of_revision = e.finding_revision_hash;
  previous = e.previous_event_hash;
  of_type = e.event_type;
  decided = e.decision;
  because = e.rationale;
  by_oid = e.actor_oid;
  by_upn = e.actor_upn;
  by_roles = sorted e.actor_roles;
  by_tenant = e.lineage.actor_tenant_id;
  effective_tenant = e.lineage.effective_tenant_id;
  requested_tenant = e.lineage.requested_tenant_id;
  tenant_source = e.lineage.tenant_id_source;
  override_ignored = e.lineage.tenant_override_ignored;
  expiring = e.expires_at;
  at = e.created_at;
}
