-- ===== src/Cleanup/Execute.antt =====
-- `cleanupUatRecords` of backend-api/patchforge/storage.js: the preview, its checks, and the removal.
use Prim.Native.String.{◌++◌ as str_append}
use diiac_patchforge.Prelude.{
  ℕ, ◌+◌, ◌-◌, ◌*◌, Bool, true, false, not, ◌&&◌, ◌||◌, Option, none, some, String, List, [], ◌∷◌,
  str_eq, ◌==◌, leb, if◌then◌else◌, keep, all, find, length,
}
use diiac_patchforge.Prelude.Texts.{codes, member, str_take}
use diiac_patchforge.Store.{Keyed, list_for, append_record, replace}
use diiac_patchforge.Cleanup.{Rec, PreviewStatus, pending, consumed, Preview, Files, write, audit}
use diiac_patchforge.Cleanup.Plan.{CleanupOptions, CleanupPlan, plan_of, plan_error, is_selected}

instance abbrev pub preview_keyed : Keyed Preview
preview_keyed = record { tenant_of = λ p. p.tenant_id; id_of = λ p. p.preview_id }

pub data Cleaned : Type 0 where
  refused : String → Cleaned
  previewed : CleanupPlan → Preview → Cleaned
  blocked : CleanupPlan → Cleaned
  done : CleanupPlan → Preview → ℕ → Cleaned

-- the random texts of a call: the token of a preview, and the identifier of an audit event
pub record Fresh : Type 0 where
  pub token : String
  pub audit_id : String

abbrev pub is_pending : PreviewStatus → Bool
is_pending pending = true
is_pending consumed = false

abbrev is_token_code : ℕ → Bool
is_token_code c =
    (leb b'0' c && leb c b'9')
    || (leb b'a' c && leb c b'f')
    || (leb b'A' c && leb c b'F')
    || c == b'-'

-- `/^[0-9a-f-]{36}$/i`
unfoldable pub is_token : String → Bool
is_token s = length (codes s) == 36 && all is_token_code (codes s)

-- the records of a collection that a plan leaves
unfoldable pub retained : String → String → List String → List Rec → List Rec
retained tenant identifier ids recs =
    keep (λ r. not (is_selected tenant identifier r && member r.record_id ids)) recs

-- the loop over the collections of the plan: the files, and the number of records removed
unfoldable pub remove :
    String
    → String
    → List (String × List String)
    → (String → List Rec) × ℕ
    → (String → List Rec) × ℕ
remove tenant identifier [] s = s
remove tenant identifier ((name, ids) ∷ rest) (files, removed) =
    let left = retained tenant identifier ids (files name) in
    remove tenant identifier rest
      (write name left files, removed + (length (files name) - length left))

unfoldable pub is_preview : String → String → Preview → Bool
is_preview tenant id p = str_eq p.tenant_id tenant && str_eq p.preview_id id

unfoldable pub consume : Preview → Preview
consume p = record p { status = consumed }

-- `hash` is the SHA-256 digest of a text, and `digest` that of the JSON of a plan's tenant, identifier,
-- record identifiers and total.
module _ (hash : String → String) (digest : CleanupPlan → String) where
  unfoldable pub preview_of : CleanupPlan → String → ℕ → Preview
  preview_of plan token now = record {
    tenant_id = plan.tenant_id;
    preview_id =
        str_append "PF-UAT-PREVIEW-"
          (str_take 24 (hash (str_append plan.tenant_id (str_append "\0" plan.identifier))));
    identifier = plan.identifier;
    preview_token_sha256 = hash token;
    preview_digest = digest plan;
    status = pending;
    expires_at = now + 15 * 60 * 1000;
  }

  -- validateUatCleanupPreviewRecord and assertUatCleanupPreviewMatches: the code of the error, if any
  unfoldable pub preview_error : Preview → CleanupPlan → ℕ → Option String
  preview_error p plan now =
      if not (str_eq p.tenant_id plan.tenant_id) || not (str_eq p.identifier plan.identifier)
      then some "uat_cleanup_preview_invalid"
      else if not (is_pending p.status)
      then some "uat_cleanup_preview_consumed"
      else if leb p.expires_at now
      then some "uat_cleanup_preview_expired"
      else if not (str_eq p.preview_digest (digest plan))
      then some "uat_cleanup_preview_drift"
      else none

  abbrev pub removed_by : CleanupPlan → Files → (String → List Rec) × ℕ
  removed_by plan f = remove plan.tenant_id plan.identifier plan.record_ids (f.records, 0)

  unfoldable pub perform : CleanupPlan → Preview → Fresh → Files → Cleaned × Files
  perform plan p fresh f = (
    done plan p (removed_by plan f).1,
    record {
      records =
          audit plan.tenant_id fresh.audit_id "patchforge_uat_cleanup_completed"
            (removed_by plan f).0;
      previews = (replace (is_preview plan.tenant_id p.preview_id) consume f.previews).0;
    },
  )

  abbrev pub checked : CleanupPlan → Preview → Fresh → Files → Option String → Cleaned × Files
  checked plan p fresh f (some code) = (refused code, f)
  checked plan p fresh f none = perform plan p fresh f

  -- requireUatCleanupPreview, and the removal behind it
  abbrev pub with_preview : CleanupPlan → Fresh → ℕ → Files → Option Preview → Cleaned × Files
  with_preview plan fresh now f none = (refused "uat_cleanup_preview_invalid", f)
  with_preview plan fresh now f (some p) = checked plan p fresh f (preview_error p plan now)

  abbrev pub issue : CleanupPlan → Fresh → ℕ → Files → Cleaned × Files
  issue plan fresh now f =
      let p = preview_of plan fresh.token now in
      (previewed plan p, record f { previews = append_record p f.previews })

  unfoldable pub find_preview : String → String → Files → Option Preview
  find_preview tenant token f =
      find (λ p. str_eq p.preview_token_sha256 (hash token)) (list_for tenant f.previews)

  abbrev pub execute_plan : CleanupPlan → CleanupOptions → Fresh → ℕ → Files → Cleaned × Files
  execute_plan plan o fresh now f =
      if plan.dry_run
      then issue plan fresh now f
      else if not (str_eq o.confirm plan.identifier)
      then (blocked plan, f)
      else if not (is_token o.preview_token)
      then (refused "uat_cleanup_preview_required", f)
      else with_preview plan fresh now f (find_preview plan.tenant_id o.preview_token f)

  abbrev pub unless_error :
      Option String → CleanupPlan → CleanupOptions → Fresh → ℕ → Files → Cleaned × Files
  unless_error (some code) plan o fresh now f = (refused code, f)
  unless_error none plan o fresh now f = execute_plan plan o fresh now f

  -- cleanupUatRecords
  unfoldable pub cleanup_uat_records : String → CleanupOptions → Fresh → ℕ → Files → Cleaned × Files
  cleanup_uat_records tenant o fresh now f =
      unless_error (plan_error tenant o f) (plan_of tenant o f) o fresh now f
