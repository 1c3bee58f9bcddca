-- ===== src/Outbound/Laws.antt =====
-- What the approval of a URL means (backend-api/patchforge/outboundFetch.js).
use diiac_patchforge.Prelude.{
  ℕ, ◌≡◌, refl, inl, inr, arith, eq_iff, Bool, true, false, not, ◌&&◌, Option, none, some, List, [],
  ◌∷◌, str_eq, ◌==◌, any, All, first_of, first_of-none, Bool-cases, Option-cases,
}
use diiac_patchforge.Outbound.{
  Url, DnsRecord, DnsAnswer, dns_timeout, dns_failed, answers, Approved, Verdict, denied, approved,
  normalize_hostname, normalize_answers, has_host, is_local_host, url_guards, approve_addresses,
  approve_answer, approve_parsed,
}
use diiac_patchforge.Outbound.Address.{is_disallowed_address}

-- What a request may be sent to.
pub record IsApproved (is_ip : List ℕ → ℕ) (allowlist : List (List ℕ)) (a : Approved) : Type 0 where
  pub is_https : a.url.protocol ≡ "https:"
  pub has_no_userinfo : (str_eq a.url.username "" && str_eq a.url.password "") ≡ true
  pub is_not_local : is_local_host a.host ≡ false
  pub is_not_address : (is_ip a.host == 0) ≡ true
  pub is_allowed : has_host a.host allowlist ≡ true
  pub is_public : any (λ x. is_disallowed_address is_ip x.address) a.addresses ≡ false
  pub is_own_host : a.host ≡ normalize_hostname a.url.hostname

not-false : {b : Bool} → not b ≡ false → b ≡ true
not-false {b} h = ground arith

abbrev pub VerdictHolds : (Approved → Type 0) → Verdict → Type 0
VerdictHolds P (denied code) = Unit
VerdictHolds P (approved a) = P a

module _ (is_ip : List ℕ → ℕ) (allowlist : List (List ℕ)) where
  addresses-IsApproved :
      (u : Url) (records : List DnsRecord)
      → All (λ g. g.0 ≡ false) (url_guards is_ip allowlist u)
      → VerdictHolds
          (λ a. IsApproved is_ip allowlist a × (a.url ≡ u))
          (approve_addresses is_ip u records)
  unfolding approve_addresses url_guards
  addresses-IsApproved u [] h = tt
  addresses-IsApproved u (x ∷ xs) h =
      elim (Bool-cases (any (λ y. is_disallowed_address is_ip y.address) (x ∷ xs))) [
        | inl bad ↦ rw bad tt
        | inr good ↦ rw good (
          record {
            is_https = ground (arith, eq_iff u.protocol "https:");
            has_no_userinfo = not-false h.1.0;
            is_not_local = h.1.1.0;
            is_not_address = not-false h.1.1.1.0;
            is_allowed = not-false h.1.1.1.1.0;
            is_public = good;
            is_own_host = refl;
          },
          refl,
        )
      ]

  answer-IsApproved :
      (u : Url) (d : DnsAnswer)
      → All (λ g. g.0 ≡ false) (url_guards is_ip allowlist u)
      → VerdictHolds (λ a. IsApproved is_ip allowlist a × (a.url ≡ u)) (approve_answer is_ip u d)
  unfolding approve_answer
  answer-IsApproved u dns_timeout h = tt
  answer-IsApproved u dns_failed h = tt
  answer-IsApproved u (answers records) h = addresses-IsApproved u (normalize_answers records) h

  renamed :
      (u : Url) (d : Verdict)
      → VerdictHolds (λ a. IsApproved is_ip allowlist a × (a.url ≡ u)) d
      → VerdictHolds (λ a. IsApproved is_ip allowlist a × (some u ≡ some a.url)) d
  renamed u (denied code) h = tt
  renamed u (approved a) h = (h.0, rw h.1 refl)

  -- What is approved may be sent to, and is the URL that was parsed.
  pub approve_parsed-IsApproved :
      (resolve : List ℕ → DnsAnswer) (o : Option Url)
      → VerdictHolds
          (λ a. IsApproved is_ip allowlist a × (o ≡ some a.url))
          (approve_parsed is_ip allowlist resolve o)
  unfolding approve_parsed
  approve_parsed-IsApproved resolve none = tt
  approve_parsed-IsApproved resolve (some u) =
      elim (Option-cases (first_of (url_guards is_ip allowlist u))) [
        | inr (code, e) ↦ rw e tt
        | inl e ↦ rw e (
            renamed u _
              (answer-IsApproved u (resolve (normalize_hostname u.hostname)) (first_of-none _ e)))
      ]
