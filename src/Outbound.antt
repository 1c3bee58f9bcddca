-- ===== src/Outbound.antt =====
-- The guard on outbound requests (backend-api/patchforge/outboundFetch.js): host names, addresses and
-- the approval of a URL. Parsed URLs, answers of DNS and `net.isIP` come from outside.
pub mod Address
pub mod Laws
pub mod Fetch
use diiac_patchforge.Prelude.{
  ℕ, suc, Bool, true, false, not, ◌&&◌, ◌||◌, Option, none, some, String, List, [], ◌∷◌, ◌++◌,
  str_eq, if◌then◌else◌, ◌==◌, any, keep, map, first_of,
}
use mathlib.Core.List.{reverse}
use diiac_patchforge.Prelude.Texts.{codes, text_eq, trim, lower}
use Address.{is_disallowed_address, starts_with}

-- What `new URL` gives.
pub record Url : Type 0 where
  pub protocol : String
  pub username : String
  pub password : String
  pub hostname : String
  pub origin : String
  pub href : String

-- One answer of DNS, with its family (4, 6, or another number).
pub record DnsRecord : Type 0 where
  pub address : String
  pub family : ℕ

pub data DnsAnswer : Type 0 where
  dns_timeout dns_failed : DnsAnswer
  answers : List DnsRecord → DnsAnswer

pub record Approved : Type 0 where
  pub url : Url
  pub host : List ℕ
  pub addresses : List DnsRecord

pub data Verdict : Type 0 where
  denied : String → Verdict
  approved : Approved → Verdict

abbrev drop_dot : List ℕ → List ℕ
drop_dot [] = []
drop_dot (c ∷ s) = if c == b'.' then s else c ∷ s

abbrev drop_open : List ℕ → List ℕ
drop_open [] = []
drop_open (c ∷ s) = if c == b'[' then s else c ∷ s

abbrev drop_close : List ℕ → List ℕ
drop_close [] = []
drop_close (c ∷ s) = if c == b']' then s else c ∷ s

-- normalizeHostname
unfoldable pub normalize_hostname : String → List ℕ
normalize_hostname value =
    let undotted = drop_dot (reverse (lower (trim (codes value)))) in
    reverse (drop_close (reverse (drop_open (reverse undotted))))

abbrev pub ends_with : List ℕ → String → Bool
ends_with s ending = starts_with (reverse s) (reverse (codes ending))

abbrev pub default_allowed_hosts : List String
default_allowed_hosts =
    "api.first.org" ∷ "developer.cisco.com" ∷ "forums.ivanti.com" ∷ "msrc.microsoft.com"
    ∷ "sec.cloudapps.cisco.com" ∷ "security.paloaltonetworks.com" ∷ "services.nvd.nist.gov"
    ∷ "support.apple.com" ∷ "support.broadcom.com" ∷ "support.citrix.com"
    ∷ "supportportal.juniper.net" ∷ "www.cisa.gov" ∷ "www.fortiguard.com" ∷ "www.ncsc.gov.uk" ∷ []

abbrev is_text : List ℕ → Bool
is_text [] = false
is_text (_ ∷ _) = true

-- outboundSourceAllowlist, with the configured list split at its commas
unfoldable pub source_allowlist : List String → List String → List (List ℕ)
unfolding normalize_hostname
source_allowlist configured extra =
    keep is_text (map normalize_hostname (default_allowed_hosts ++ (configured ++ extra)))

abbrev pub has_host : List ℕ → List (List ℕ) → Bool
has_host host hosts = any (λ h. text_eq host h) hosts

unfoldable pub is_local_host : List ℕ → Bool
is_local_host host =
    not (is_text host)
    || text_eq host (codes "localhost")
    || ends_with host ".localhost"
    || ends_with host ".local"
    || ends_with host ".internal"
    || text_eq host (codes "metadata.google.internal")

abbrev is_usable : DnsRecord → Bool
is_usable a = not (str_eq a.address "") && (a.family == 4 || a.family == 6)

-- a later answer for an address takes the place of the earlier one
unfoldable pub put_answer : DnsRecord → List DnsRecord → List DnsRecord
put_answer a [] = a ∷ []
put_answer a (b ∷ bs) =
    let rest = put_answer a bs in if str_eq a.address b.address then a ∷ bs else b ∷ rest

unfoldable pub put_answers : List DnsRecord → List DnsRecord → List DnsRecord
unfolding put_answer
put_answers done [] = done
put_answers done (a ∷ as') = put_answers (put_answer a done) as'

-- normalizeDnsAnswers
unfoldable pub normalize_answers : List DnsRecord → List DnsRecord
unfolding put_answers
normalize_answers records = put_answers [] (keep is_usable records)

-- `is_ip` is `net.isIP`: 4, 6 or 0.
module _ (is_ip : List ℕ → ℕ) where
  unfoldable pub url_guards : List (List ℕ) → Url → List (Bool × String)
  url_guards allowlist u =
      (not (str_eq u.protocol "https:"), "outbound_https_required")
      ∷ (not (str_eq u.username "" && str_eq u.password ""), "outbound_userinfo_forbidden")
      ∷ (is_local_host (normalize_hostname u.hostname), "outbound_hostname_forbidden")
      ∷ (not (is_ip (normalize_hostname u.hostname) == 0), "outbound_ip_literal_forbidden")
      ∷ (not (has_host (normalize_hostname u.hostname) allowlist), "outbound_hostname_not_allowed")
      ∷ []

  -- the answers of DNS, for a URL that has passed
  unfoldable pub approve_addresses : Url → List DnsRecord → Verdict
  approve_addresses u [] = denied "outbound_dns_no_addresses"
  approve_addresses u (a ∷ more) =
      if any (λ x. is_disallowed_address is_ip x.address) (a ∷ more)
      then denied "outbound_dns_address_forbidden"
      else approved (record { url = u; host = normalize_hostname u.hostname; addresses = a ∷ more })

  unfoldable pub approve_answer : Url → DnsAnswer → Verdict
  approve_answer u dns_timeout = denied "outbound_dns_timeout"
  approve_answer u dns_failed = denied "outbound_dns_resolution_failed"
  approve_answer u (answers records) = approve_addresses u (normalize_answers records)

  abbrev pub after_guards : Option String → Verdict → Verdict
  after_guards (some code) v = denied code
  after_guards none v = v

  unfoldable pub approve_parsed : List (List ℕ) → (List ℕ → DnsAnswer) → Option Url → Verdict
  approve_parsed allowlist resolve none = denied "outbound_url_invalid"
  approve_parsed allowlist resolve (some u) =
      after_guards (first_of (url_guards allowlist u))
        (approve_answer u (resolve (normalize_hostname u.hostname)))
