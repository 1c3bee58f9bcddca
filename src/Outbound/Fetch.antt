-- ===== src/Outbound/Fetch.antt =====
-- `guardedFetchBuffer` of backend-api/patchforge/outboundFetch.js: the loop over the redirects. The parser
-- of URLs, DNS and the transport are an environment; the limits on bytes and time are the transport's.
pub mod Laws
use diiac_patchforge.Prelude.{
  ℕ, zero, suc, ◌-◌, Bool, true, false, not, ◌&&◌, ◌||◌, Option, none, some, String, List, [], ◌∷◌,
  str_eq, if◌then◌else◌, ◌==◌, ltb, leb, keep,
}
use diiac_patchforge.Prelude.Texts.{member}
use diiac_patchforge.Prelude.Numbers.{JsNumber, bounded_number}
use diiac_patchforge.Outbound.{Url, DnsAnswer, Approved, Verdict, denied, approved, approve_parsed}

-- A header; the keys are in lower case (`normalizeHeaders`).
pub record Header : Type 0 where
  pub key : String
  pub value : String

-- `location` is empty where there is none.
pub record Response : Type 0 where
  pub status : ℕ
  pub location : String
  pub content : String

pub data FetchResult : Type 0 where
  failed : String → FetchResult
  received : Response → FetchResult

-- Each call of DNS and of the transport is asked by the number of redirects before it.
pub record Net : Type 0 where
  pub is_ip : List ℕ → ℕ
  pub parse : String → Option Url
  pub join : String → Url → Option Url
  pub resolve : ℕ → List ℕ → DnsAnswer
  pub fetch : ℕ → Approved → List Header → FetchResult

-- A request that was sent.
pub record Sent : Type 0 where
  pub to : Approved
  pub headers : List Header

abbrev pub sensitive_redirect_headers : List String
sensitive_redirect_headers = "authorization" ∷ "cookie" ∷ "apikey" ∷ "proxy-authorization" ∷ []

abbrev pub is_sensitive : Header → Bool
is_sensitive h = member h.key sensitive_redirect_headers

abbrev pub is_redirect : ℕ → Bool
is_redirect status =
    status == 301 || status == 302 || status == 303 || status == 307 || status == 308

-- redirectHeaders
unfoldable pub redirect_headers : List Header → Url → Url → List Header
redirect_headers headers from to =
    if str_eq from.origin to.origin then headers else keep (λ h. not (is_sensitive h)) headers

-- what a response comes to: an error, an answer, or one more request
pub data Hop : Type 0 where
  stop : FetchResult → Hop
  go : Url → List Header → Hop

-- the target of a redirect; a Location that is no URL makes `new URL` throw
unfoldable pub hop_to : Url → List Header → Option Url → Hop
hop_to from headers none = stop (failed "ERR_INVALID_URL")
hop_to from headers (some next) = go next (redirect_headers headers from next)

-- with whether this was the last redirect allowed
unfoldable pub hop : Net → Url → List Header → Bool → FetchResult → Hop
hop net from headers is_last (failed code) = stop (failed code)
hop net from headers is_last (received r) =
    if not (is_redirect r.status)
    then stop
        (if ltb r.status 200 || leb 300 r.status then failed "outbound_http_error" else received r)
    else if is_last
    then stop (failed "outbound_redirect_limit")
    else if str_eq r.location ""
    then stop (failed "outbound_redirect_location_missing")
    else hop_to from headers (net.join r.location from)

abbrev pub log : Sent → FetchResult × List Sent → FetchResult × List Sent
log s (result, sent) = (result, s ∷ sent)

abbrev pub after_hop :
    (String → List Header → FetchResult × List Sent) → Hop → FetchResult × List Sent
after_hop next (stop result) = (result, [])
after_hop next (go url headers) = next url.href headers

-- One round, with what follows it.
abbrev pub round : (Approved → FetchResult × List Sent) → Verdict → FetchResult × List Sent
round send (denied code) = (failed code, [])
round send (approved a) = send a

-- The rounds; `left` is how many redirects may still follow.
unfoldable pub fetch_loop :
    Net → List (List ℕ) → ℕ → ℕ → String → List Header → FetchResult × List Sent
fetch_loop net allowlist zero redirects current headers =
    round
      (λ a.
        log (record { to = a; headers = headers })
          (after_hop (λ url hs. (failed "outbound_redirect_limit", []))
            (hop net a.url headers true (net.fetch redirects a headers))))
      (approve_parsed net.is_ip allowlist (net.resolve redirects) (net.parse current))
fetch_loop net allowlist (suc left) redirects current headers =
    round
      (λ a.
        log (record { to = a; headers = headers })
          (after_hop (fetch_loop net allowlist left (suc redirects))
            (hop net a.url headers false (net.fetch redirects a headers))))
      (approve_parsed net.is_ip allowlist (net.resolve redirects) (net.parse current))

-- boundedNumber(options.maxRedirects, 3, 0, 5)
abbrev pub max_redirects : JsNumber → ℕ
max_redirects n = bounded_number n 3 0 5

unfoldable pub guarded_fetch :
    Net → List (List ℕ) → JsNumber → String → List Header → FetchResult × List Sent
guarded_fetch net allowlist limit url headers =
    fetch_loop net allowlist (max_redirects limit) 0 url headers
