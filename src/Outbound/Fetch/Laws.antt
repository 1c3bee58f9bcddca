-- ===== src/Outbound/Fetch/Laws.antt =====
-- What a guarded fetch sends, and to whom (backend-api/patchforge/outboundFetch.js).
use diiac_patchforge.Prelude.{
  ℕ, zero, suc, ◌≤◌, ◌≡◌, refl, ◌⊎◌, inl, inr, arith, eq_iff, Bool, true, false, not, Option, none,
  some, String, List, [], ◌∷◌, str_eq, keep_sound, length, All, some_inj, sym, ◌∙◌, Bool-cases,
}
use diiac_patchforge.Prelude.Numbers.{JsNumber, bounded_number-le}
use diiac_patchforge.Outbound.{Url, Approved, Verdict, denied, approved, approve_parsed}
use diiac_patchforge.Outbound.Fetch.{
  Header, FetchResult, failed, received, Net, Sent, is_sensitive, is_redirect, redirect_headers,
  Hop, stop, go, hop_to, hop, log, after_hop, round, fetch_loop, max_redirects, guarded_fetch,
}
use diiac_patchforge.Outbound.Laws.{IsApproved, VerdictHolds, approve_parsed-IsApproved}

not-true : {b : Bool} → not b ≡ true → b ≡ false
not-true {b} h = ground arith

-- No header of a request is one that a redirect to another origin must drop.
abbrev pub IsStripped : List Header → Type 0
IsStripped = All (λ h. is_sensitive h ≡ false)

-- A request is to an origin, or has no such header.
abbrev pub IsWithin : String → Url → List Header → Type 0
IsWithin origin u headers = (u.origin ≡ origin) ⊎ IsStripped headers

abbrev HopHolds : (Url → List Header → Type 0) → Hop → Type 0
HopHolds P (stop result) = Unit
HopHolds P (go u headers) = P u headers

module _ (net : Net) (origin : String) where
  stripped :
      (headers : List Header) → All (λ h. not (is_sensitive h) ≡ true) headers → IsStripped headers
  stripped [] h = tt
  stripped (x ∷ xs) h = (not-true h.0, stripped xs h.1)

  redirect_headers-IsWithin :
      (headers : List Header) (from next : Url)
      → IsWithin origin from headers
      → IsWithin origin next (redirect_headers headers from next)
  unfolding redirect_headers
  redirect_headers-IsWithin headers from next h =
      elim (Bool-cases (str_eq from.origin next.origin)) [
        | inr cross ↦ rw cross (inr (stripped _ (keep_sound (λ x. not (is_sensitive x)) headers)))
        | inl same ↦ rw same (elim h [
          | inr s ↦ inr s
          | inl e ↦ inl (ground (arith, eq_iff from.origin next.origin))
        ])
      ]

  -- a target within the origin, that the parser reads back
  abbrev IsTarget : Url → List Header → Type 0
  IsTarget u headers = IsWithin origin u headers × (net.parse u.href ≡ some u)

  hop_to-IsTarget :
      (from : Url) (headers : List Header) (o : Option Url)
      → IsWithin origin from headers
      → ((u : Url) → o ≡ some u → net.parse u.href ≡ some u)
      → HopHolds IsTarget (hop_to from headers o)
  unfolding hop_to
  hop_to-IsTarget from headers none h f = tt
  hop_to-IsTarget from headers (some next) h f =
      (redirect_headers-IsWithin headers from next h, f next refl)

  hop-IsTarget :
      (from : Url) (headers : List Header) (is_last : Bool) (result : FetchResult)
      → IsWithin origin from headers
      → ((l : String) (u : Url) → net.join l from ≡ some u → net.parse u.href ≡ some u)
      → HopHolds IsTarget (hop net from headers is_last result)
  unfolding hop
  hop-IsTarget from headers is_last (failed code) h f = tt
  hop-IsTarget from headers is_last (received r) h f = elim (Bool-cases (is_redirect r.status)) [
    | inr e ↦ rw e tt
    | inl e ↦ rw e (elim (Bool-cases is_last) [
      | inl t ↦ rw t tt
      | inr g ↦ rw g (elim (Bool-cases (str_eq r.location "")) [
        | inl missing ↦ rw missing tt
        | inr given ↦
            rw given (hop_to-IsTarget from headers (net.join r.location from) h (f r.location))
      ])
    ])
  ]

-- A request to an approved address, and to the first origin or stripped.
abbrev pub IsProper : Net → List (List ℕ) → String → Sent → Type 0
IsProper net allowlist origin s =
    IsApproved net.is_ip allowlist s.to × IsWithin origin s.to.url s.headers

module _ (net : Net) (allowlist : List (List ℕ)) (origin : String) where
  -- the requests of a run, each proper, and no more than a number
  abbrev IsRun : ℕ → FetchResult × List Sent → Type 0
  IsRun most (result, sent) = All (IsProper net allowlist origin) sent × (length sent ≤ most)

  log-IsRun :
      (most : ℕ) (s : Sent) (p : FetchResult × List Sent)
      → IsProper net allowlist origin s
      → IsRun most p
      → IsRun (suc most) (log s p)
  log-IsRun most s (result, sent) h g = ((h, g.0), omega (arith, g.1))

  after_hop-IsRun :
      (most : ℕ) (next : String → List Header → FetchResult × List Sent) (h : Hop)
      → HopHolds (IsTarget net origin) h
      → ((u : Url) (hs : List Header) → IsTarget net origin u hs → IsRun most (next u.href hs))
      → IsRun most (after_hop next h)
  after_hop-IsRun most next (stop result) w f = (tt, omega arith)
  after_hop-IsRun most next (go u hs) w f = f u hs w

  round-IsRun :
      (most : ℕ) (send : Approved → FetchResult × List Sent) (o : Option Url) (v : Verdict)
      → VerdictHolds (λ a. IsApproved net.is_ip allowlist a × (o ≡ some a.url)) v
      → ((a : Approved) → IsApproved net.is_ip allowlist a → o ≡ some a.url → IsRun most (send a))
      → IsRun most (round send v)
  round-IsRun most send o (denied code) h f = (tt, omega arith)
  round-IsRun most send o (approved a) h f = f a h.0 h.1

  moved : (u v : Url) (hs : List Header) → u ≡ v → IsWithin origin u hs → IsWithin origin v hs
  moved u v hs same w = rw same at w

  -- the address of the next request, if it parses, is within the origin or its headers are stripped
  abbrev IsReady : String → List Header → Type 0
  IsReady current headers = (u : Url) → net.parse current ≡ some u → IsWithin origin u headers

  IsReady-first :
      (url : String) (first : Url) (hs : List Header)
      → net.parse url ≡ some first
      → first.origin ≡ origin
      → IsReady url hs
  IsReady-first url first hs parsed own v again =
      moved first v hs (some_inj (sym parsed ∙ again)) (inl own)

  IsReady-next : (u : Url) (hs : List Header) → IsTarget net origin u hs → IsReady u.href hs
  IsReady-next u hs t v parsed =
      let same : u ≡ v = some_inj (sym t.1 ∙ parsed) in moved u v hs same t.0

  -- The parser reads back the target of a redirect.
  module _
      (reads_back : (l : String) (from u : Url)
        → net.join l from ≡ some u
        → net.parse u.href ≡ some u) where
    fetch_loop-IsRun :
        (left redirects : ℕ) (current : String) (headers : List Header)
        → IsReady current headers
        → IsRun (suc left) (fetch_loop net allowlist left redirects current headers)
    unfolding fetch_loop
    fetch_loop-IsRun zero redirects current headers ready =
        round-IsRun 1 _ (net.parse current)
          (approve_parsed net.is_ip allowlist (net.resolve redirects) (net.parse current))
          (approve_parsed-IsApproved net.is_ip allowlist (net.resolve redirects)
            (net.parse current))
          (λ a ok parsed.
            log-IsRun 0 (record { to = a; headers = headers })
              (after_hop (λ url hs. (failed "outbound_redirect_limit", []))
                (hop net a.url headers true (net.fetch redirects a headers)))
              (ok, ready a.url parsed)
              (after_hop-IsRun 0 _ _
                (hop-IsTarget net origin a.url headers true (net.fetch redirects a headers)
                  (ready a.url parsed) (λ l u. reads_back l a.url u))
                (λ u hs w. (tt, omega arith))))
    fetch_loop-IsRun (suc left) redirects current headers ready =
        round-IsRun (suc (suc left)) _ (net.parse current)
          (approve_parsed net.is_ip allowlist (net.resolve redirects) (net.parse current))
          (approve_parsed-IsApproved net.is_ip allowlist (net.resolve redirects)
            (net.parse current))
          (λ a ok parsed.
            log-IsRun (suc left) (record { to = a; headers = headers })
              (after_hop (fetch_loop net allowlist left (suc redirects))
                (hop net a.url headers false (net.fetch redirects a headers)))
              (ok, ready a.url parsed)
              (after_hop-IsRun (suc left) _ _
                (hop-IsTarget net origin a.url headers false (net.fetch redirects a headers)
                  (ready a.url parsed) (λ l u. reads_back l a.url u))
                (λ u hs w. fetch_loop-IsRun left (suc redirects) u.href hs (IsReady-next u hs w))))

-- Whatever the servers answer and wherever they redirect, each request of a guarded fetch goes over
-- HTTPS without credentials to an allowed host with public addresses alone; a request to another
-- origin than the first carries none of the sensitive headers; and there are six requests at most.
-- The first URL parses, and the parser reads back the text of a target that it has made.
pub guarded_fetch-IsProper :
    (net : Net) (allowlist : List (List ℕ)) (limit : JsNumber) (url : String) (first : Url)
    (headers : List Header)
    → net.parse url ≡ some first
    → ((l : String) (from u : Url) → net.join l from ≡ some u → net.parse u.href ≡ some u)
    → let (result, sent) = guarded_fetch net allowlist limit url headers in
      All (IsProper net allowlist first.origin) sent × (length sent ≤ 6)
unfolding guarded_fetch
guarded_fetch-IsProper net allowlist limit url first headers parsed reads_back =
    let run =
      fetch_loop-IsRun net allowlist first.origin reads_back (max_redirects limit) 0 url headers
        (IsReady-first net allowlist first.origin url first headers parsed refl) in
    (
      run.0,
      omega
          (arith, run.1, bounded_number-le limit 3 0 5 5 (omega arith) (omega arith) (omega arith)),
    )
