-- ===== src/Scenarios/Fetches.antt =====
-- A guarded fetch that is redirected to another host (backend-api/patchforge/outboundFetch.js).
use diiac_patchforge.Prelude.{
  ℕ, zero, suc, ◌≤◌, ◌≡◌, refl, arith, Option, none, some, some_inj, String, List, [], ◌∷◌, str_eq,
  if◌then◌else◌, any, length, All,
}
use diiac_patchforge.Prelude.Numbers.{nan, bounded_number}
use diiac_patchforge.Prelude.Texts.{codes, text_eq, lower, lower_code, trim}
use diiac_patchforge.Outbound.{
  Url, answers, source_allowlist, approve_parsed, url_guards, is_local_host, normalize_hostname,
  approve_answer, approve_addresses, normalize_answers, put_answers, put_answer,
}
use diiac_patchforge.Outbound.Address.{
  is_disallowed_v4, is_disallowed_address, v4_disallows, octets_from,
}
use diiac_patchforge.Outbound.Address.Blocks.{
  in_block, number_of, special_blocks, is_disallowed_v4-special_blocks,
}
use diiac_patchforge.Outbound.Fetch.{
  Header, FetchResult, received, Net, guarded_fetch, fetch_loop, hop, hop_to, redirect_headers,
}
use diiac_patchforge.Outbound.Fetch.Laws.{IsProper, guarded_fetch-IsProper}

abbrev cisa : Url
cisa = record {
  protocol = "https:";
  username = "";
  password = "";
  hostname = "www.cisa.gov";
  origin = "https://www.cisa.gov";
  href = "https://www.cisa.gov/feed";
}

abbrev first_org : Url
first_org = record {
  protocol = "https:";
  username = "";
  password = "";
  hostname = "api.first.org";
  origin = "https://api.first.org";
  href = "https://api.first.org/feed";
}

abbrev parse_known : String → Option Url
parse_known s =
    if str_eq s "https://www.cisa.gov/feed"
    then some cisa
    else if str_eq s "https://api.first.org/feed"
    then some first_org
    else none

abbrev respond : ℕ → FetchResult
respond zero =
    received (record { status = 302; location = "https://api.first.org/feed"; content = "" })
respond (suc n) = received (record { status = 200; location = ""; content = "{}" })

-- of the texts that occur, the address alone is an address
abbrev is_version_4 : List ℕ → ℕ
is_version_4 s = if text_eq s (codes "23.1.2.3") then 4 else 0

abbrev redirecting : Net
redirecting = record {
  is_ip = is_version_4;
  parse = parse_known;
  join = λ l from. some first_org;
  resolve = λ n host. answers (record { address = "23.1.2.3"; family = 4 } ∷ []);
  fetch = λ n a headers. respond n;
}

abbrev with_token : List Header
with_token = record { key = "authorization"; value = "Bearer t" } ∷ []

two_requests :
    length
      (guarded_fetch redirecting
        (source_allowlist [] [])
        nan
        "https://www.cisa.gov/feed"
        with_token).1
    ≡ 2
unfolding guarded_fetch fetch_loop bounded_number approve_parsed url_guards is_local_host
    normalize_hostname lower lower_code trim source_allowlist approve_answer approve_addresses
    normalize_answers put_answers put_answer is_disallowed_address v4_disallows octets_from
    is_disallowed_v4 hop hop_to redirect_headers
two_requests = refl

reads_back : (l : String) (from u : Url) → some first_org ≡ some u → parse_known u.href ≡ some u
reads_back l from u h = let same : first_org ≡ u = some_inj h in moved u same
  where
    moved : (v : Url) → first_org ≡ v → parse_known v.href ≡ some v
    moved v e = rw (← e) refl

guarded_fetch-IsProper_example :
    let (result, sent) =
      guarded_fetch redirecting
        (source_allowlist [] [])
        nan
        "https://www.cisa.gov/feed"
        with_token in
    All (IsProper redirecting (source_allowlist [] []) "https://www.cisa.gov") sent
    × (length sent ≤ 6)
guarded_fetch-IsProper_example =
    guarded_fetch-IsProper redirecting (source_allowlist [] []) nan "https://www.cisa.gov/feed" cisa
      with_token refl reads_back

is_disallowed_v4-special_blocks_example :
    is_disallowed_v4 172 20 0 ≡ any (in_block (number_of 172 20 0 9)) special_blocks
is_disallowed_v4-special_blocks_example =
    is_disallowed_v4-special_blocks 172 20 0 9 (omega arith) (omega arith) (omega arith)
      (omega arith)
