-- ===== src/Tests/Web.antt =====
-- The gateway's connections, sites and parked pages, at small inputs.
use mjolnir.Base.{
  ℕ, ◌<◌, true, false, none, some, List, [], ◌∷◌, ◌++◌, Str, codes, ok, arith, ◌≡◌, refl, lower,
  map, trim, before, split, strip_prefix, is_ascii_alphanumeric, ends_with,
}
use mjolnir.Base.Decimal.{parse_unsigned}
use mjolnir.Base.Utf8.{from_utf8_lossy, as_bytes}
use mjolnir.Base.Words.{split_crlf, split_once, split_whitespace, eq_ignore_ascii_case}
use mjolnir.Gateway.Config.{SitesResolver, SocketAddr}
use mjolnir.Gateway.Handler.{World, AppCtx, Shared, handle_connection}
use mjolnir.Gateway.Handler.Forwards.{HandsOn, handle_connection-HandsOn}
use mjolnir.Gateway.Headers.{
  crlf, head_of, chunk, has_terminator, read_until_headers, set_or_replace_header,
  extract_acme_http01_token,
}
use mjolnir.Gateway.Headers.Block.{request}
use mjolnir.Gateway.Headers.Challenge.{IsFileName, IsFileName-extract_acme_http01_token, received}
use mjolnir.Gateway.Headers.Rewrite.{forwarded_proto, set_or_replace_header-request}
use mjolnir.Gateway.Parked.{
  redirect_to_canonical, sanitize_hostname, percent_decode, is_canonical_host,
}
use mjolnir.Gateway.Parked.Origin.{origin_from_request, IsOrigin, origin_from_request-IsOrigin}
use mjolnir.Gateway.Parked.Redirect.{redirect_lines, redirect_to_canonical-lines}
use mjolnir.Gateway.Pool.{get}
use mjolnir.Gateway.Route.{RouteTable}
use mjolnir.Gateway.Sites.{FilePath, components, Fetched, response, Fs, resolve_park}
use mjolnir.Gateway.Sites.Contained.{CacheIsContained, IsContained, resolve_park-IsContained}
use mjolnir.Gateway.Sites.Serve.{
  FallbackPolicy, FileServer, PrefixedStream, Request, Response, blank, host_ok, poll_read,
  serve_request,
}
use mjolnir.Gateway.Sites.Serve.Policy.{PosIsValid, remaining, poll_read-remaining}
use mjolnir.Gateway.Sites.Serve.Revalidate.{
  IsRevalidated, asks_again, quoted, serve_request-IsRevalidated,
}
use mjolnir.Gateway.Subdomain.{parse_z32_subdomain, rfind}
use mjolnir.Gateway.Tunnel.{
  Net, IrohConfig, Links, proxied, came, handle_iroh_connection, setup_iroh_proxy, resolve_ticket,
  take_connection, dial_node, open_stream, send,
}
use mjolnir.Gateway.Tunnel.Delivered.{WritesRounds, asked_port, handle_iroh_connection-delivers}
use mjolnir.Gateway.Tunnel.Dials.{IsAnswered, handle_iroh_connection-IsAnswered}

-- A network where each node answers with an "H"; connections and streams are numbers.
abbrev zeros : List ℕ
zeros =
    0 ∷ 0 ∷ 0 ∷ 0 ∷ 0 ∷ 0 ∷ 0 ∷ 0 ∷ 0 ∷ 0 ∷ 0 ∷ 0 ∷ 0 ∷ 0 ∷ 0 ∷ 0 ∷ 0 ∷ 0 ∷ 0 ∷ 0 ∷ 0 ∷ 0 ∷ 0 ∷ 0
    ∷ 0 ∷ 0 ∷ 0 ∷ 0 ∷ 0 ∷ 0 ∷ 0 ∷ 0 ∷ []

abbrev net : Net ℕ ℕ
net = record {
  z32_decode = λ s. ok zeros;
  key_from_bytes = λ bytes. ok bytes;
  closed = λ now conn. false;
  connect = λ now key. came now;
  open_bi = λ now conn. ok conn;
  write_all = λ now stream bytes. none;
  read_byte = λ now timeout stream. came (some b'H');
}

abbrev iroh_cfg : IrohConfig
iroh_cfg = record { response_timeout_ms = 1000; pool_probe_timeout_ms = 10; default_port = 80 }

abbrev links : Links ℕ ℕ
links = record {
  pool = record { cache = []; ttl = 60; max_size = 4 };
  now = 5;
  dials = 0;
  sent = [];
}

handle_iroh_connection-IsAnswered_example :
    let r = handle_iroh_connection net iroh_cfg (codes "node-90") (codes "GET") links in
    IsAnswered net links r.1 r.0
handle_iroh_connection-IsAnswered_example =
    handle_iroh_connection-IsAnswered net iroh_cfg (codes "node-90") (codes "GET") links

is_proxied :
    (handle_iroh_connection net iroh_cfg (codes "node-90") (codes "GET") links).0
    ≡ proxied 5 (some b'H')
unfolding handle_iroh_connection setup_iroh_proxy parse_z32_subdomain parse_unsigned resolve_ticket
    take_connection get dial_node open_stream send
is_proxied = refl

handle_iroh_connection-delivers_example :
    WritesRounds net links.sent
      (handle_iroh_connection net iroh_cfg (codes "node-90") (codes "GET") links).1.sent
      5
      (asked_port iroh_cfg (parse_z32_subdomain (codes "node-90")))
      (codes "GET")
      2
handle_iroh_connection-delivers_example =
    handle_iroh_connection-delivers net iroh_cfg (codes "node-90") (codes "GET") links 5 (some b'H')
      is_proxied

abbrev address : SocketAddr
address = record { ip = 127 ∷ 0 ∷ 0 ∷ 1 ∷ []; port = 80 }

abbrev resolver : SitesResolver
resolver = record { api_url = codes "http://h/"; backend = address; sites_root = codes "/s" }

-- Every lookup gives a site, and every path is canonical and a directory.
abbrev fs : Fs
fs = record { canonicalize = λ p. some p; is_dir = λ p. some true }

abbrev fetch : Str → Fetched
fetch url = response 200 (some (record { identikey_fp = codes "f"; site_name = codes "n" }))

abbrev world : World
world = record {
  dial = λ a. came tt;
  show_addr = λ a. [];
  challenge_file = λ t. none;
  fetch = fetch;
  fs = fs;
  seconds = 0;
}

abbrev table : RouteTable
table = record { apexes = []; routes = []; aliases = [] }

abbrev ctx : AppCtx
ctx = record { routes = table; iroh_cfg = iroh_cfg; sites_resolver = some resolver }

abbrev shared : Shared ℕ ℕ
shared = record { links = links; park_cache = none }

abbrev get_line : Str
get_line = codes "GET /p HTTP/1.1"

abbrev host_header : Str
host_header = codes "HOST: a.b:80"

abbrev spoof : Str
spoof = codes "x-forwarded-proto: https"

abbrev body : List ℕ
body = 31 ∷ 139 ∷ []

abbrev sent_bytes : List ℕ
sent_bytes = request (get_line ∷ spoof ∷ host_header ∷ []) body

handle_connection-HandsOn_example :
    HandsOn world ctx
      (chunk sent_bytes ∷ [])
      (some (codes "a.b"))
      (handle_connection net world ctx (chunk sent_bytes ∷ []) (some (codes "a.b")) shared).0
handle_connection-HandsOn_example =
    handle_connection-HandsOn net world ctx (chunk sent_bytes ∷ []) (some (codes "a.b")) shared

set_or_replace_header-request_example :
    set_or_replace_header sent_bytes forwarded_proto (codes "http")
    ≡ request (get_line ∷ host_header ∷ codes "X-Forwarded-Proto: http" ∷ []) body
unfolding lower
set_or_replace_header-request_example =
    set_or_replace_header-request forwarded_proto (codes "http") refl refl get_line
      (spoof ∷ host_header ∷ []) body ((refl, refl), ((refl, refl), ((refl, refl), tt)))

abbrev challenge : List ℕ
challenge = codes "get /.well-known/acme-challenge/a_B-9?x HTTP/1.1" ++ (crlf ++ crlf)

has_token : extract_acme_http01_token challenge ≡ some (codes "a_B-9")
unfolding extract_acme_http01_token split_whitespace split_crlf from_utf8_lossy eq_ignore_ascii_case
    strip_prefix before
has_token = refl

IsFileName-extract_acme_http01_token_example : IsFileName (codes "a_B-9")
IsFileName-extract_acme_http01_token_example =
    IsFileName-extract_acme_http01_token challenge (codes "a_B-9") has_token

abbrev two_reads : List (List ℕ)
two_reads = codes "GET" ∷ (crlf ++ (crlf ++ codes "x")) ∷ []

both_read : read_until_headers (map chunk two_reads) ≡ ok (received (map chunk two_reads))
unfolding read_until_headers
both_read = refl

whole_head : has_terminator (received (map chunk two_reads)) ≡ true
unfolding has_terminator
whole_head = refl

redirect_to_canonical-lines_example :
    split_crlf (redirect_to_canonical (codes "a.b")) ≡ redirect_lines (codes "a.b") ++ [] ∷ [] ∷ []
redirect_to_canonical-lines_example = redirect_to_canonical-lines (codes "a.b")

abbrev visit : List ℕ
visit = codes "GET /?from=A.b HTTP/1.1" ++ (crlf ++ crlf)

visited : origin_from_request visit ≡ some (codes "a.b")
unfolding origin_from_request split_crlf from_utf8_lossy head_of split_whitespace split_once split
    sanitize_hostname rfind strip_prefix trim percent_decode as_bytes is_ascii_alphanumeric
    ends_with is_canonical_host
visited = refl

origin_from_request-IsOrigin_example : IsOrigin (codes "a.b")
origin_from_request-IsOrigin_example = origin_from_request-IsOrigin visit (codes "a.b") visited

resolve_park-IsContained_example :
    CacheIsContained fs resolver (resolve_park fs fetch resolver 7 none).1
    × ((dir : FilePath)
        → (resolve_park fs fetch resolver 7 none).0 ≡ some dir
        → IsContained fs (components resolver.sites_root) dir)
resolve_park-IsContained_example = resolve_park-IsContained fs fetch resolver 7 none tt

abbrev page : Response
page = record (blank 200) {
  content_length = some (codes "2");
  last_modified = some (codes "d");
  content = codes "hi";
}

abbrev files : FileServer
files = record {
  serve_dir = λ dir req. some page;
  serve_file = λ file head_only encoding since. none;
  digest = λ size modified. codes "ab12";
  is_file = λ file. false;
}

abbrev asked : Request
asked = record {
  host = some (codes "a.b:80");
  path = codes "/p";
  head_only = false;
  accept_encoding = none;
  if_modified_since = none;
  if_none_match = none;
}

right_host : host_ok (codes "A.b") asked.host ≡ true
unfolding host_ok
right_host = refl

serve_request-IsRevalidated_example :
    IsRevalidated
      (quoted (codes "ab12"))
      (serve_request files [] FallbackPolicy.unset none (codes "A.b") asked)
      (serve_request files [] FallbackPolicy.unset none
        (codes "A.b")
        (asks_again asked (quoted (codes "ab12"))))
serve_request-IsRevalidated_example =
    serve_request-IsRevalidated files [] FallbackPolicy.unset none (codes "A.b") asked page
      (codes "2") (codes "d") right_host refl refl refl refl refl refl refl

abbrev replayed : PrefixedStream
replayed = record { prefix = codes "GET"; pos = 1; inner = codes "x" }

poll_read-remaining_example :
    ((poll_read 1 replayed).0 ++ remaining (poll_read 1 replayed).1 ≡ remaining replayed)
    × PosIsValid (poll_read 1 replayed).1
    × (0 < 1 → (poll_read 1 replayed).0 ≡ [] → remaining replayed ≡ [])
poll_read-remaining_example = poll_read-remaining 1 replayed (omega arith)
