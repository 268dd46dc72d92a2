-- ===== src/Examples/Access.antt =====
-- Tests and examples of the permissions and the header filter.
use budge.Base.{◌≡◌, refl, ◌↔◌, true, false, none, some, List, [], ◌∷◌, In, Any}
use budge.Base.Text.{Text, codes}
use budge.Access.Syntax.{path, method, slug, route, Request}
use budge.Access.Scope.{matches, overlap}
use budge.Access.Methods.{methods}
use budge.Base.{all}
use budge.Access.Syntax.{Url, plain_segment, query_byte}
use budge.Base.Text.{split}
use budge.Access.Routes.{route-append, target-segments}
use budge.Access.Overlap.{overlap_iff}
use budge.Upstream.Header.{Field, headers, canonical_key}
use budge.Upstream.Filter.{IsForwarded, headers_iff}
use budge.Examples.Running.{running}
use budge.Examples.Data.{root_url, reads, writes, heads}

syntax_tests :
    (path (codes "/docs/a.b") ≡ true)
    × (path (codes "/docs/../a") ≡ false)
    × (path (codes "docs") ≡ false)
    × (path (codes "/a//b") ≡ false)
    × (method (codes "GET") ≡ true)
    × (method (codes "connect") ≡ false)
    × (slug (codes "docs-2") ≡ true)
    × (slug (codes "2docs") ≡ false)
unfolding running
syntax_tests = (refl, refl, refl, refl, refl, refl, refl, refl)

abbrev request : Text → Request
request p = record { absolute = false; raw_path = []; path = p; method = codes "GET"; upgrade = [] }

route_tests :
    (route (request (codes "/s/docs/a/b")) ≡ some (codes "docs", codes "/a/b"))
    × (route (request (codes "/s/docs")) ≡ none)
    × (route (request (codes "/s/docs/../b")) ≡ none)
unfolding running
route_tests = (refl, refl, refl)

scope_tests :
    (methods (codes "PUT, GET") ≡ some (codes "GET,PUT"))
    × (methods (codes "GET GET") ≡ none)
    × (overlap reads writes ≡ false)
    × (overlap reads heads ≡ true)
    × (matches reads (codes "GET") (codes "/docs/a") ≡ true)
    × (matches reads (codes "GET") (codes "/docs2") ≡ false)
unfolding running
scope_tests = (refl, refl, refl, refl, refl, refl)

abbrev fields : List Field
fields =
    (codes "Content-Type", codes "text/plain")
    ∷ (codes "Set-Cookie", codes "a=b")
    ∷ (codes "X-Hop", codes "1")
    ∷ (codes "Connection", codes "close, x-hop")
    ∷ []

abbrev allowed : List Text
allowed = codes "content-type" ∷ codes "set-cookie" ∷ codes "x-hop" ∷ []

header_tests :
    headers fields allowed (codes "Authorization") ≡ (codes "Content-Type", codes "text/plain") ∷ []
unfolding running
header_tests = refl

overlap_iff_example :
    (overlap reads heads ≡ true)
    ↔ ((m : Text) × (t : Text) × (matches reads m t ≡ true) × (matches heads m t ≡ true))
overlap_iff_example = overlap_iff reads heads

headers_iff_example :
    In (codes "Content-Type", codes "text/plain") (headers fields allowed (codes "Authorization"))
    ↔ (Any (λ a. canonical_key a ≡ codes "Content-Type") allowed
        × IsForwarded fields (codes "Authorization") (codes "Content-Type") (codes "text/plain"))
headers_iff_example =
    headers_iff fields allowed (codes "Authorization") (codes "Content-Type") (codes "text/plain")

route-append_example :
    (codes "/s/docs/a/b" ≡ codes "/s/docs/a/b")
    × (slug (codes "docs") ≡ true)
    × (path (codes "/a/b") ≡ true)
    × (method (codes "GET") ≡ true)
unfolding running
route-append_example =
    route-append (request (codes "/s/docs/a/b")) (codes "docs") (codes "/a/b") refl

abbrev based : Url
based = record root_url { path = codes "/v1/" }

abbrev aimed : Url
aimed = record root_url { path = codes "/v1/docs/a"; raw_query = codes "q=1" }

target-segments_example :
    (aimed.scheme ≡ codes "https")
    × (aimed.user ≡ false)
    × (aimed.raw_query ≡ codes "q=1")
    × (all plain_segment (split b'/' aimed.path) ≡ true)
    × (all query_byte (codes "q=1") ≡ true)
unfolding running
target-segments_example =
    target-segments (λ raw. some based) (codes "https://api.test/v1/") (codes "/docs/a")
      (codes "q=1") aimed refl
