-- ===== src/Client/Connector.antt =====
-- internal/client/client.go: the handler of `ConnectorTransport`. The exchange with the server is a
-- parameter, and so is whether `NewRequestWithContext` takes the method and the URL.
use budge.Base.{
  ℕ, ◌*◌, ◌^◌, Bool, not, ◌||◌, Option, none, some, List, ◌++◌, map, select, leb, ltb, length,
  if◌then◌else◌,
}
use budge.Base.Text.{Text, codes, text_eq}
use budge.Access.Syntax.{Request, route, is_empty}
use budge.Upstream.Header.{Field}
use budge.Upstream.Stream.{Round, Streamed, stream}

-- What the handler reads of a call.
pub record Call : Type 0 where
  pub host : Text
  pub origin : Text
  pub fetch_site : Text
  pub cors_method : Text
  pub request : Request
  pub uri : Text
  pub fields : List Field
  -- The body, or the error of reading it.
  pub body : Option Text

-- What is sent to the server.
pub record Outgoing : Type 0 where
  pub method : Text
  pub url : Text
  pub fields : List Field
  pub body : Text

-- A response of the server.
pub record Incoming : Type 0 where
  pub status : ℕ
  pub fields : List Field
  pub rounds : List Round

pub data Reply : Type 0 where
  refused : (status : ℕ) → Reply
  passed_on : (status : ℕ) (fields : List Field) (body : Streamed) → Reply

-- The first test: only a caller that is no browser's page.
unfoldable pub caller_rejected : Text → Call → Bool
caller_rejected host c =
    not (text_eq c.host host)
    || not (is_empty c.origin)
    || not (is_empty c.fetch_site)
    || not (is_empty c.cors_method)

-- `Header.Del`, of a name in its canonical form.
abbrev pub without : Text → List Field → List Field
without name fields = select (λ (f : Field). not (text_eq f.0 name)) fields

-- The request's fields: a clone without the caller's own credentials.
unfoldable pub sent_fields_of : List Field → List Field
sent_fields_of fields =
    without (codes "Cookie")
      (without (codes "Proxy-Authorization") (without (codes "Authorization") fields))

abbrev names_of : List Field → List Text
names_of fields = map (λ (f : Field). f.0) fields

abbrev replied : Option Incoming → Reply
replied none = refused 502
replied (some r) =
    let (fields, body) = stream r.fields (names_of r.fields) r.rounds in
    passed_on r.status fields body

-- What the handler does: the request that it sends, if any, its reply, and the slots that are free
-- afterwards.
pub record Handled : Type 0 where
  pub sent : Option Outgoing
  pub reply : Reply

abbrev outgoing : Text → Call → Text → Outgoing
outgoing url c body = record {
  method = c.request.method;
  url = url ++ c.uri;
  fields = sent_fields_of c.fields;
  body = body;
}

abbrev with_body : Text → Bool → (Outgoing → Option Incoming) → Call → Option Text → Handled
with_body url valid server c none = record { sent = none; reply = refused 413 }
with_body url valid server c (some body) =
    if ltb (8 * 2 ^ 20) (length body)
    then record { sent = none; reply = refused 413 }
    else if valid
    then record {
      sent = some (outgoing url c body);
      reply = replied (server (outgoing url c body));
    }
    else record { sent = none; reply = refused 400 }

abbrev routed :
    Text → Bool → (Outgoing → Option Incoming) → ℕ → Call → Option (Text × Text) → Handled
routed url valid server taken c none = record { sent = none; reply = refused 400 }
routed url valid server taken c (some p) =
    if leb 4 taken
    then record { sent = none; reply = refused 429 }
    else with_body url valid server c c.body

-- The handler, with the number of slots that other calls have taken; it gives its own back.
unfoldable pub connect : Text → Text → Bool → (Outgoing → Option Incoming) → ℕ → Call → Handled
unfolding caller_rejected route sent_fields_of stream
connect url host valid server taken c =
    if caller_rejected host c
    then record { sent = none; reply = refused 403 }
    else routed url valid server taken c (route c.request)
