-- ===== src/Examples/Device.antt =====
-- Examples of the devices' pages, of the proxy and of the worker.
use budge.Base.{◌≡◌, refl, ◌↔◌, ◌⊎◌, inl, true, false, some, [], ◌∷◌, In, arith}
use budge.Base.Text.{codes}
use budge.Access.Scope.{Permission}
use budge.Upstream.Send.{send, answered}
use budge.Upstream.Stream.{eof, whole}
use budge.Requests.Types.{Service, ok, http}
use budge.Store.Transaction.{transact}
use budge.Server.Authorize.{authorize}
use budge.Server.Slots.{Slots}
use budge.Server.SlotBounds.{IsBounded}
use budge.Server.Device.{Forward, failed, streamed, Incoming, Outside, handle_forward}
use budge.Server.Forwarded.{IsProxied, handle_forward-IsProxied}
use budge.Server.SlotBalance.{IsBalanced, handle_forward-IsBalanced}
use budge.Server.Listed.{IsListed, IsListed-authorize}
use budge.Server.Worker.{worker_turn}
use budge.Server.Started.{Full, worker_turn-starts}
use budge.Examples.Running.{running}
use budge.Examples.Data.{env, docs, reads, docs_url, put_row, queued_db}
use budge.Store.Tables.{queued}

abbrev get_a : Incoming
get_a = record {
  request = record {
    absolute = false;
    raw_path = [];
    path = codes "/s/docs/docs/a";
    method = codes "GET";
    upgrade = [];
  };
  raw_query = [];
  fields = [];
  body = some [];
}

-- An upstream that answers with one round.
abbrev outside : Outside
outside = record {
  valid = λ f. true;
  trip = λ f fields. answered (record {
    status = 200;
    fields = (codes "Content-Type", codes "text/plain") ∷ (codes "Authorization", codes "x") ∷ [];
    rounds = record { bytes = codes "hello"; end = eof; write = whole } ∷ [];
  });
}

abbrev free : Slots
free = record { global = 0; active = [] }

abbrev sent : Forward
sent = record { service = docs; permission = reads; url = docs_url }

forward_tests :
    ((handle_forward env (codes "d1") get_a outside 5 [] [] (free, queued_db)).0.answer
      ≡ streamed 200 ((codes "Content-Type", codes "text/plain") ∷ []) (codes "hello"))
    × ((handle_forward env (codes "d2") get_a outside 5 [] [] (free, queued_db)).0.answer
        ≡ failed (http 403 (codes "permission_denied")))
unfolding running
forward_tests = (refl, refl)

handle_forward-IsProxied_example :
    IsProxied env
      (codes "d1")
      get_a
      (λ g key.
        send env.base64 g.service.auth g.service.auth_header g.service.request_headers
          (outside.valid g)
          get_a.fields
          key
          (outside.trip g))
      5
      []
      sent
      (codes "secret")
      queued_db
      (handle_forward env (codes "d1") get_a outside 5 [] [] (free, queued_db)).0
unfolding running
handle_forward-IsProxied_example =
    handle_forward-IsProxied env (codes "d1") get_a outside 5 [] [] free queued_db sent
      (codes "secret") refl

handle_forward-IsBalanced_example :
    IsBalanced free (handle_forward env (codes "d1") get_a outside 5 [] [] (free, queued_db)).1
handle_forward-IsBalanced_example =
    handle_forward-IsBalanced env (codes "d1") get_a outside 5 [] [] free queued_db

IsListed-authorize_example :
    IsListed 100 (codes "d1") (codes "docs") (codes "GET") (codes "/docs/a") queued_db ↔ (
      (svc : Service) × (p : Permission) × (transact
          (authorize 100 (codes "d1") (codes "docs") (codes "GET") (codes "/docs/a"))
          []
          queued_db
        ≡ (ok (svc, p), queued_db)))
unfolding running
IsListed-authorize_example =
    IsListed-authorize 100 (codes "d1") (codes "docs") (codes "GET") (codes "/docs/a") queued_db
      ((λ m. m), tt) refl

free-IsBounded : IsBounded free
free-IsBounded = record { apart = tt; counts = tt; sum = refl; limit = ground arith }

worker_turn-starts_example :
    (In (codes "r1") (worker_turn env (λ rows. rows) [] false (free, queued_db)).0
      ⊎ Full (worker_turn env (λ rows. rows) [] false (free, queued_db)).1.0 (codes "d1"))
    × IsBounded (worker_turn env (λ rows. rows) [] false (free, queued_db)).1.0
unfolding running
worker_turn-starts_example =
    worker_turn-starts env (λ rows. rows) [] free queued_db (put_row queued) free-IsBounded
      (inl refl)
