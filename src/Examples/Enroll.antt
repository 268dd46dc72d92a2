-- ===== src/Examples/Enroll.antt =====
-- Examples of enrollment, of logins and of the owner's pages.
use budge.Base.{
  List, ◌≡◌, refl, false, true, none, some, [], ◌∷◌, ◌⊎◌, ◌↔◌, In, arith, ◌++◌, map, ap, ◌+◌, ◌-◌,
}
use budge.Base.Text.{Text, codes}
use budge.Requests.Types.{http, ok, err}
use budge.Store.Tables.{Owner, Db}
use budge.Store.Transaction.{transact}
use budge.Server.Enroll.{X509, enroll_tx}
use budge.Server.Enrolled.{IsEnrolled, enroll_tx-IsEnrolled, enroll_once}
use budge.Server.Session.{Passwords, check_password, hash_password, login_tx}
use budge.Server.Login.{IsPrintable, check_password-hash_password, login_tx-done}
use budge.Server.OwnerPages.{handle_owner}
use budge.Server.OwnerRequests.{OwnerRequest, Drawn, redirect}
use budge.Server.OwnerChanges.{IsPosted, handle_owner-IsPosted}
use budge.Server.System.{System, enroll, run, start}
use budge.Server.Once.{started}
use budge.Server.Growth.{IsGrown}
use budge.Server.Automaton.{Reach-IsGrown}
use budge.Server.Edges.{Life}
use budge.Server.System.{maintain, operate, then_step}
use budge.Examples.Running.{running}
use budge.Examples.Data.{env, queued_db, Distinct-ids}

-- Every request is signed, and every certificate can be read.
abbrev x509 : X509
x509 = record {
  serial = codes "02";
  parse_request = λ csr. some (record { signed = true; p256 = true; key = csr });
  create = λ t key. some (t.subject ++ key);
  parse_certificate = λ cert. some (record {
    serial = codes "02";
    subject = cert;
    names = [];
    not_before = 0;
    not_after = 1000;
    client_auth = true;
  });
}

enroll_tests :
    ((transact (enroll_tx env x509 (codes "invite") (codes "k")) [] queued_db).0
      ≡ ok (codes "d1", codes "d1k"))
    × ((transact (enroll_tx env x509 (codes "other") (codes "k")) [] queued_db).0
        ≡ err (http 403 (codes "invitation_invalid")))
    × ((transact
          (enroll_tx env x509 (codes "invite") (codes "k"))
          []
          (run (enroll env x509 (codes "invite") (codes "k")) [] queued_db)).0
        ≡ err (http 403 (codes "invitation_invalid")))
unfolding running
enroll_tests = (refl, refl, refl)

abbrev enrolled : Db
enrolled = (transact (enroll_tx env x509 (codes "invite") (codes "k")) [] queued_db).1

enroll_tx-IsEnrolled_example :
    IsEnrolled env x509 (codes "invite") (codes "k") (codes "d1") (codes "d1k") queued_db enrolled
unfolding running
enroll_tx-IsEnrolled_example =
    enroll_tx-IsEnrolled env x509 (codes "invite") (codes "k") (codes "d1") (codes "d1k") []
      queued_db enrolled refl

abbrev after_enroll : System
after_enroll = record (started queued_db) {
  db = run (enroll env x509 (codes "invite") (codes "k")) [] queued_db;
}

enroll_once_example : ¬ (
    (transact (enroll_tx env x509 (codes "invite") (codes "j")) [] after_enroll.db).0
    ≡ ok (codes "d1", codes "d1j"))
unfolding running
enroll_once_example =
    enroll_once queued_db (started queued_db) after_enroll env env x509 x509 (codes "invite")
      (codes "invite") (codes "k") (codes "j") [] [] (codes "d1", codes "d1k")
      (codes "d1", codes "d1j") Distinct-ids start refl start refl

-- A base64 that moves each byte past the full stop.
abbrev moved : Passwords
moved = record {
  encode = λ b. map (λ c. c + 47) b;
  decode = λ b. some (map (λ c. c - 47) b);
  key = λ password salt. password ++ salt;
}

back : (b : Text) → map (λ c. c - 47) (map (λ c. c + 47) b) ≡ b
back [] = refl
back (c ∷ b) = ground (arith, back b)

past_stop : (b : Text) → ¬ In b'.' (map (λ c. c + 47) b)
past_stop [] m = m
past_stop (c ∷ b) m = ground (arith, m, past_stop b)

moved-IsPrintable : IsPrintable moved
moved-IsPrintable = record { decode-encode = λ b. ap some (back b); no_stop = past_stop }

abbrev sixteen : Text
sixteen = codes "abcdefghijklmnop"

check_password-hash_password_example :
    (check_password moved (hash_password moved sixteen (codes "secret")) (codes "secret") ≡ true)
    ↔ (codes "secret" ++ sixteen ≡ codes "secret" ++ sixteen)
check_password-hash_password_example =
    check_password-hash_password moved sixteen (codes "secret") (codes "secret") moved-IsPrintable
      refl

abbrev login_words : Passwords
login_words = record { encode = λ b. b; decode = λ b. some b; key = λ password salt. password }

abbrev owned_db : Db
owned_db = record queued_db {
  owners = record { id = codes "o1"; password_hash = codes "abcdefghijklmnop.secret" } ∷ [];
  sessions =
      record { hash = codes "t1"; owner_id = codes "o1"; csrf = codes "c1"; expires = 500 } ∷ [];
}

login_tests :
    (check_password login_words (codes "abcdefghijklmnop.secret") (codes "secret") ≡ true)
    × (check_password login_words (codes "abcdefghijklmnop.secret") (codes "other") ≡ false)
    × (check_password login_words (codes "secret") (codes "secret") ≡ false)
unfolding running
login_tests = (refl, refl, refl)

login_tx-done_example :
    (owner : Owner) × (rest : List Owner) × (owned_db.owners ≡ owner ∷ rest)
    × (check_password login_words owner.password_hash (codes "secret") ≡ true)
    × (codes "t2" ≡ codes "t2")
    × ((transact
          (login_tx env login_words (codes "t2") (codes "c2") (codes "secret"))
          []
          owned_db).1
        ≡ record owned_db {
          sessions =
              owned_db.sessions
              ++ (record {
                hash = env.hash (codes "t2");
                owner_id = owner.id;
                csrf = codes "c2";
                expires = 100 + 28800;
              }
                  ∷ []);
        })
unfolding running
login_tx-done_example =
    login_tx-done env login_words (codes "t2") (codes "c2") (codes "secret") (codes "t2") []
      owned_db
      (transact (login_tx env login_words (codes "t2") (codes "c2") (codes "secret")) [] owned_db).1
      refl

abbrev drawn : Drawn
drawn = record { token = codes "t2"; csrf = codes "c2"; secret = codes "s2" }

abbrev revokes : OwnerRequest
revokes = record {
  tls = true;
  host = codes "budge.test";
  origin = codes "https://budge.test";
  fetch_site = [];
  method = codes "POST";
  path = codes "/revoke-device";
  query_id = [];
  session = some (codes "t1");
  login_csrf = none;
  form = some ((codes "csrf", codes "c1") ∷ (codes "id", codes "d1") ∷ []);
}

owner_tests :
    ((handle_owner env login_words 0 drawn (codes "budge.test") revokes false [] ([], owned_db)).0
      ≡ redirect none)
unfolding running
owner_tests = refl

handle_owner-IsPosted_example :
    ((handle_owner env login_words 0 drawn (codes "budge.test") revokes false [] ([], owned_db)).1.1
      ≡ owned_db)
    ⊎ IsPosted env login_words drawn
        (codes "budge.test")
        revokes
        []
        owned_db
        (handle_owner env login_words 0 drawn
          (codes "budge.test")
          revokes
          false
          []
          ([], owned_db)).1.1
handle_owner-IsPosted_example =
    handle_owner-IsPosted env login_words 0 drawn (codes "budge.test") revokes false [] [] owned_db

abbrev maintained : System
maintained = record (started queued_db) { db = run (maintain env) [] queued_db }

Reach-IsGrown_example : IsGrown Life queued_db maintained.db
Reach-IsGrown_example =
    Reach-IsGrown queued_db maintained Distinct-ids (then_step start (operate (maintain env) []))
