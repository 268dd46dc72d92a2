-- ===== src/Server/OwnerChanges.antt =====
-- Which requests to `OwnerHandler` change the tables.
use budge.Base.{
  ℕ, arith, List, ◌≡◌, refl, sym, ap, ◌∙◌, ◌⊎◌, inl, inr, Bool, true, false, not, ◌&&◌, Option,
  none, some, if◌then◌else◌, Bool-cases, if_rule,
}
use mathlib.Core.Option.{some-injective}
use budge.Base.Text.{Text, codes, text_eq, text_eq_iff}
use budge.Access.Syntax.{is_empty}
use budge.Requests.Types.{Outcome, ok, err}
use budge.Requests.Environment.{Environment}
use budge.Store.Tables.{Session, Db}
use budge.Server.Handler.{Throttles}
use budge.Server.Session.{Passwords, handle_login}
use budge.Server.System.{Operation, login, run}
use budge.Server.OwnerPages.{
  known, same_csrf, cookie, act, with_times, logged_in, post_login, post_action, post, is_static,
  is_home, handle_owner,
}
use budge.Server.OwnerRequests.{
  Form, get, OwnerRequest, Drawn, Response, origin_rejected, session_of,
}
use budge.Server.OwnerActs.{ByOwner, act-Does}

-- A login: the posted CSRF value is that of the login page's cookie.
pub record IsLogin (env : Environment) (w : Passwords) (drawn : Drawn) (r : OwnerRequest)
    (faults : List Bool) (db db' : Db) : Type 0 where
  pub form : Form
  pub parsed : r.form ≡ some form
  pub to_login : r.path ≡ codes "/login"
  pub csrf : same_csrf (cookie r.login_csrf) form ≡ true
  pub done : db' ≡ run (login env w drawn.token drawn.csrf (get form (codes "password"))) faults db

-- A change: the request has a live session, and posts its CSRF value.
pub record IsChange (env : Environment) (r : OwnerRequest) (faults : List Bool) (db db' : Db)
    : Type 0 where
  pub form : Form
  pub parsed : r.form ≡ some form
  pub session : Session
  pub live : session_of env db r.session ≡ some session
  pub named : is_empty session.owner_id ≡ false
  pub csrf : same_csrf session.csrf form ≡ true
  pub operation : Operation
  pub by_owner : ByOwner session.owner_id operation
  pub done : db' ≡ run operation faults db

-- What the handler may do.
pub record IsPosted (env : Environment) (w : Passwords) (drawn : Drawn) (owner_host : Text)
    (r : OwnerRequest) (faults : List Bool) (db db' : Db) : Type 0 where
  pub origin : origin_rejected owner_host r ≡ false
  pub method : r.method ≡ codes "POST"
  pub does : IsLogin env w drawn r faults db db' ⊎ IsChange env r faults db db'

module _ (env : Environment) (w : Passwords) (clock : ℕ) (drawn : Drawn) (r : OwnerRequest)
    (faults : List Bool) (times : Throttles) (db : Db) where
  abbrev Acts : Db → Type 0
  Acts db' = (db' ≡ db) ⊎ (IsLogin env w drawn r faults db db' ⊎ IsChange env r faults db db')

  logged_in_db : (o : Outcome Text × (Throttles × Db)) → (logged_in o).1.1 ≡ o.1.1
  logged_in_db (ok token, s) = refl
  logged_in_db (err e, s) = refl

  login_db :
      (password : Text)
      → ((handle_login env w clock drawn.token drawn.csrf password faults (times, db)).1.1 ≡ db)
        ⊎ ((handle_login env w clock drawn.token drawn.csrf password faults (times, db)).1.1
            ≡ run (login env w drawn.token drawn.csrf password) faults db)
  unfolding handle_login run
  login_db password =
      if_rule
        (λ (o : Outcome Text × (Throttles × Db)).
          (o.1.1 ≡ db) ⊎ (o.1.1 ≡ run (login env w drawn.token drawn.csrf password) faults db))
        _ _ _ (λ _. inr refl) (λ _. inl refl)

  post_login-Acts :
      (f : Form)
      → r.form ≡ some f
      → r.path ≡ codes "/login"
      → Acts (post_login env w clock drawn r f faults (times, db)).1.1
  post_login-Acts f parsed there =
      if_rule (λ (o : Response × (Throttles × Db)). Acts o.1.1) (same_csrf (cookie r.login_csrf) f)
        _ _
        (λ good. elim (login_db (get f (codes "password"))) [
          | inl e ↦ inl (logged_in_db _ ∙ e)
          | inr e ↦ inr (
              inl (record {
                form = f;
                parsed = parsed;
                to_login = there;
                csrf = good;
                done = logged_in_db _ ∙ e;
              }))
        ])
        (λ bad. inl refl)

  with_times_db : (o : Response × Db) → (with_times times o).1.1 ≡ o.1
  with_times_db (a, b) = refl

  post_action-Acts :
      (f : Form)
      → r.form ≡ some f
      → (session : Option Session)
      → ((s : Session)
          → session ≡ some s
          → (session_of env db r.session ≡ some s) × (is_empty s.owner_id ≡ false))
      → Acts (post_action env drawn r f session faults (times, db)).1.1
  post_action-Acts f parsed none live = inl refl
  post_action-Acts f parsed (some s) live =
      if_rule (λ (o : Response × (Throttles × Db)). Acts o.1.1) (same_csrf s.csrf f) _ _
        (λ good. elim (act-Does env drawn s (cookie r.session) r.path f faults db) [
          | inl e ↦ inl (with_times_db (act env drawn s (cookie r.session) r.path f faults db) ∙ e)
          | inr (o, by, e) ↦ inr (
              inr (record {
                form = f;
                parsed = parsed;
                session = s;
                live = (live s refl).0;
                named = (live s refl).1;
                csrf = good;
                operation = o;
                by_owner = by;
                done = with_times_db (act env drawn s (cookie r.session) r.path f faults db) ∙ e;
              }))
        ])
        (λ bad. inl refl)

  post-Acts :
      (form : Option Form)
      → r.form ≡ form
      → (session : Option Session)
      → ((s : Session)
          → session ≡ some s
          → (session_of env db r.session ≡ some s) × (is_empty s.owner_id ≡ false))
      → Acts (post env w clock drawn r form session faults (times, db)).1.1
  post-Acts none parsed session live = inl refl
  post-Acts (some f) parsed session live =
      if_rule (λ (o : Response × (Throttles × Db)). Acts o.1.1) (text_eq r.path (codes "/login")) _
        _ (λ there. post_login-Acts f parsed ((text_eq_iff r.path (codes "/login")).0 there))
        (λ other. post_action-Acts f parsed session live)

known-some :
    (o : Option Session) (s : Session)
    → known o ≡ some s
    → (o ≡ some s) × (is_empty s.owner_id ≡ false)
known-some none s h = cc
known-some (some t) s h = elim (Bool-cases (is_empty t.owner_id)) [
  | inl e ↦ let q : ◌≡◌ {A = Option Session} none (some s) = rw e at h in cc
  | inr e ↦
      let q : some t ≡ some s = rw e at h in
      let same = some-injective t s q in
      (q, ap (λ (x : Session). is_empty x.owner_id) (sym same) ∙ e)
]

abbrev Leaves :
    Environment
    → Passwords
    → Drawn
    → Text
    → OwnerRequest
    → List Bool
    → Db
    → Response × (Throttles × Db)
    → Type 0
Leaves env w drawn owner_host r faults db o =
    (o.1.1 ≡ db) ⊎ IsPosted env w drawn owner_host r faults db o.1.1

-- `OwnerHandler` changes the tables for a POST from the owner's origin only: for a login whose CSRF
-- value is that of the login page's cookie, or for an operation in the name of the owner of a live
-- session whose CSRF value was posted. Every other request leaves the tables as they were.
pub handle_owner-IsPosted :
    (env : Environment) (w : Passwords) (clock : ℕ) (drawn : Drawn) (owner_host : Text)
    (r : OwnerRequest) (lost : Bool) (faults : List Bool) (times : Throttles) (db : Db)
    → ((handle_owner env w clock drawn owner_host r lost faults (times, db)).1.1 ≡ db)
      ⊎ IsPosted env w drawn owner_host r faults db
          (handle_owner env w clock drawn owner_host r lost faults (times, db)).1.1
unfolding handle_owner
handle_owner-IsPosted env w clock drawn owner_host r lost faults times db =
    if_rule (Leaves env w drawn owner_host r faults db) (origin_rejected owner_host r) _ _
      (λ _. inl refl)
      λ origin.
        if_rule (Leaves env w drawn owner_host r faults db) (is_static r) _ _ (λ _. inl refl)
          λ _.
            if_rule (Leaves env w drawn owner_host r faults db)
              (text_eq r.method (codes "GET") && text_eq r.path (codes "/request")) _ _
              (λ _. inl refl)
              λ _.
                if_rule (Leaves env w drawn owner_host r faults db)
                  (text_eq r.method (codes "GET") && is_home r) _ _ (λ _. inl refl)
                  λ _.
                    if_rule (Leaves env w drawn owner_host r faults db)
                      (not (text_eq r.method (codes "POST"))) _ _ (λ _. inl refl)
                      λ m.
                        elim (post-Acts env w clock drawn r faults times db r.form refl
                          (known (if lost then none else session_of env db r.session))
                          (λ s e. live lost s e)) [
                            | inl e ↦ inl e
                            | inr d ↦ inr (record {
                              origin = origin;
                              method = (text_eq_iff r.method (codes "POST")).0 (ground (arith, m));
                              does = d;
                            })
                          ]
  where
    live :
        (lost : Bool) (s : Session)
        → known (if lost then none else session_of env db r.session) ≡ some s
        → (session_of env db r.session ≡ some s) × (is_empty s.owner_id ≡ false)
    live true s e = cc
    live false s e = known-some (session_of env db r.session) s e
