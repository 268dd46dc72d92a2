-- ===== src/Server/Login.antt =====
-- What a login checks, and that `CheckPassword` accepts what `Password` made.
use budge.Base.{
  ◌+◌, arith, ◌≡◌, refl, sym, ap, ap₂, subst, ◌∙◌, ◌↔◌, inl, inr, Bool, true, ◌==◌, some, List, [],
  ◌∷◌, ◌++◌, length, In, Bool-cases, ==_iff,
}
use budge.Base.Text.{Text, codes, text_eq_iff, split, split-append}
use budge.Requests.Types.{http, ok}
use budge.Requests.Environment.{Environment}
use mathlib.Core.Option.{some-injective}
use budge.Store.Tables.{Owner, Session, Db}
use budge.Store.Transaction.{Conn, lift, guard, query, exec_checked, transact}
use budge.Store.Inversion.{
  done_inj, lift-done, guard-done, query-done, bind-done, exec_checked-done, transact-ok,
}
use budge.Server.Authorize.{or_else}
use budge.Server.Authorized.{or_else-ok}
use budge.Server.Handler.{unavailable}
use budge.Server.Session.{
  Passwords, hash_password, check_password, first_owner, insert_session, new_session, login_tx,
}

-- What is used of base64 and of Argon2: base64 reads back what it wrote, and writes no full stop.
pub record IsPrintable (w : Passwords) : Type 0 where
  pub decode-encode : (b : Text) → w.decode (w.encode b) ≡ some b
  pub no_stop : (b : Text) → ¬ In b'.' (w.encode b)

no_split : (s : Text) → ¬ In b'.' s → split b'.' s ≡ s ∷ []
unfolding split
no_split [] n = refl
no_split (c ∷ s) n = elim (Bool-cases (c == b'.')) [
  | inl e ↦ absurd (n (inl (sym ((==_iff c b'.').0 e))))
  | inr e ↦ rw (e, no_split s (λ m. n (inr m))) refl
]

parts : (s t : Text) → ¬ In b'.' s → ¬ In b'.' t → split b'.' (s ++ (b'.' ∷ t)) ≡ s ∷ t ∷ []
parts s t n m =
    split-append b'.' s t ∙ ap₂ (λ (a b : List Text). a ++ b) (no_split s n) (no_split t m)

-- For a salt of 16 bytes, `CheckPassword` accepts for what `Password` made of a password exactly
-- the texts with the same key under the salt, the password itself among them.
pub check_password-hash_password :
    (w : Passwords) (salt password q : Text)
    → IsPrintable w
    → length salt ≡ 16
    → (check_password w (hash_password w salt password) q ≡ true)
      ↔ (w.key password salt ≡ w.key q salt)
unfolding check_password hash_password
check_password-hash_password w salt password q p n =
    rw
      (
        parts (w.encode salt) (w.encode (w.key password salt)) (p.no_stop salt)
            (p.no_stop (w.key password salt)),
        p.decode-encode salt,
        p.decode-encode (w.key password salt),
        n,
      )
      (text_eq_iff (w.key password salt) (w.key q salt))

insert_session-some :
    (s : Session) (db db' : Db)
    → insert_session s db ≡ some db'
    → db' ≡ record db { sessions = db.sessions ++ (s ∷ []) }
unfolding insert_session
insert_session-some s db db' h = ground (arith, h)

first_owner-some :
    (db : Db) (o : Owner) → first_owner db ≡ some o → (rest : List Owner) × (db.owners ≡ o ∷ rest)
unfolding first_owner
first_owner-some db o = go db.owners
  where
    go :
        (l : List Owner)
        → first_owner (record db { owners = l }) ≡ some o
        → (rest : List Owner) × (l ≡ o ∷ rest)
    go [] h = cc
    go (x ∷ l) h = (l, ap (λ y. y ∷ l) (some-injective x o h))

-- When `login` comes through, the password passed `CheckPassword` against the hash of the first
-- owner, and the tables are as before but for one session more: the owner's, for eight hours, under
-- the hash of the token that is answered.
pub login_tx-done :
    (env : Environment) (w : Passwords) (token csrf password answer : Text) (faults : List Bool)
    (db db' : Db)
    → transact (login_tx env w token csrf password) faults db ≡ (ok answer, db')
    → (owner : Owner) × (rest : List Owner) × (db.owners ≡ owner ∷ rest)
      × (check_password w owner.password_hash password ≡ true)
      × (answer ≡ token)
      × (db' ≡ record db {
        sessions =
            db.sessions
            ++ (record {
              hash = env.hash token;
              owner_id = owner.id;
              csrf = csrf;
              expires = env.now + 28800;
            }
                ∷ []);
      })
unfolding login_tx new_session
login_tx-done env w token csrf password answer faults db db' h =
    let (d, came, same) = transact-ok (login_tx env w token csrf password) faults db h in
    let (found, c1, e1, h1) =
      bind-done (query (http 401 (codes "invalid_login")) first_owner) _ _ came in
    let (owner, c2, e2, h2) = bind-done (lift (or_else _ found)) _ c1 h1 in
    let (u3, c3, e3, h3) =
      bind-done (guard (check_password w owner.password_hash password) _) _ c2 h2 in
    let (u4, c4, e4, h4) = bind-done (exec_checked unavailable _) _ c3 h3 in
    let (value, conn) = done_inj h4 in
    let (f, s1) = query-done _ first_owner _ e1 in
    let (o, s2) = lift-done (or_else _ found) c1 e2 in
    let (good, s3) = guard-done (check_password w owner.password_hash password) _ c2 e3 in
    let before : c3.db ≡ db = ap (λ (x : Conn). x.db) s3 ∙ ap (λ (x : Conn). x.db) s2 ∙ s1 in
    let after : c4.db ≡ db' = ap (λ (x : Conn). x.db) conn ∙ same in
    let (rest, first) = first_owner-some db owner (sym f ∙ or_else-ok _ found o) in
    (
      owner,
      rest,
      first,
      good,
      sym value,
      insert_session-some (new_session env token csrf owner) db db' (
          subst (λ x. insert_session (new_session env token csrf owner) db ≡ some x) after
            (subst (λ x. insert_session (new_session env token csrf owner) x ≡ some c4.db) before
              (exec_checked-done _ _ c3 e4))),
    )
