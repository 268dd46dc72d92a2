-- ===== src/Server/OwnerActs.antt =====
-- The operations in the name of an owner, and that the owner's acts are these.
use budge.Base.{List, ◌≡◌, refl, ◌⊎◌, inl, inr, Bool, if_rule}
use budge.Base.Text.{Text, codes, text_eq}
use budge.Requests.Types.{Outcome, ok, err}
use budge.Requests.Environment.{Environment}
use budge.Store.Tables.{Session, Db}
use budge.Server.System.{
  Operation, decide, add_permission, revoke_permission, disable_service, revoke, add_service,
  invite, logout, run,
}
use budge.Server.OwnerPages.{changed, invited, act, label_rejected}
use budge.Server.OwnerRequests.{Form, get, Drawn, Response}

-- The operations that the owner asks for, in the owner's name.
abbrev pub ByOwner : Text → Operation → Type 0
ByOwner owner (decide env o id digest decision) = o ≡ owner
ByOwner owner (add_permission env o form) = o ≡ owner
ByOwner owner (revoke_permission env o id) = o ≡ owner
ByOwner owner (disable_service env o id) = o ≡ owner
ByOwner owner (revoke env o id) = o ≡ owner
ByOwner owner (add_service env o form) = o ≡ owner
ByOwner owner (invite env secret o label) = o ≡ owner
ByOwner owner (logout env token) = Unit
ByOwner owner _ = ⊥

changed_db : (csrf : Text) (r : Outcome (Unit {0}) × Db) → (changed csrf r).1 ≡ r.1
changed_db csrf (ok u, db) = refl
changed_db csrf (err e, db) = refl

invited_db : (csrf : Text) (r : Outcome Text × Db) → (invited csrf r).1 ≡ r.1
invited_db csrf (ok secret, db) = refl
invited_db csrf (err e, db) = refl

-- What a post of the owner does to the tables.
abbrev Does : Text → List Bool → Db → Response × Db → Type 0
Does owner faults db r = (r.1 ≡ db) ⊎ ((o : Operation) × ByOwner owner o × (r.1 ≡ run o faults db))

pub act-Does :
    (env : Environment) (drawn : Drawn) (s : Session) (token path : Text) (f : Form)
    (faults : List Bool) (db : Db)
    → Does s.owner_id faults db (act env drawn s token path f faults db)
unfolding act run
act-Does env drawn s token path f faults db =
    if_rule (Does s.owner_id faults db) (text_eq path (codes "/decision")) _ _
      (λ _. inr (decide env s.owner_id _ _ _, refl, changed_db s.csrf _))
      λ _.
        if_rule (Does s.owner_id faults db) (text_eq path (codes "/service")) _ _
          (λ _. inr (add_service env s.owner_id _, refl, changed_db s.csrf _))
          λ _.
            if_rule (Does s.owner_id faults db) (text_eq path (codes "/service-revise")) _ _
              (λ _. inr (add_service env s.owner_id _, refl, changed_db s.csrf _))
              λ _.
                if_rule (Does s.owner_id faults db) (text_eq path (codes "/permission")) _ _
                  (λ _. inr (add_permission env s.owner_id _, refl, changed_db s.csrf _))
                  λ _.
                    if_rule (Does s.owner_id faults db) (text_eq path (codes "/invite")) _ _
                      (λ _.
                        if_rule (Does s.owner_id faults db) (label_rejected (get f (codes "label")))
                          _ _ (λ _. inl refl)
                          (λ _.
                            inr (invite env drawn.secret s.owner_id _, refl, invited_db s.csrf _)))
                      λ _.
                        if_rule (Does s.owner_id faults db) (text_eq path (codes "/revoke-device"))
                          _ _ (λ _. inr (revoke env s.owner_id _, refl, changed_db s.csrf _))
                          λ _.
                            if_rule (Does s.owner_id faults db)
                              (text_eq path (codes "/revoke-permission")) _ _
                              (λ _.
                                inr (revoke_permission env s.owner_id _, refl, changed_db s.csrf _))
                              λ _.
                                if_rule (Does s.owner_id faults db)
                                  (text_eq path (codes "/disable-service")) _ _
                                  (λ _.
                                    inr
                                      (disable_service env s.owner_id _, refl, changed_db s.csrf _))
                                  λ _.
                                    if_rule (Does s.owner_id faults db)
                                      (text_eq path (codes "/logout")) _ _
                                      (λ _. inr (logout env token, tt, changed_db s.csrf _))
                                      (λ _. inl refl)
