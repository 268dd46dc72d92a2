-- ===== src/Server/Growth.antt =====
-- How an operation may change the table of requests: rows move along given moves of their status,
-- new rows are appended, identifiers stay distinct, and a used invitation stays used.
use budge.Base.{ℕ, All, Any, ◌≡◌, sym, subst, Bool, true, List, [], ◌∷◌, ◌++◌}
use budge.Base.Text.{Text}
use budge.Requests.Types.{sql_error}
use budge.Store.Tables.{Status, RequestRow, InvitationRow, Db}
use budge.Store.Transaction.{Conn, for_each}
use budge.Store.Relates.{left, IsPreorder, Relates, query-cases}
use budge.Server.Maintenance.{request_ids, end_request, end_requests}
use budge.Server.Lifecycle.{
  IsMoved, IsMoved_refl, IsMoved-trans, Pointwise, Pointwise-map, Moved-ids, Distinct, ids_of,
}
use budge.Server.Framed.{InLoop, InLoop-start, loop-Relates}

-- An invitation with the hash is there, and every such invitation was used.
abbrev pub IsSpent : Text → List InvitationRow → Type 0
IsSpent h l =
    Any (λ (i : InvitationRow). i.hash ≡ h) l
    × All (λ (i : InvitationRow). i.hash ≡ h → i.used ≡ true) l

module _ (S : Status → Status → Type 0) where
  abbrev pub Grows : List RequestRow → List RequestRow → Type 0
  Grows [] ys = Unit
  Grows (x ∷ xs) [] = ⊥
  Grows (x ∷ xs) (y ∷ ys) = IsMoved S x y × Grows xs ys

  Grows-refl : (xs : List RequestRow) → Grows xs xs
  Grows-refl [] = tt
  Grows-refl (x ∷ xs) = (IsMoved_refl x, Grows-refl xs)

  Grows-trans : (xs ys zs : List RequestRow) → Grows xs ys → Grows ys zs → Grows xs zs
  Grows-trans [] ys zs h k = tt
  Grows-trans (x ∷ xs) [] zs h k = elim h [ ]
  Grows-trans (x ∷ xs) (y ∷ ys) [] h k = elim k [ ]
  Grows-trans (x ∷ xs) (y ∷ ys) (z ∷ zs) (m, h) (n, k) =
      (IsMoved-trans m n, Grows-trans xs ys zs h k)

  pub Grows-of_Pointwise : (xs ys : List RequestRow) → Pointwise (IsMoved S) xs ys → Grows xs ys
  Grows-of_Pointwise [] ys h = tt
  Grows-of_Pointwise (x ∷ xs) [] h = h
  Grows-of_Pointwise (x ∷ xs) (y ∷ ys) (m, h) = (m, Grows-of_Pointwise xs ys h)

  pub Grows-append : (xs ys : List RequestRow) → Grows xs (xs ++ ys)
  Grows-append [] ys = tt
  Grows-append (x ∷ xs) ys = (IsMoved_refl x, Grows-append xs ys)

  -- The relation of an operation to the tables: see the top.
  pub record IsGrown (a b : Db) : Type 0 where
    pub grown : Grows a.requests b.requests
    pub distinct : Distinct (ids_of b.requests)
    pub spent : (h : Text) → IsSpent h a.invitations → IsSpent h b.invitations

-- The primary key of the requests.
abbrev pub HasKeys : Db → Type 0
HasKeys db = Distinct (ids_of db.requests)

-- The invitations are the same.
pub IsSpent-same :
    (a b : Db)
    → b.invitations ≡ a.invitations
    → (h : Text) → IsSpent h a.invitations
    → IsSpent h b.invitations
IsSpent-same a b e h q = subst (IsSpent h) (sym e) q

module _ (S : Status → Status → Type 0) where
  pub growth : IsPreorder HasKeys (IsGrown S)
  growth = record {
    reflexive = λ db k. record { grown = Grows-refl S db.requests; distinct = k; spent = λ h q. q };
    transitive = λ a b c h k. record {
      grown = Grows-trans S a.requests b.requests c.requests h.grown k.grown;
      distinct = k.distinct;
      spent = λ x q. k.spent x (h.spent x q);
    };
    keeps = λ a b h. h.distinct;
  }

  -- Rows that only move.
  pub IsGrown-of_moved :
      (a b : Db)
      → HasKeys a
      → Pointwise (IsMoved S) a.requests b.requests
      → b.invitations ≡ a.invitations
      → IsGrown S a b
  IsGrown-of_moved a b k h i = record {
    grown = Grows-of_Pointwise S a.requests b.requests h;
    distinct = subst Distinct (sym (Moved-ids S a.requests b.requests h)) k;
    spent = λ x q. subst (IsSpent x) (sym i) q;
  }

  -- Tables whose requests are the same.
  pub IsGrown-same :
      (a b : Db)
      → HasKeys a
      → b.requests ≡ a.requests
      → ((h : Text) → IsSpent h a.invitations → IsSpent h b.invitations)
      → IsGrown S a b
  IsGrown-same a b k e i = record {
    grown = subst (λ rows. Grows S a.requests rows) (sym e) (Grows-refl S a.requests);
    distinct = subst (λ rows. Distinct (ids_of rows)) (sym e) k;
    spent = i;
  }

  -- A query for the identifiers of some rows, and the loop that ends them.
  pub end_requests-Relates :
      (from : Status → Bool) (target : Status)
      → ((s : Status) → from s ≡ true → S s target)
      → (p : RequestRow → Bool) → ((r : RequestRow) → p r ≡ true → from r.status ≡ true)
      → (kind reason : Text) (now : ℕ)
      → Relates HasKeys (IsGrown S) (end_requests p target kind reason now)
  unfolding end_requests
  end_requests-Relates from target edge p fits kind reason now = record { relate = run }
    where
      run :
          (c : Conn)
          → HasKeys c.db
          → IsGrown S c.db (left (end_requests p target kind reason now c))
      run c k =
          query-cases (λ r. IsGrown S c.db (left r)) sql_error (request_ids p)
            (λ ids. for_each ids (end_request target kind reason now)) c
            (λ fs. ended fs (
              (loop-Relates S from target edge c.db reason kind now (request_ids p c.db)).relate _
                (InLoop-start S from target edge c.db p fits k)))
            (λ fs. growth.reflexive c.db k)
        where
          ended :
              (fs : List Bool)
              → InLoop S from target edge c.db (request_ids p c.db) (
                  left (
                    for_each
                      (request_ids p c.db)
                      (end_request target kind reason now)
                      (record { db = c.db; faults = fs })))
              → IsGrown S c.db (
                  left (
                    for_each
                      (request_ids p c.db)
                      (end_request target kind reason now)
                      (record { db = c.db; faults = fs })))
          ended fs inv =
              IsGrown-of_moved c.db _ k (Pointwise-map (λ x y w. w.moved) _ _ inv.moved)
                inv.framed.invitations
