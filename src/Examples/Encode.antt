-- ===== src/Examples/Encode.antt =====
-- An encoding of snapshots that can be read back, for a server whose libraries keep what they are given.
use budge.Base.{
  arith, ◌-◌, ◌≡◌, refl, ap, ℕ, zero, suc, Bool, true, false, Option, none, some, List, [], ◌∷◌,
  length, ◌==◌, if◌then◌else◌,
}
use budge.Base.Text.{Text}
use budge.Access.Syntax.{Url}
use budge.Requests.Types.{Snapshot}
use budge.Requests.Environment.{Environment, IsFaithful}
use budge.Examples.Data.{env}

-- A text put in front of another: its bytes, each one higher, and a zero.
abbrev pub wrap : Text → Text → Text
wrap [] b = 0 ∷ b
wrap (c ∷ k) b = suc c ∷ wrap k b

abbrev push : ℕ → Option (Text × Text) → Option (Text × Text)
push c none = none
push c (some (k, b)) = some (c ∷ k, b)

abbrev pub unwrap : Text → Option (Text × Text)
unwrap [] = none
unwrap (c ∷ b) = let rest = unwrap b in if c == 0 then some ([], b) else push (c - 1) rest

pub unwrap-wrap : (k b : Text) → unwrap (wrap k b) ≡ some (k, b)
unwrap-wrap [] b = refl
unwrap-wrap (c ∷ k) b =
    let positive : (suc c == 0) ≡ false = ground arith in
    rw (positive, unwrap-wrap k b) (ap (λ x. some (x ∷ k, b)) (ground arith))

-- A value in front of a text.
pub record Codec {ℓ} (A : Type ℓ) : Type ℓ where
  pub encode : A → Text → Text
  pub decode : Text → Option (A × Text)
  pub law : (x : A) (b : Text) → decode (encode x b) ≡ some (x, b)

abbrev pub chain {ℓ κ} :
    {A : Type ℓ} {B : Type κ} → Option (A × Text) → (A → Text → Option B) → Option B
chain none k = none
chain (some (x, b)) k = k x b

abbrev text : Codec Text
text = record { encode = wrap; decode = unwrap; law = unwrap-wrap }

abbrev first_number : Text → Option (ℕ × Text)
first_number [] = none
first_number (n ∷ b) = some (n, b)

abbrev number : Codec ℕ
number = record { encode = λ n b. n ∷ b; decode = first_number; law = λ n b. refl }

abbrev both : {A B : Type 0} → Codec A → Codec B → Codec (A × B)
both {A} {B} c d = record {
  encode = λ p b. c.encode p.0 (d.encode p.1 b);
  decode = λ b. chain (c.decode b) λ x b1. chain (d.decode b1) λ y b2. some ((x, y), b2);
  law = λ p b. rw (c.law p.0 (d.encode p.1 b), d.law p.1 b) refl;
}

-- The codec of another type, of whose values `f` tells all.
abbrev through :
    {A B : Type 0} (f : A → B) (g : B → A) → ((x : A) → g (f x) ≡ x) → Codec B → Codec A
through f g e c = record {
  encode = λ x b. c.encode (f x) b;
  decode = λ b. chain (c.decode b) λ y b1. some (g y, b1);
  law = λ x b. rw (c.law (f x) b) (ap (λ y. some (y, b)) (e x));
}

abbrev pub truth : ℕ → Bool
truth zero = false
truth (suc n) = true

abbrev pub bit : Bool → ℕ
bit false = 0
bit true = 1

pub truth-bit : (b : Bool) → truth (bit b) ≡ b
truth-bit true = refl
truth-bit false = refl

abbrev flag : Codec Bool
flag = through bit truth truth-bit number

module _ {A : Type 0} (c : Codec A) where
  abbrev pub encode_all : List A → Text → Text
  encode_all [] b = b
  encode_all (x ∷ xs) b = c.encode x (encode_all xs b)

  abbrev pub decode_all : ℕ → Text → Option (List A × Text)
  decode_all zero b = some ([], b)
  decode_all (suc n) b =
      chain (c.decode b) λ x b1. chain (decode_all n b1) λ xs b2. some (x ∷ xs, b2)

  pub decode_all-encode_all :
      (xs : List A) (b : Text) → decode_all (length xs) (encode_all xs b) ≡ some (xs, b)
  decode_all-encode_all [] b = refl
  decode_all-encode_all (x ∷ xs) b = rw (c.law x (encode_all xs b), decode_all-encode_all xs b) refl

  abbrev list : Codec (List A)
  list = record {
    encode = λ xs b. length xs ∷ encode_all xs b;
    decode = λ b. chain (first_number b) decode_all;
    law = decode_all-encode_all;
  }

abbrev url : Codec Url
url =
    through
      (λ (u : Url). (
        (u.scheme, u.hostname),
        (
          (u.port, u.path),
          ((u.raw_path, u.raw_query), ((u.fragment, u.opaque), (u.user, u.force_query))),
        ),
      ))
      (λ ((s, h), ((p, q), ((r, w), ((f, o), (n, m))))). record {
        scheme = s;
        hostname = h;
        port = p;
        user = n;
        path = q;
        raw_path = r;
        raw_query = w;
        force_query = m;
        fragment = f;
        opaque = o;
      })
      (λ u. refl)
      (both (both text text)
        (both (both text text) (both (both text text) (both (both text text) (both flag flag)))))

abbrev snapshot : Codec Snapshot
snapshot =
    through
      (λ (s : Snapshot). (
        (s.version, (s.revision, s.expires)),
        (
          (s.device_id, s.service_id),
          (
            (s.service_label, s.permission_id),
            (
              (s.credential_ref, s.method),
              ((s.path, s.body), ((s.private_cidr, s.url), s.headers)),
            ),
          ),
        ),
      ))
      (λ ((v, (r, e)), ((d, i), ((l, p), ((c, m), ((q, b), ((n, u), h)))))). record {
        version = v;
        device_id = d;
        service_id = i;
        service_label = l;
        revision = r;
        permission_id = p;
        credential_ref = c;
        url = u;
        method = m;
        path = q;
        headers = h;
        body = b;
        expires = e;
        private_cidr = n;
      })
      (λ s. refl)
      (both (both number (both number number)) (
        both (both text text) (
          both (both text text) (
            both (both text text)
              (both (both text text) (both (both text url) (list (both text text))))))))

abbrev value : Option (Snapshot × Text) → Option Snapshot
value none = none
value (some (s, b)) = some s

abbrev pub vault_env : Environment
vault_env = record env {
  marshal_snapshot = λ s. snapshot.encode s [];
  unmarshal_snapshot = λ b. value (snapshot.decode b);
}

pub vault_env-IsFaithful : (purpose : Text) (s : Snapshot) → IsFaithful vault_env purpose s
vault_env-IsFaithful purpose s = record {
  unseal-seal = refl;
  unmarshal-marshal = ap value (snapshot.law s []);
}
