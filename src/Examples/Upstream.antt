-- ===== src/Examples/Upstream.antt =====
-- Examples of the addresses, the requests to an upstream and the streaming of its response.
use budge.Base.{◌≡◌, refl, Bool, true, false, none, some, List, [], ◌∷◌, ◌⊎◌, All, Any, In}
use budge.Base.Text.{Text, codes, text_eq}
use budge.Upstream.Header.{Field, canonical_key, headers}
use budge.Upstream.Filter.{IsForwarded}
use budge.Upstream.Address.{NetIp, dial}
use budge.Upstream.Dialed.{IsAllowed, dial-IsAllowed}
use budge.Upstream.Send.{Trip, broken, err_not_sent, send, with_credential}
use budge.Upstream.SentFields.{IsCredential, sent_fields, Tells, send-Tells}
use budge.Upstream.Stream.{Round, more, eof, whole, cut, stream_body}
use budge.Upstream.Streamed.{IsPassedOn, body_of, has_end, stream_body-IsPassedOn}
use budge.Examples.Running.{running}

-- Two addresses: `true` is private and in the range `10.0.0.0/8`, `false` is not.
abbrev two : NetIp Bool
two = record {
  unmap = λ a. a;
  is_valid = λ a. true;
  is_loopback = λ a. false;
  is_link_local_unicast = λ a. false;
  is_link_local_multicast = λ a. false;
  is_multicast = λ a. false;
  is_unspecified = λ a. false;
  is_private = λ a. a;
  is_global_unicast = λ a. true;
  contains = λ p a. some (text_eq p (codes "10.0.0.0/8"));
}

dial_tests :
    (dial two (λ a. a) (codes "10.0.0.0/8") (some (false ∷ true ∷ []))
      ≡ (false ∷ true ∷ [], some true))
    × (dial two (λ a. a) [] (some (false ∷ true ∷ [])) ≡ ([], none))
unfolding running
dial_tests = (refl, refl)

abbrev dialed : List Bool
dialed = (dial two (λ a. a) (codes "10.0.0.0/8") (some (false ∷ true ∷ []))).0

dial-IsAllowed_example :
    All
      (λ (a : Bool).
        In a (false ∷ true ∷ [])
        × All (λ (b : Bool). IsAllowed two b (codes "10.0.0.0/8")) (false ∷ true ∷ []))
      dialed
    × ((a : Bool)
        → (dial two (λ a. a) (codes "10.0.0.0/8") (some (false ∷ true ∷ []))).1 ≡ some a
        → In a dialed × (a ≡ true))
dial-IsAllowed_example = dial-IsAllowed two (λ a. a) (codes "10.0.0.0/8") (false ∷ true ∷ [])

abbrev given : List Field
given = (codes "Accept", codes "*/*") ∷ (codes "Cookie", codes "c") ∷ []

abbrev allowed_names : List Text
allowed_names = codes "accept" ∷ codes "cookie" ∷ []

abbrev sent : List Field
sent = (codes "Accept", codes "*/*") ∷ (codes "Authorization", codes "Bearer k") ∷ []

sent_fields_example :
    ((n v : Text)
      → In (n, v) sent
      → IsCredential (λ b. b) (codes "bearer") [] (codes "k") n v
        ⊎ (Any (λ a. canonical_key a ≡ n) allowed_names
            × IsForwarded given [] n v
            × ((w : Text) → ¬ IsCredential (λ b. b) (codes "bearer") [] (codes "k") n w)))
    × ((codes "bearer" ≡ codes "none")
        ⊎ ((n : Text) × (v : Text) × IsCredential (λ b. b) (codes "bearer") [] (codes "k") n v
            × In (n, v) sent))
unfolding running
sent_fields_example =
    sent_fields (λ b. b) (codes "bearer") [] (codes "k") allowed_names given sent refl

-- An exchange without a connection.
abbrev unconnected : List Field → Trip Text
unconnected fields = broken false

send_tests :
    send (λ b. b) (codes "bearer") [] allowed_names true given (codes "k") unconnected
    ≡ err_not_sent
unfolding running
send_tests = refl

send-Tells_example :
    Tells true
      (with_credential (λ b. b) (codes "bearer") [] (codes "k") (headers given allowed_names []))
      unconnected
      (send (λ b. b) (codes "bearer") [] allowed_names true given (codes "k") unconnected)
send-Tells_example =
    send-Tells (λ b. b) (codes "bearer") [] allowed_names true given (codes "k") unconnected

abbrev rounds : List Round
rounds =
    record { bytes = codes "ab"; end = more; write = whole }
    ∷ record { bytes = codes "cd"; end = eof; write = cut 1 }
    ∷ []

stream_tests : (stream_body rounds).written ≡ codes "abc"
unfolding running
stream_tests = refl

stream_body-IsPassedOn_example : IsPassedOn (body_of rounds) (has_end rounds) (stream_body rounds)
stream_body-IsPassedOn_example = stream_body-IsPassedOn rounds
