-- ===== src/Upstream/Streamed.antt =====
-- What `Stream` passes on of a body.
use budge.Base.{
  ℕ, zero, suc, ◌+◌, arith, ◌≡◌, refl, sym, ap, subst, ◌∙◌, Bool, true, false, List, [], ◌∷◌, ◌++◌,
  length, take,
}
use budge.Base.Text.{Text}
use budge.Upstream.Stream.{
  End, more, eof, broken, Write, whole, cut, Round, Streamed, stopped, add_written, after_write,
  after_read, stream_body,
}

-- The bytes of a body up to its end, and whether it has one.
abbrev pub cut_at : End → Text → Text → Text
cut_at more bytes rest = bytes ++ rest
cut_at eof bytes rest = bytes
cut_at broken bytes rest = bytes

unfoldable pub body_of : List Round → Text
body_of [] = []
body_of (r ∷ rs) = cut_at r.end r.bytes (body_of rs)

abbrev ends_at : End → Bool → Bool
ends_at more rest = rest
ends_at eof rest = true
ends_at broken rest = false

unfoldable pub has_end : List Round → Bool
has_end [] = false
has_end (r ∷ rs) = ends_at r.end (has_end rs)

-- The client has got the start of the body, of the length that is returned; without an error it has
-- got the whole body, up to its end.
pub record IsPassedOn (body : Text) (ended : Bool) (s : Streamed) : Type 0 where
  pub total : s.total ≡ length s.written
  pub rest : Text
  pub start : body ≡ s.written ++ rest
  pub whole : s.complete ≡ true → (s.written ≡ body) × (ended ≡ true)

length-append : (a b : Text) → length (a ++ b) ≡ length a + length b
length-append [] b = ground arith
length-append (c ∷ a) b = ground (arith, length-append a b)

stopped-IsPassedOn : (body : Text) → IsPassedOn body false (stopped false)
stopped-IsPassedOn body = record { total = refl; rest = body; start = refl; whole = λ h. cc }

take-append : (n : ℕ) (b : Text) → (rest : Text) × (b ≡ take n b ++ rest)
take-append zero b = (b, refl)
take-append (suc n) [] = ([], refl)
take-append (suc n) (c ∷ b) = let (rest, e) = take-append n b in (rest, ap (λ t. c ∷ t) e)

append_assoc : (a b c : Text) → (a ++ b) ++ c ≡ a ++ (b ++ c)
append_assoc [] b c = refl
append_assoc (x ∷ a) b c = ap (λ t. x ∷ t) (append_assoc a b c)

append_nil : (a : Text) → a ++ [] ≡ a
append_nil [] = refl
append_nil (x ∷ a) = ap (λ t. x ∷ t) (append_nil a)

add-IsPassedOn :
    (b body : Text) (ended : Bool) (s : Streamed)
    → IsPassedOn body ended s
    → IsPassedOn (b ++ body) ended (add_written b s)
add-IsPassedOn b body ended s p = record {
  total = ap (λ n. length b + n) p.total ∙ sym (length-append b s.written);
  rest = p.rest;
  start = ap (λ t. b ++ t) p.start ∙ sym (append_assoc b s.written p.rest);
  whole = λ c. (ap (λ t. b ++ t) (p.whole c).0, (p.whole c).1);
}

-- The end of the body.
done-IsPassedOn : (b : Text) → IsPassedOn b true (add_written b (stopped true))
done-IsPassedOn b =
    subst (λ t. IsPassedOn t true (add_written b (stopped true))) (append_nil b)
      (add-IsPassedOn b [] true (stopped true)
        (record { total = refl; rest = []; start = refl; whole = λ c. (refl, refl) }))

-- A whole write, which is all of the round where nothing was read.
written-IsPassedOn :
    (e : End) (b body : Text) (ended : Bool) (s : Streamed)
    → IsPassedOn body ended s
    → IsPassedOn (cut_at e b body) (ends_at e ended) (add_written b (after_write e s))
written-IsPassedOn more b body ended s p = add-IsPassedOn b body ended s p
written-IsPassedOn eof b body ended s p = done-IsPassedOn b
written-IsPassedOn broken b body ended s p =
    subst (λ t. IsPassedOn t false (add_written b (stopped false))) (append_nil b)
      (add-IsPassedOn b [] false (stopped false) (stopped-IsPassedOn []))

empty-IsPassedOn :
    (e : End) (body : Text) (ended : Bool) (s : Streamed)
    → IsPassedOn body ended s
    → IsPassedOn (cut_at e [] body) (ends_at e ended) (after_write e s)
empty-IsPassedOn more body ended s p = p
empty-IsPassedOn eof body ended s p = record {
  total = refl;
  rest = [];
  start = refl;
  whole = λ c. (refl, refl);
}
empty-IsPassedOn broken body ended s p = stopped-IsPassedOn []

cut_at-append : (e : End) (b body : Text) → (rest : Text) × (cut_at e b body ≡ b ++ rest)
cut_at-append more b body = (body, refl)
cut_at-append eof b body = ([], sym (append_nil b))
cut_at-append broken b body = ([], sym (append_nil b))

-- A write that an error cuts short.
cut-IsPassedOn :
    (n : ℕ) (e : End) (b body : Text) (ended : Bool)
    → IsPassedOn (cut_at e b body) (ends_at e ended) (add_written (take n b) (stopped false))
cut-IsPassedOn n e b body ended =
    let (after, q) = take-append n b in
    let (later, r) = cut_at-append e b body in
    record {
      total = sym (length-append (take n b) []);
      rest = after ++ later;
      start =
          r
          ∙ ap (λ t. t ++ later) q
          ∙ append_assoc (take n b) after later
          ∙ ap (λ t. t ++ (after ++ later)) (sym (append_nil (take n b)));
      whole = λ c. cc;
    }

round-IsPassedOn :
    (b : Text) (w : Write) (e : End) (body : Text) (ended : Bool) (s : Streamed)
    → IsPassedOn body ended s
    → IsPassedOn (cut_at e b body) (ends_at e ended) (after_read b w e s)
round-IsPassedOn [] w e body ended s p = empty-IsPassedOn e body ended s p
round-IsPassedOn (c ∷ b) whole e body ended s p = written-IsPassedOn e (c ∷ b) body ended s p
round-IsPassedOn (c ∷ b) (cut n) e body ended s p = cut-IsPassedOn n e (c ∷ b) body ended

-- `Stream` passes on the bytes of the body in order: the client gets a start of the body, the total
-- that is returned is its length, and where the error is nil it is the whole body, whose reads
-- ended with `io.EOF`.
pub stream_body-IsPassedOn :
    (rounds : List Round) → IsPassedOn (body_of rounds) (has_end rounds) (stream_body rounds)
unfolding stream_body body_of has_end
stream_body-IsPassedOn [] = stopped-IsPassedOn []
stream_body-IsPassedOn (r ∷ rs) =
    round-IsPassedOn r.bytes r.write r.end (body_of rs) (has_end rs) (stream_body rs)
      (stream_body-IsPassedOn rs)
