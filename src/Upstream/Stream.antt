-- ===== src/Upstream/Stream.antt =====
-- internal/upstream/http.go: `Stream`. The reads of the response's body and the writes to the client
-- are net/http's.
use budge.Base.{ℕ, ◌+◌, Bool, true, false, List, [], ◌∷◌, ◌++◌, length, take}
use budge.Base.Text.{Text}
use budge.Upstream.Header.{Field, headers}

-- The error of a read: none, `io.EOF`, or another.
pub data End : Type 0 where
  more eof broken : End

-- What a write does with its bytes: it takes all, or ends in an error after some.
pub data Write : Type 0 where
  whole : Write
  cut : (n : ℕ) → Write

-- A round of the loop: the read, and the write of its bytes, if there are any.
pub record Round : Type 0 where
  pub bytes : Text
  pub end : End
  pub write : Write

-- What reaches the client, the total that is returned, and whether the error is nil.
pub record Streamed : Type 0 where
  pub written : Text
  pub total : ℕ
  pub complete : Bool

abbrev pub stopped : Bool → Streamed
stopped complete = record { written = []; total = 0; complete = complete }

-- `total += int64(written)`.
abbrev pub add_written : Text → Streamed → Streamed
add_written b s = record {
  written = b ++ s.written;
  total = length b + s.total;
  complete = s.complete;
}

-- The tests of the read's error, at the end of the loop's body.
abbrev pub after_write : End → Streamed → Streamed
after_write more rest = rest
after_write eof rest = stopped true
after_write broken rest = stopped false

-- The write, which a read without bytes leaves out; its error ends the loop.
abbrev pub after_read : Text → Write → End → Streamed → Streamed
after_read [] w e rest = after_write e rest
after_read (c ∷ b) whole e rest = add_written (c ∷ b) (after_write e rest)
after_read (c ∷ b) (cut n) e rest = add_written (take n (c ∷ b)) (stopped false)

-- The loop. Rounds that end without an error or `io.EOF` are those of a broken body.
unfoldable pub stream_body : List Round → Streamed
stream_body [] = stopped false
stream_body (r ∷ rs) = after_read r.bytes r.write r.end (stream_body rs)

-- `Stream`: the fields that the client gets, and the body.
unfoldable pub stream : List Field → List Text → List Round → List Field × Streamed
unfolding headers stream_body
stream fields allowed rounds = (headers fields allowed [], stream_body rounds)
