-- ===== src/Feed/Left.antt =====
-- What src/HttpParser.cpp leaves of a connection when `feed` throws: an append is the first thing that a
-- move does, so a counted body is as it was found, and a chunked one as the rounds before left it.
use webserer_core.Base.{ℕ, zero, suc, Bytes, if◌then◌else◌, length, returned, thrown, hung}
use webserer_core.Buffer
use webserer_core.Buffer.{Buffer}
use webserer_core.Chunked.{leave, onward, again, skip_trailing, then_size, take_data}
use webserer_core.Connection.{Connection}
use webserer_core.Feed.{apply_location_body_limit, feed_headers, feed_line, leave_idle, put_back}
use webserer_core.Request.{HttpRequest}
use webserer_core.Target.{Stat}

-- The buffer and the request where the loop over chunks is left by an exception.
unfoldable pub chunk_left : ℕ → Buffer → HttpRequest → Buffer × HttpRequest
chunk_left zero buf req = (buf, req)
chunk_left (suc rounds) buf req = elim (then_size (skip_trailing buf req)) [
  | leave b r ↦ (b, r)
  | again b r ↦ chunk_left rounds b r
  | onward b r ↦ elim (take_data b r) [
    | thrown ↦ (b, r)
    | hung ↦ (b, r)
    | returned part ↦ elim part [
      | leave c q ↦ (c, q)
      | onward c q ↦ chunk_left rounds c q
      | again c q ↦ chunk_left rounds c q
    ]
  ]
]

unfoldable pub feed_left : (Bytes → Stat) → Connection → Connection
unfolding chunk_left
feed_left stat conn =
    let read = apply_location_body_limit (feed_headers (feed_line stat (leave_idle conn))) in
    if (read.request).chunked
    then put_back read
        (chunk_left (suc (length (Buffer.content read.read_buffer))) read.read_buffer read.request)
    else read
