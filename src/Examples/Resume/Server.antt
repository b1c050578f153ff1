-- ===== src/Examples/Resume/Server.antt =====
-- The handler of examples/http_resume_stream/main.go: a range request of the file, with connections
-- that drop.
use Prim.Native.Nat.{min}
use resile.Examples.Resume.Range.{parse_range}
use resile.Prelude.{
  ℕ, zero, suc, ◌+◌, ◌-◌, ◌*◌, ◌%◌, Bool, true, false, ◌&&◌, Option, none, some, List, [], ◌∷◌,
  ◌++◌, length, take, drop, ltb, leb, if◌then◌else◌,
}

abbrev pub file_size : ℕ
file_size = 50 * 1024

-- fileContent, from its byte i on.
abbrev pub bytes_from : ℕ → ℕ → List ℕ
bytes_from i zero = []
bytes_from i (suc n) = i % 256 ∷ bytes_from (i + 1) n

abbrev pub file_content : ℕ → List ℕ
file_content size = bytes_from 0 size

abbrev pub status_ok : ℕ
status_ok = 200

abbrev pub status_partial_content : ℕ
status_partial_content = 206

abbrev pub status_range_not_satisfiable : ℕ
status_range_not_satisfiable = 416

-- What the handler wrote, and whether the connection broke before it was done.
pub record Response : Type 0 where
  pub status : ℕ
  pub body : List ℕ
  pub broken : Bool

-- What the handler finds, of one request: whether rand.Float32() is below 0.6, the random number
-- behind rand.Int64N, whether the ResponseWriter is a Hijacker, and at which offsets its Write fails.
pub record Luck : Type 0 where
  pub drops : Bool
  pub random : ℕ
  pub is_hijacker : Bool
  pub write_fails : ℕ → Bool

abbrev pub chunk_size : ℕ
chunk_size = 1024

-- failAfter, where -1 is `none`.
abbrev pub fail_after : Luck → ℕ → Option ℕ
fail_after luck remaining =
    if luck.drops && ltb 1024 remaining then some (luck.random % (remaining - 512) + 512) else none

abbrev pub is_reached : Option ℕ → ℕ → Bool
is_reached none written = false
is_reached (some k) written = leb k written

-- The loop that writes the file from `start` on, on fuel: what is written, and whether the connection
-- is broken.
module _ (luck : Luck) (content : List ℕ) (start remaining : ℕ) where
  unfoldable pub write_from : ℕ → ℕ → List ℕ → List ℕ × Bool
  write_from zero written body = (body, false)
  write_from (suc fuel) written body =
      let n = min chunk_size (remaining - written) in
      let rest = write_from fuel (written + n) (body ++ take n (drop (start + written) content)) in
      if ltb written remaining
      then (if is_reached (fail_after luck remaining) written
          then (body, luck.is_hijacker)
          else if luck.write_fails written
          then (body, true)
          else rest)
      else (body, false)

abbrev pub or_start : Option ℕ → ℕ
or_start none = 0
or_start (some s) = s

abbrev pub status_of : Option ℕ → ℕ
status_of none = status_ok
status_of (some s) = status_partial_content

-- The handler, of a request with this Range header.
unfoldable pub handle : Luck → List ℕ → List ℕ → Response
unfolding write_from parse_range
handle luck content header =
    let range = parse_range header in
    let start = or_start range in
    let size = length content in
    let (body, broken) = write_from luck content start (size - start) (size - start) 0 [] in
    if leb size start
    then record { status = status_range_not_satisfiable; body = []; broken = false }
    else record { status = status_of range; body = body; broken = broken }
