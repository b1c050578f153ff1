-- ===== src/Examples/Resume/Range.antt =====
-- The Range header of examples/http_resume_stream/main.go: fmt.Sprintf("bytes=%d-", n) of the client,
-- and what the handler reads from it.
use resile.Propagation.Format.{decimal_onto}
use resile.Propagation.Reading.{read_number}
use resile.Prelude.{ℕ, ◌^◌, Option, none, some, List, [], ◌∷◌, ltb, ◌==◌, if◌then◌else◌}

abbrev pub dash : ℕ
dash = b'-'

-- "bytes=".
abbrev pub bytes_unit : List ℕ
bytes_unit = b'b' ∷ b'y' ∷ b't' ∷ b'e' ∷ b's' ∷ b'=' ∷ []

-- The header of the client's request; a header that is not set is empty.
unfoldable pub range_header : ℕ → List ℕ
unfolding decimal_onto
range_header received =
    if ltb 0 received
    then b'b' ∷ b'y' ∷ b't' ∷ b'e' ∷ b's' ∷ b'=' ∷ decimal_onto received (dash ∷ [])
    else []

-- What follows a prefix, if the text has it: strings.HasPrefix and TrimPrefix.
abbrev pub after_prefix : List ℕ → List ℕ → Option (List ℕ)
after_prefix [] cs = some cs
after_prefix (p ∷ ps) [] = none
after_prefix (p ∷ ps) (c ∷ cs) = if p == c then after_prefix ps cs else none

-- The first part of strings.Split(text, "-").
unfoldable pub first_part : List ℕ → List ℕ
first_part [] = []
first_part (c ∷ cs) = let rest = first_part cs in if c == dash then [] else c ∷ rest

abbrev pub strip_plus : List ℕ → List ℕ
strip_plus [] = []
strip_plus (c ∷ cs) = if c == b'+' then cs else c ∷ cs

abbrev pub in_int64 : ℕ × List ℕ → Option ℕ
in_int64 (n, []) = if ltb n (2 ^ 63) then some n else none
in_int64 (n, c ∷ cs) = none

abbrev pub number_in : List ℕ → Option ℕ
number_in [] = none
number_in (c ∷ cs) = in_int64 (read_number 0 (c ∷ cs))

-- strconv.ParseInt(text, 10, 64) of a text without a minus sign; `none` is an error.
unfoldable pub parse_int : List ℕ → Option ℕ
unfolding read_number
parse_int cs = number_in (strip_plus cs)

abbrev pub start_in : Option (List ℕ) → Option ℕ
start_in none = none
start_in (some cs) = parse_int (first_part cs)

-- `start`, where the request is for a part of the file. An empty part is no number either.
unfoldable pub parse_range : List ℕ → Option ℕ
unfolding parse_int first_part
parse_range header = start_in (after_prefix bytes_unit header)
