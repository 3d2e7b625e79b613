-- ===== src/Sse.antt =====
-- common/sse.py and the router's reading of such a stream (`_stream_decode` of
-- services/router/main.py): frames of server-sent events. The JSON parser and printer are a
-- parameter.
pub mod Reading
pub mod Tests
use mini_dynamo.Prelude.{
  ℕ, ◌≡◌, ite, Bool, true, false, ◌&&◌, ◌||◌, not, Option, none, some, List, [], ◌∷◌, ◌++◌, Text,
  codes, is_empty, Text_discrete, if◌then◌else◌, leb, ◌==◌,
}

-- What the program asks of JSON: `json.loads` (none where it raises `JSONDecodeError`),
-- `json.dumps` without spaces, and of a value whether it is an object (others have no method
-- `get`), whether its field `token` is true and whether its `finish_reason` is not null.
pub record Frames (J : Type 0) : Type 0 where
  pub loads : Text → Option J
  pub dumps : J → Text
  pub is_object : J → Bool
  pub has_token : J → Bool
  pub has_finish : J → Bool

-- White space as `str.strip` takes it.
unfoldable pub is_space : ℕ → Bool
is_space c =
    (leb 9 c && leb c 13)
    || (leb 28 c && leb c 32)
    || (c == 0x85)
    || (c == 0xa0)
    || (c == 0x1680)
    || (leb 0x2000 c && leb c 0x200a)
    || (c == 0x2028)
    || (c == 0x2029)
    || (c == 0x202f)
    || (c == 0x205f)
    || (c == 0x3000)

unfoldable pub strip_left : Text → Text
strip_left [] = []
strip_left (c ∷ s) = let rest = strip_left s in if is_space c then rest else c ∷ s

-- A space at the end goes when nothing else stands behind it.
unfoldable pub strip_right : Text → Text
strip_right [] = []
strip_right (c ∷ s) =
    let rest = strip_right s in if is_space c && is_empty rest then [] else c ∷ rest

unfoldable pub strip : Text → Text
strip s = strip_right (strip_left s)

-- What is left of the line behind the prefix, when it starts with it.
unfoldable pub after_prefix : Text → Text → Option Text
after_prefix [] s = some s
after_prefix (p ∷ ps) [] = none
after_prefix (p ∷ ps) (c ∷ s) = let rest = after_prefix ps s in if p == c then rest else none

-- What a line of the stream is: passed over, the end marker, or a frame.
pub data Line (J : Type 0) : Type 0 where
  skipped : Line J
  marker : Line J
  parsed : J → Line J

module _ {J : Type 0} (frames : Frames J) where
  unfoldable pub sse : J → Text
  sse frame = codes "data: " ++ frames.dumps frame ++ (10 ∷ 10 ∷ [])

  unfoldable pub read_data : Text → Line J
  read_data text =
      ite (Text_discrete text (codes "[DONE]")) marker
        (elim (frames.loads text) [ none ↦ skipped | some j ↦ parsed j ])

  unfoldable pub read_line : Text → Line J
  unfolding read_data
  read_line line = elim (after_prefix (codes "data:") line) [
    | none ↦ skipped
    | some rest ↦ read_data (strip rest)
  ]

  -- The frames that the generator yields from the lines of a response, and the exception that ends
  -- it: none after the end marker, `broken` after the last line.
  unfoldable pub stream_decode : List Text → Option Text → List J × Option Text
  stream_decode [] broken = ([], broken)
  stream_decode (line ∷ lines) broken =
      let rest = stream_decode lines broken in
      elim (read_line line) [
        | skipped ↦ rest
        | marker ↦ ([], none)
        | parsed j ↦ (j ∷ rest.0, rest.1)
      ]

unfoldable pub sse_done : Text
sse_done = codes "data: [DONE]" ++ (10 ∷ 10 ∷ [])
