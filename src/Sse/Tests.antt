-- ===== src/Sse/Tests.antt =====
-- The reading of streams at concrete inputs, with a JSON of single characters.
use mini_dynamo.Prelude.{
  ℕ, ◌≡◌, ◌≢◌, refl, true, false, none, some, [], ◌∷◌, codes, Text_discrete, ◌==◌,
}
use mini_dynamo.Sse.{
  Frames, marker, strip, strip_left, strip_right, after_prefix, is_space, read_data, read_line,
  stream_decode,
}

-- The text of one letter is a frame; `t` has a token, and `f` a finish reason; `n` is no object.
abbrev pub demo_frames : Frames ℕ
demo_frames = record {
  loads = λ s. elim s [ [] ↦ none | c ∷ rest ↦ elim rest [ [] ↦ some c | d ∷ more ↦ none ] ];
  dumps = λ c. c ∷ [];
  is_object = λ c. elim (c == b'n') [ true ↦ false | false ↦ true ];
  has_token = λ c. c == b't';
  has_finish = λ c. c == b'f';
}

no_marker : b't' ∷ [] ≢ codes "[DONE]"
no_marker e = cc

the_marker : read_line demo_frames (codes "data: [DONE]") ≡ marker
unfolding read_line read_data after_prefix is_space strip strip_left strip_right Text_discrete
the_marker = refl

-- Lines that are no data or no JSON are passed over.
two_frames :
    stream_decode demo_frames
      (codes "data: t" ∷ codes "" ∷ codes ": ping" ∷ codes "data:tt" ∷ codes "data:f " ∷ [])
      none
    ≡ (b't' ∷ b'f' ∷ [], none)
unfolding stream_decode read_line read_data after_prefix is_space strip strip_left strip_right
    Text_discrete
two_frames = refl
