-- ===== src/Sse/Reading.antt =====
-- The router reads back the frames that the nodes write.
use mini_dynamo.Prelude.{
  ◌≡◌, ◌≢◌, refl, ap, ◌∙◌, if_neg, Option, none, some, List, [], ◌∷◌, ◌++◌, Text, codes,
  Text_discrete,
}
use mini_dynamo.Sse.{
  Frames, skipped, marker, parsed, strip, strip_left, after_prefix, is_space, read_data, read_line,
  stream_decode, sse,
}

module _ {J : Type 0} (frames : Frames J) where
  -- The first line of a frame, which ends with an empty line, is read as that frame, when the JSON
  -- printed for it has no white space around it, is no end marker, and is parsed back.
  pub read_line-sse :
      (j : J)
      → strip (frames.dumps j) ≡ frames.dumps j
      → frames.dumps j ≢ codes "[DONE]"
      → frames.loads (frames.dumps j) ≡ some j
      → (line : Text) × (sse frames j ≡ line ++ (10 ∷ 10 ∷ [])) × (read_line frames line ≡ parsed j)
  unfolding sse read_line read_data after_prefix is_space strip strip_left
  read_line-sse j trimmed other back = (
    codes "data: " ++ frames.dumps j,
    refl,
    rw trimmed (if_neg (Text_discrete (frames.dumps j) (codes "[DONE]")) other _ _ ∙ rw back refl),
  )

  -- Reading stops at the end marker: what comes behind it, an exception included, does not count.
  pub stream_decode-marker :
      (before after : List Text) (end : Text) (broken : Option Text)
      → read_line frames end ≡ marker
      → stream_decode frames (before ++ end ∷ after) broken ≡ stream_decode frames before none
  unfolding stream_decode
  stream_decode-marker [] after end broken e = rw (stream_decode, e) refl
  stream_decode-marker (line ∷ before) after end broken e =
      ap
        (λ rest. elim (read_line frames line) [
          | skipped ↦ rest
          | marker ↦ ([], none)
          | parsed j ↦ (j ∷ rest.0, rest.1)
        ])
        (stream_decode-marker before after end broken e)
