-- ===== src/Worker/Frames.antt =====
-- What the router reads of a node's stream.
use mini_dynamo.Prelude.{
  ◌≡◌, ◌≢◌, refl, ap, subst, ◌∙◌, if_neg, Bool, true, ◌&&◌, not, Option, none, some, List, [], ◌∷◌,
  ◌++◌, Text, codes, is_empty, map, Text_discrete, if◌then◌else◌, All, Bool-cases, Option-cases,
  inl, inr,
}
use mini_dynamo.Models.{TokenChunk}
use mini_dynamo.Sse.{
  Frames, skipped, marker, parsed, stream_decode, read_line, read_data, after_prefix, strip,
  strip_left, strip_right, is_space,
}
use mini_dynamo.Worker.{pass_on}
use mini_dynamo.Worker.Streams.{
  NodeEffect, chunk, done, latency, requests_ok, mark_token, forward_chunks, generate_chunks,
  node_lines,
}

-- The loops of the two handlers pass on the same.
pub generate_chunks-forward_chunks :
    {F : Type 0} (first : Bool) (cs : List TokenChunk)
    → generate_chunks {F = F} first cs ≡ forward_chunks first cs
unfolding generate_chunks forward_chunks
generate_chunks-forward_chunks first [] = refl
generate_chunks-forward_chunks {F = F} first (c ∷ cs) =
    let rest = generate_chunks-forward_chunks {F = F} (first && is_empty c.token) cs in
    elim (Option-cases c.finish_reason) [ inl e ↦ rw (e, rest) refl | inr (reason, e) ↦ rw e refl ]

module _ {J : Type 0} (frames : Frames J) (dump : TokenChunk → J) where
  abbrev line_of : J → Text
  line_of j = codes "data: " ++ frames.dumps j

  -- The JSON printed for the chunk has no white space around it, is no end marker, and is parsed
  -- back.
  unfoldable pub IsPrinted : TokenChunk → Type 0
  IsPrinted c =
      (strip (frames.dumps (dump c)) ≡ frames.dumps (dump c))
      × (frames.dumps (dump c) ≢ codes "[DONE]")
      × (frames.loads (frames.dumps (dump c)) ≡ some (dump c))

  read_chunk :
      (c : TokenChunk) → IsPrinted c → read_line frames (line_of (dump c)) ≡ parsed (dump c)
  unfolding IsPrinted read_line read_data after_prefix is_space strip strip_left
  read_chunk c (trimmed, other, back) =
      rw trimmed
        (if_neg (Text_discrete (frames.dumps (dump c)) (codes "[DONE]")) other _ _ ∙ rw back refl)

  read_empty : read_line frames [] ≡ skipped
  unfolding read_line after_prefix
  read_empty = refl

  read_done : read_line frames (codes "data: [DONE]") ≡ marker
  unfolding read_line read_data after_prefix is_space strip strip_left strip_right Text_discrete
  read_done = refl

  decode_chunk :
      (c : TokenChunk) (lines : List Text) (broken : Option Text)
      → IsPrinted c
      → stream_decode frames (line_of (dump c) ∷ [] ∷ lines) broken
        ≡ (dump c ∷ (stream_decode frames lines broken).0, (stream_decode frames lines broken).1)
  unfolding stream_decode
  decode_chunk c lines broken printed =
      rw (stream_decode, read_chunk c printed, stream_decode, read_empty) refl

  decode_done :
      (lines : List Text) (broken : Option Text)
      → stream_decode frames (codes "data: [DONE]" ∷ lines) broken ≡ ([], none)
  unfolding stream_decode
  decode_done lines broken = rw (stream_decode, read_done) refl

  -- The frames that the chunks come to, and how their stream ends.
  abbrev pub read_back : List TokenChunk → Option Text → List J × Option Text
  read_back cs broken = (map dump (pass_on cs).0, if (pass_on cs).1 then none else broken)

  module _ (F : Type 0) where
    marked :
        (first : Bool) (c : TokenChunk) (es : List (NodeEffect F))
        → node_lines frames dump (mark_token first c ++ chunk c ∷ es)
          ≡ line_of (dump c) ∷ [] ∷ node_lines frames dump es
    unfolding mark_token node_lines
    marked first c es = elim (Bool-cases (first && not (is_empty c.token))) [
      | inl e ↦ rw e refl
      | inr e ↦ rw e refl
    ]

    forward_more :
        (first : Bool) (c : TokenChunk) (cs : List TokenChunk)
        → c.finish_reason ≡ none
        → forward_chunks {F = F} first (c ∷ cs) ≡ (
          mark_token first c ++ chunk c ∷ (forward_chunks (first && is_empty c.token) cs).0,
          (forward_chunks {F = F} (first && is_empty c.token) cs).1,
        )
    unfolding forward_chunks
    forward_more first c cs e =
        let rest = forward_chunks {F = F} (first && is_empty c.token) cs in
        ap
          (λ o. elim o [
            | some reason ↦
                (mark_token first c ++ chunk c ∷ latency ∷ requests_ok ∷ done ∷ [], true)
            | none ↦ (mark_token first c ++ chunk c ∷ rest.0, rest.1)
          ])
          e

    forward_last :
        (first : Bool) (c : TokenChunk) (cs : List TokenChunk) {reason : Text}
        → c.finish_reason ≡ some reason
        → forward_chunks {F = F} first (c ∷ cs)
          ≡ (mark_token first c ++ chunk c ∷ latency ∷ requests_ok ∷ done ∷ [], true)
    unfolding forward_chunks
    forward_last first c cs e =
        let rest = forward_chunks {F = F} (first && is_empty c.token) cs in
        ap
          (λ o. elim o [
            | some reason ↦
                (mark_token first c ++ chunk c ∷ latency ∷ requests_ok ∷ done ∷ [], true)
            | none ↦ (mark_token first c ++ chunk c ∷ rest.0, rest.1)
          ])
          e

    pass_more :
        (c : TokenChunk) (cs : List TokenChunk)
        → c.finish_reason ≡ none
        → pass_on (c ∷ cs) ≡ (c ∷ (pass_on cs).0, (pass_on cs).1)
    unfolding pass_on
    pass_more c cs e =
        ap
          (λ o. elim o [
            | some reason ↦ (c ∷ [], true)
            | none ↦ (c ∷ (pass_on cs).0, (pass_on cs).1)
          ])
          e

    pass_last :
        (c : TokenChunk) (cs : List TokenChunk) {reason : Text}
        → c.finish_reason ≡ some reason
        → pass_on (c ∷ cs) ≡ (c ∷ [], true)
    unfolding pass_on
    pass_last c cs e =
        ap
          (λ o. elim o [
            | some reason ↦ (c ∷ [], true)
            | none ↦ (c ∷ (pass_on cs).0, (pass_on cs).1)
          ])
          e

    -- From the lines of a generating handler the router reads the frames of the chunks up to the
    -- first with a finish reason, and then no exception; without such a chunk it reads the frames
    -- of all of them and meets the exception that breaks the connection off, if there is one. The
    -- JSON printed for each of these chunks has no white space around it, is no end marker, and is
    -- parsed back.
    pub stream_decode-forward_chunks :
        (first : Bool) (cs : List TokenChunk) (broken : Option Text)
        → All IsPrinted (pass_on cs).0
        → stream_decode frames (node_lines frames dump (forward_chunks {F = F} first cs).0) broken
          ≡ (map dump (pass_on cs).0, if (pass_on cs).1 then none else broken)
    unfolding stream_decode node_lines forward_chunks pass_on
    stream_decode-forward_chunks first [] broken h = refl
    stream_decode-forward_chunks first (c ∷ cs) broken h = elim (Option-cases c.finish_reason) [
      | inl e ↦
          (let printed : IsPrinted c × All IsPrinted (pass_on cs).0 =
              subst (λ p. All IsPrinted p.0) (pass_more c cs e) h in
            rw
              (
                ap (λ p. p.0) (forward_more first c cs e),
                marked first c (forward_chunks (first && is_empty c.token) cs).0,
                pass_more c cs e,
              )
              (decode_chunk c _ broken printed.0
                ∙ ap (λ p. (dump c ∷ p.0, p.1))
                    (stream_decode-forward_chunks (first && is_empty c.token) cs broken printed.1)))
      | inr (reason, e) ↦
          (let printed : IsPrinted c × Unit = subst (λ p. All IsPrinted p.0) (pass_last c cs e) h in
            rw
              (
                ap (λ p. p.0) (forward_last first c cs e),
                marked first c (latency ∷ requests_ok ∷ done ∷ []),
                pass_last c cs e,
              )
              (decode_chunk c (codes "data: [DONE]" ∷ [] ∷ []) broken printed.0
                ∙ ap (λ p. (dump c ∷ p.0, p.1)) (decode_done ([] ∷ []) broken)))
    ]
