-- ===== src/Delivery/Served.antt =====
-- A generation that one decode node serves, as the client hears it.
use mini_dynamo.Prelude.{
  ℤ, pos, ◌+ℤ◌, ℕ, zero, suc, ◌≡◌, refl, sym, ap, subst, ◌∙◌, Bool, true, false, Option, none, List,
  [], ◌∷◌, ◌++◌, map, Text, codes, is_empty, length, length-map, length-append, if◌then◌else◌, All,
  All-append, arith,
}
use mini_dynamo.Models.{TokenChunk, DecodeRequest}
use mini_dynamo.Sse.{Frames, stream_decode}
use mini_dynamo.Scheduler.{token_chunk, finish_chunk}
use mini_dynamo.Scheduler.Streaming.{stream, transcript}
use mini_dynamo.Worker.{Costs, pass_on}
use mini_dynamo.Worker.Streams.{decode_stream, node_lines}
use mini_dynamo.Worker.Frames.{IsPrinted, stream_decode-forward_chunks}
use mini_dynamo.Worker.Vocabulary.{next_token, next_token-filled}
use mini_dynamo.Client.Hearing.{IsClean}
use mini_dynamo.Delivery.Relayed.{IsTokenFrame, IsFinalFrame}

map-append : {A B : Type 0} (f : A → B) (xs ys : List A) → map f (xs ++ ys) ≡ map f xs ++ map f ys
map-append f [] ys = refl
map-append f (x ∷ xs) ys = ap (◌∷◌ (f x)) (map-append f xs ys)

module _ {J : Type 0} (frames : Frames J) (has_error : J → Bool) (error_frame : Text → J)
    (dump : TokenChunk → J) where
  -- What `model_dump` gives for a chunk with a token and for a last one.
  pub record IsDump : Type 0 where
    pub tokens :
        (c : TokenChunk)
        → c.finish_reason ≡ none
        → is_empty c.token ≡ false
        → IsTokenFrame frames has_error error_frame (dump c)
    pub finals :
        (index : ℕ) (reason : Text)
        → IsFinalFrame frames has_error error_frame (dump (finish_chunk index reason))

  module _ (dumps : IsDump) (md5 : Text → ℕ) where
    pub stream-IsTokenFrame :
        (session : Text) (base : ℤ) (n : ℕ)
        → All
            (IsTokenFrame frames has_error error_frame)
            (map dump (stream (next_token md5) session base n))
    unfolding stream token_chunk
    stream-IsTokenFrame session base zero = tt
    stream-IsTokenFrame session base (suc n) =
        rw
          (map-append dump (stream (next_token md5) session base n)
            (token_chunk (next_token md5 session (base +ℤ pos n)) n ∷ []))
          (All-append _ (map dump (stream (next_token md5) session base n)) _
            (stream-IsTokenFrame session base n)
            (
              dumps.tokens (token_chunk (next_token md5 session (base +ℤ pos n)) n) refl
                  (next_token-filled md5 session (base +ℤ pos n)),
              tt,
            ))

    pub length-stream :
        (session : Text) (base : ℤ) (n : ℕ)
        → length (map dump (stream (next_token md5) session base n)) ≡ n
    unfolding stream
    length-stream session base zero = refl
    length-stream session base (suc n) =
        let last = token_chunk (next_token md5 session (base +ℤ pos n)) n in
        length-map (stream (next_token md5) session base n ++ last ∷ []) dump
        ∙ length-append (stream (next_token md5) session base n) (last ∷ [])
        ∙ (let before =
              sym (length-map (stream (next_token md5) session base n) dump)
              ∙ length-stream session base n in
            omega arith)

    token-IsPrinted :
        (c : TokenChunk)
        → IsTokenFrame frames has_error error_frame (dump c)
        → IsPrinted frames dump c
    unfolding IsPrinted IsClean
    token-IsPrinted c h = let (trimmed, other, back, object) = h.clean in (trimmed, other, back)

    pub final-IsPrinted :
        (index : ℕ) (reason : Text) → IsPrinted frames dump (finish_chunk index reason)
    unfolding IsPrinted IsClean
    final-IsPrinted index reason =
        let (trimmed, other, back, object) = (dumps.finals index reason).clean in
        (trimmed, other, back)

    stream-IsPrinted :
        (session : Text) (base : ℤ) (n : ℕ)
        → All (IsPrinted frames dump) (stream (next_token md5) session base n)
    unfolding stream token_chunk
    stream-IsPrinted session base zero = tt
    stream-IsPrinted session base (suc n) =
        let c = token_chunk (next_token md5 session (base +ℤ pos n)) n in
        All-append _ (stream (next_token md5) session base n) _ (stream-IsPrinted session base n) (
          token-IsPrinted c (dumps.tokens c refl (next_token-filled md5 session (base +ℤ pos n))),
          tt,
        )

    -- What the router reads of a node's stream whose chunks are a transcript.
    module _ {C : Type 0} (costs : Costs C) (megabytes : ℤ → C) (bandwidth_gbps fixed_ms : C)
        (is_colocated : Bool) where
      pub read_transcript :
          (req : DecodeRequest) (chunks : List TokenChunk) (session : Text) (base : ℤ) (n : ℕ)
          (broken : Option Text)
          → pass_on chunks ≡ (transcript (next_token md5) session base n, true)
          → stream_decode frames
              (node_lines frames dump
                (decode_stream costs megabytes bandwidth_gbps fixed_ms is_colocated req chunks).0)
              broken
            ≡ (
              map dump (stream (next_token md5) session base n)
                  ++ dump (finish_chunk n (codes "length")) ∷ [],
              none,
            )
      unfolding decode_stream node_lines transcript
      read_transcript req chunks session base n broken e =
          let printed : All (IsPrinted frames dump) (pass_on chunks).0 =
            subst (λ p. All (IsPrinted frames dump) p.0) (sym e)
              (All-append _ (stream (next_token md5) session base n) _
                (stream-IsPrinted session base n) (final-IsPrinted n (codes "length"), tt)) in
          stream_decode-forward_chunks frames dump C true chunks broken printed
          ∙ ap (λ p. (map dump p.0, if p.1 then none else broken)) e
          ∙ ap (λ js. (js, none))
              (map-append dump (stream (next_token md5) session base n)
                (finish_chunk n (codes "length") ∷ []))
