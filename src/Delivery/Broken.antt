-- ===== src/Delivery/Broken.antt =====
-- A stream of the colocated path whose worker breaks off, as the client reads it.
use mini_dynamo.Prelude.{Bool, List, [], ◌∷◌, Text, codes}
use mini_dynamo.Sse.{Frames}
use mini_dynamo.Router.{Effect, failure, done, requests, latency}

module _ {J : Type 0} (frames : Frames J) (has_error : J → Bool) (error_frame : Text → J) where
  abbrev ending : Text → List (Effect J)
  ending e = failure e ∷ latency ∷ requests (codes "ok") ∷ done ∷ []
