-- ===== src/Route/Handlers/Bodies.antt =====
-- Compressed bodies in route/route.go: `getMaybeCompressedBody` and the handlers that call it.
use tracing_proxy.Base.{ℕ, Result, ◌≡◌, refl, List, [], arith}
use tracing_proxy.Route.{Side}
use tracing_proxy.Route.Handlers.{
  Services, Request, Router, event, batch, get_maybe_compressed_body, copy_n, event_of_body,
  batch_of_body, batch_of_events, request_to_event, new_event,
}

copy-none : (bytes : List ℕ) → copy_n 0 bytes ≡ Result.ok []
unfolding copy_n
copy-none bytes = ground arith

module _ (S : Services) (side : Side) (now : ℕ) (req : Request) (r : Router) where
  -- the request with an empty body that is not compressed
  abbrev pub emptied : Request
  emptied = record req { content_encoding = ""; body = Result.ok [] }

  body-gzip :
      (bytes : List ℕ)
      → req.content_encoding ≡ "gzip"
      → S.decompressors.gzip req.body ≡ Result.ok bytes
      → get_maybe_compressed_body S.decompressors req.content_encoding req.body ≡ Result.ok []
  unfolding get_maybe_compressed_body
  body-gzip bytes zipped opened = rw (zipped, opened) (copy-none bytes)

  -- For a request with a body compressed by gzip, whatever it holds, both handlers do what
  -- they do for a request without compression whose body is empty.
  pub event-gzip :
      (bytes : List ℕ)
      → req.content_encoding ≡ "gzip"
      → S.decompressors.gzip req.body ≡ Result.ok bytes
      → (event S side now req r ≡ event S side now emptied r)
        × (batch S side now req r ≡ batch S side now emptied r)
  unfolding event batch event_of_body batch_of_body batch_of_events request_to_event new_event
  event-gzip bytes zipped opened = rw (body-gzip bytes zipped opened, event, batch) (refl, refl)
