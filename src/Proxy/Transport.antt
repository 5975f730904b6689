-- ===== src/Proxy/Transport.antt =====
-- proxy/http.go `customTransport`: the sending of a request that was rewritten. What it prints is left
-- out, but not the dumps that it prints, which may fail.
use pact_go.Common.{Error, Result, ok, err, Option, none, some, ◌≡◌, ◌↔◌, ◌∙◌, sym, refl}
use pact_go.Http.{HttpRequest}

-- What the code calls of `net/http` and `httputil`: a new `http.Transport`, with the TLS settings if
-- there are any, and the dumps of a request and of a response.
pub record Sending (W Response TlsConfig : Type 0) : Type 0 where
  pub dump_request_out : HttpRequest → Option Error
  pub send : Option TlsConfig → HttpRequest → W → W × Result Response
  pub dump_response : Response → Option Error

module _ {W Response TlsConfig : Type 0} (sending : Sending W Response TlsConfig) where
  -- Behind the sending: the error of the dump of a response is returned beside it.
  unfoldable pub behind_send : W × Result Response → W × Option Response × Option Error
  behind_send (w, err e) = (w, none, some e)
  behind_send (w, ok response) = (w, some response, sending.dump_response response)

  -- Behind the dump of the request.
  unfoldable pub behind_dump :
      Option Error → Option TlsConfig → HttpRequest → W → W × Option Response × Option Error
  behind_dump (some e) tls r w = (w, none, some e)
  behind_dump none tls r w = behind_send (sending.send tls r w)

  -- `RoundTrip`
  unfoldable pub round_trip :
      Option TlsConfig → HttpRequest → W → W × Option Response × Option Error
  round_trip tls r w = behind_dump (sending.dump_request_out r) tls r w

  -- The request can be printed, it is sent once and answered, and the answer can be printed.
  pub record IsAnswered (tls : Option TlsConfig) (r : HttpRequest) (w w' : W) (response : Response)
      : Type 0 where
    pub printed : sending.dump_request_out r ≡ none
    pub answered : sending.send tls r w ≡ (w', ok response)
    pub shown : sending.dump_response response ≡ none

  behind_send_inv :
      (tls : Option TlsConfig) (r : HttpRequest) (s : W × Result Response) (w w' : W)
      (answer : Option Response)
      → sending.dump_request_out r ≡ none
      → sending.send tls r w ≡ s
      → behind_send s ≡ (w', answer, none)
      → (response : Response) × (answer ≡ some response) × IsAnswered tls r w w' response
  unfolding behind_send
  behind_send_inv tls r (w₁, err e) w w' answer printed sent h = absurd (cc)
  behind_send_inv tls r (w₁, ok response) w w' answer printed sent h = (
    response,
    (λ i. (sym h i).1),
    record {
      printed = printed;
      answered = sent ∙ (λ i. ((h i).0, ok response));
      shown = λ i. (h i).2;
    },
  )

  behind_dump_inv :
      (dump : Option Error) (tls : Option TlsConfig) (r : HttpRequest) (w w' : W)
      (answer : Option Response)
      → sending.dump_request_out r ≡ dump
      → behind_dump dump tls r w ≡ (w', answer, none)
      → (response : Response) × (answer ≡ some response) × IsAnswered tls r w w' response
  unfolding behind_dump
  behind_dump_inv (some e) tls r w w' answer printed h = absurd (cc)
  behind_dump_inv none tls r w w' answer printed h =
      behind_send_inv tls r (sending.send tls r w) w w' answer printed refl h

  -- `RoundTrip` returns no error exactly if the request can be printed, is answered when it is sent, with
  -- the TLS settings of the transport, and the answer can be printed; it is then returned.
  pub round_trip_iff :
      (tls : Option TlsConfig) (r : HttpRequest) (w w' : W) (answer : Option Response)
      → (round_trip tls r w ≡ (w', answer, none))
        ↔ ((response : Response) × (answer ≡ some response) × IsAnswered tls r w w' response)
  unfolding round_trip behind_dump behind_send
  round_trip_iff tls r w w' answer = (
    behind_dump_inv (sending.dump_request_out r) tls r w w' answer refl,
    λ (response, same, a).
        (λ i. behind_dump (a.printed i) tls r w)
        ∙ (λ i. behind_send (a.answered i))
        ∙ (λ i. (w', sym same i, a.shown i)),
  )
