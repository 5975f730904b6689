-- ===== src/Dsl/MockService/Status.antt =====
-- When a call of dsl/mock_service.go succeeds.
use pact_go.Common.{
  ◌≤◌, ◌<◌, Text, bytes, text_eq, Error, Result, ok, err, Option, none, some, if◌then◌else◌, ◌≡◌,
  ap, ◌↔◌, inl, inr, arith, Result-cases, Option-cases,
}
use pact_go.Dsl.MockService.{Body, Reply, Http, reply_error, sent, call}

-- Behind the reply of the mock service stands a status of the two hundreds and a text that was read.
pub record Accepted (res : Reply) : Type 0 where
  pub lower : 200 ≤ res.status_code
  pub upper : res.status_code < 300
  pub text_read : res.read_error ≡ none

pub reply_error-Accepted : (res : Reply) → reply_error res ≡ none → Accepted res
unfolding reply_error
reply_error-Accepted res e = record {
  lower = ground arith;
  upper = ground arith;
  text_read = ground arith;
}

pub Accepted-reply_error : (res : Reply) → Accepted res → reply_error res ≡ none
unfolding reply_error
Accepted-reply_error res a = grind (arith, a.lower, a.upper, a.text_read)

module _ {W Interaction : Type 0} (http : Http W Interaction) where
  -- The call as it succeeds: the body has a JSON text, the request is well-formed, it is sent once,
  -- with the text as its body if it is a POST, and the reply is accepted.
  pub record Succeeds (method url : Text) (content : Body Interaction) (w w' : W) : Type 0 where
    pub body : Text
    pub encoded : http.marshal content ≡ ok body
    pub well_formed : http.new_request method url ≡ none
    pub reply : Reply
    pub answered :
        http.send method url (if text_eq method (bytes "POST") then some body else none) w
        ≡ (w', ok reply)
    pub accepted : Accepted reply

  sent_inv :
      (r : W × Result Reply) (w' : W)
      → sent r ≡ (w', none)
      → (reply : Reply) × (r ≡ (w', ok reply)) × Accepted reply
  unfolding sent
  sent_inv (w, err x) w' e = absurd (cc)
  sent_inv (w, ok res) w' e = (
    res,
    (λ i. ((e i).0, ok res)),
    reply_error-Accepted res (ap (λ (r : W × Option Error). r.1) e),
  )

  call_inv :
      (method url : Text) (content : Body Interaction) (w w' : W)
      → call http method url content w ≡ (w', none)
      → Succeeds method url content w w'
  unfolding call
  call_inv method url content w w' e = elim (Result-cases (http.marshal content)) [
    | inl (x, failed) ↦ absurd (cc)
    | inr (body, encoded) ↦ elim (Option-cases (http.new_request method url)) [
      | inr (x, refused) ↦ absurd (cc)
      | inl well_formed ↦
          let (reply, answered, accepted) = sent_inv _ w' (rw (encoded, call, well_formed) at e) in
          record {
            body = body;
            encoded = encoded;
            well_formed = well_formed;
            reply = reply;
            answered = answered;
            accepted = accepted;
          }
    ]
  ]

  -- A call of the mock service returns no error exactly if its body has a JSON text, the request is
  -- well-formed, and the one time that it is sent, with the text as its body if it is a POST, is
  -- answered with a status from 200 to 299 and a text that was read.
  pub call-Succeeds_iff :
      (method url : Text) (content : Body Interaction) (w w' : W)
      → (call http method url content w ≡ (w', none)) ↔ Succeeds method url content w w'
  unfolding call sent
  call-Succeeds_iff method url content w w' = (
    λ e. call_inv method url content w w' e,
    λ s.
        rw (s.encoded, call, s.well_formed, s.answered)
          (λ i. (w', Accepted-reply_error s.reply s.accepted i)),
  )
