-- ===== src/Exceptions/Hidden.antt =====
-- What a client learns of an error in production:
-- packages/backend/common/src/core/filters/global-exception.filter.ts.

use package.text.Mathlib.Text.{◌==◌ as str_eq}
use express_nest_blueprint.Base.{
  ℕ, String, true, Option, none, some, [], ◌∷◌, ◌≡◌, if◌then◌else◌, refl, ap,
}
use express_nest_blueprint.Base.Map.{Map}
use express_nest_blueprint.Exceptions.{
  Body, text, object, ErrorInfo, other_exception, Values, Request, Response, get_http_status,
  get_error_message, get_error_name, response_of, message_text, stamped, plain_body, body_from,
  get_error_response, catch,
}

module _ {V : Type 0} (values : Values V) where
  plain_body-hidden :
      (a b : ErrorInfo) (response : Option (Body V)) (own : Option ℕ) (status : ℕ)
      (message : Body V)
      → a.constructor_name ≡ b.constructor_name
      → plain_body values (other_exception (some a) response own) status message
        ≡ plain_body values (other_exception (some b) response own) status message
  unfolding plain_body get_error_name
  plain_body-hidden a b response own status message h =
      ap
        (λ n.
          ("statusCode", values.number status)
          ∷ ("message", values.string (message_text message))
          ∷ ("error", values.string n)
          ∷ [])
        h

  body_from-hidden :
      (a b : ErrorInfo) (response : Option (Body V)) (own : Option ℕ) (status : ℕ)
      → a.constructor_name ≡ b.constructor_name
      → body_from values response
          (other_exception (some a) response own)
          status
          (get_error_message true (other_exception (some a) response own))
        ≡ body_from values response
            (other_exception (some b) response own)
            status
            (get_error_message true (other_exception (some b) response own))
  unfolding body_from get_error_message
  body_from-hidden a b none own status h =
      plain_body-hidden a b none own status (text "Internal Server Error") h
  body_from-hidden a b (some (object fields)) own status h = refl
  body_from-hidden a b (some (text response)) own status h =
      ap
        (λ p.
          if str_eq response ""
          then p
          else ("statusCode", values.number status) ∷ ("message", values.string response) ∷ [])
        (plain_body-hidden a b (some (text response)) own status (text response) h)

-- The response with a body, where no headers are sent yet.
abbrev replied : {V : Type 0} → Values V → ℕ → String → Request → Response V → Map V → Response V
replied values status timestamp request sent body =
    if sent.headers_sent
    then sent
    else record { headers_sent = true; sent = some (status, stamped values timestamp request body) }

-- In production, what is sent to the client of an error that is not a HttpException depends on its class
-- and on its own status and response alone: not on its message, and not on its stack.
pub catch-hidden :
    {V : Type 0} (values : Values V) (stringify : Map V → String) (show : ℕ → String)
    (a b : ErrorInfo) (response : Option (Body V)) (own : Option ℕ) (request : Request)
    (timestamp : String) (sent : Response V)
    → a.constructor_name ≡ b.constructor_name
    → (catch values stringify true show
        (other_exception (some a) response own)
        request
        timestamp
        sent).1
      ≡ (catch values stringify true show
          (other_exception (some b) response own)
          request
          timestamp
          sent).1
unfolding catch get_error_response response_of get_http_status
catch-hidden values stringify show a b response none request timestamp sent h =
    ap (λ body. replied values 500 timestamp request sent body)
      (body_from-hidden values a b response none 500 h)
catch-hidden values stringify show a b response (some status) request timestamp sent h =
    ap (λ body. replied values status timestamp request sent body)
      (body_from-hidden values a b response (some status) status h)
