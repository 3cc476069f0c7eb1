-- ===== src/Exceptions/Tests.antt =====
-- GlobalExceptionFilter at concrete inputs, and a witness. A value of JSON is a text.
use express_nest_blueprint.Base.{ℕ, String, true, false, Option, none, some, [], ◌∷◌, ◌≡◌, refl}
use express_nest_blueprint.Base.Map
use express_nest_blueprint.Base.Map.{Map}
use express_nest_blueprint.Exceptions.{
  Body, ErrorInfo, other_exception, Values, Request, Response, catch, get_http_status,
  get_error_message, get_error_name, response_of, message_text, stamped, plain_body, body_from,
  get_error_response,
}
use express_nest_blueprint.Exceptions.Hidden.{catch-hidden}

abbrev values : Values String
values = record { string = λ s. s; number = λ n. "number" }

abbrev request : Request
request = record { method = "GET"; url = "/users" }

abbrev unsent : Response String
unsent = record { headers_sent = false; sent = none }

abbrev secret : ErrorInfo
secret = record { constructor_name = "TypeError"; message = "password is 1234"; stack = none }

abbrev other : ErrorInfo
other = record { constructor_name = "TypeError"; message = "no"; stack = some "at line 1" }

abbrev stringify : Map String → String
stringify body = "{}"

abbrev show : ℕ → String
show n = "500"

abbrev no_body : Option (Body String)
no_body = none

sent_for_secret :
    (catch values stringify true show
      (other_exception (some secret) no_body none)
      request
      "now"
      unsent).1.sent
    ≡ some (
      500,
      ("statusCode", "number")
          ∷ ("message", "Internal Server Error")
          ∷ ("error", "TypeError")
          ∷ ("timestamp", "now")
          ∷ ("path", "/users")
          ∷ [],
    )
unfolding catch get_http_status get_error_message get_error_name response_of message_text stamped
    plain_body body_from get_error_response Map.set
sent_for_secret = refl

catch-hidden_example :
    (catch values stringify true show
      (other_exception (some secret) no_body none)
      request
      "now"
      unsent).1
    ≡ (catch values stringify true show
        (other_exception (some other) no_body none)
        request
        "now"
        unsent).1
catch-hidden_example =
    catch-hidden values stringify show secret other no_body none request "now" unsent refl
