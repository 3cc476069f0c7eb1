-- ===== src/Exceptions.antt =====
-- GlobalExceptionFilter: packages/backend/common/src/core/filters/global-exception.filter.ts. A value of a
-- JSON object is a `V`; the time of a call, whether the configuration is that of production, and
-- `JSON.stringify` are arguments.
pub mod Hidden
mod Tests
use Prim.Native.String
use package.text.Mathlib.Text.{◌==◌ as str_eq}
use express_nest_blueprint.Base.{
  ℕ, String, Bool, true, false, Option, none, some, List, [], ◌∷◌, leb, if◌then◌else◌,
}
use express_nest_blueprint.Base.Map
use express_nest_blueprint.Base.Map.{Map}

-- `string | object`, what `getResponse` returns; an object has its own properties.
pub data Body (V : Type 0) : Type 0 where
  text : String → Body V
  object : Map V → Body V

-- What `instanceof Error` gives: the name of the constructor, the message and the stack.
pub record ErrorInfo : Type 0 where
  pub constructor_name : String
  pub message : String
  pub stack : Option String

-- A HttpException, or another value that is thrown: `getStatus` and `getResponse`, if it has them, and
-- whether it is an Error.
pub data Exception (V : Type 0) : Type 0 where
  http_exception : ErrorInfo → Body V → ℕ → Exception V
  other_exception : Option ErrorInfo → Option (Body V) → Option ℕ → Exception V

-- The texts and the numbers among the values of JSON.
pub record Values (V : Type 0) : Type 0 where
  pub string : String → V
  pub number : ℕ → V

pub record Request : Type 0 where
  pub method : String
  pub url : String

-- The response: whether the headers are sent, and the status and the body that `json` has sent.
pub record Response (V : Type 0) : Type 0 where
  pub headers_sent : Bool
  pub sent : Option (ℕ × Map V)

pub data LogEntry : Type 0 where
  error : String → Option String → LogEntry
  warn : String → LogEntry

module _ {V : Type 0} where
  unfoldable pub get_http_status : Exception V → ℕ
  get_http_status (http_exception info response status) = status
  get_http_status (other_exception info response (some status)) = status
  get_http_status (other_exception info response none) = 500

  unfoldable pub get_error_message : Bool → Exception V → Body V
  get_error_message is_production (http_exception info response status) = response
  get_error_message is_production (other_exception info (some response) status) = response
  get_error_message is_production (other_exception (some info) none status) =
      text (if is_production then "Internal Server Error" else info.message)
  get_error_message is_production (other_exception none none status) = text "Internal Server Error"

  unfoldable pub get_error_name : Exception V → String
  get_error_name (http_exception info response status) = info.constructor_name
  get_error_name (other_exception (some info) response status) = info.constructor_name
  get_error_name (other_exception none response status) = "InternalServerErrorException"

  response_of : Exception V → Option (Body V)
  response_of (http_exception info response status) = some response
  response_of (other_exception info response status) = response

  message_text : Body V → String
  message_text (text message) = message
  message_text (object fields) = "Internal Server Error"

  stack_of : Exception V → Option String
  stack_of (http_exception info response status) = info.stack
  stack_of (other_exception none response status) = none
  stack_of (other_exception (some info) response status) = info.stack

module _ {V : Type 0} (values : Values V) where
  -- `timestamp, path` at the end of an object.
  stamped : String → Request → Map V → Map V
  stamped timestamp request fields =
      Map.set (Map.set fields "timestamp" (values.string timestamp)) "path"
        (values.string request.url)

  -- The body where there is no response of the exception, or an empty one.
  plain_body : Exception V → ℕ → Body V → Map V
  unfolding message_text get_error_name
  plain_body exception status message =
      ("statusCode", values.number status)
      ∷ ("message", values.string (message_text message))
      ∷ ("error", values.string (get_error_name exception))
      ∷ []

  body_from : Option (Body V) → Exception V → ℕ → Body V → Map V
  unfolding plain_body
  body_from none exception status message = plain_body exception status message
  body_from (some (object fields)) exception status message = fields
  body_from (some (text response)) exception status message =
      if str_eq response ""
      then plain_body exception status message
      else ("statusCode", values.number status) ∷ ("message", values.string response) ∷ []

  unfoldable pub get_error_response : Exception V → ℕ → Body V → Request → String → Map V
  unfolding stamped body_from response_of
  get_error_response exception status message request timestamp =
      stamped timestamp request (body_from (response_of exception) exception status message)

  module _ (stringify : Map V → String) (is_production : Bool) (show : ℕ → String) where
    log_entry : Exception V → ℕ → Map V → Request → LogEntry
    unfolding stack_of
    log_entry exception status body request =
        let line = String.◌++◌ request.method (String.◌++◌ " " request.url) in
        if leb 500 status
        then error (String.◌++◌ line " - Internal Server Error") (stack_of exception)
        else warn (
            String.◌++◌ line
              (String.◌++◌ " - " (String.◌++◌ (show status) (String.◌++◌ " " (stringify body)))))

    -- `catch(exception, host)`.
    unfoldable pub catch : Exception V → Request → String → Response V → LogEntry × Response V
    unfolding get_http_status get_error_message get_error_response log_entry
    catch exception request timestamp response =
        let status = get_http_status exception in
        let message = get_error_message is_production exception in
        let body = get_error_response exception status message request timestamp in
        (
          log_entry exception status body request,
          (if response.headers_sent
              then response
              else record { headers_sent = true; sent = some (status, body) }),
        )
