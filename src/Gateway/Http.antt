-- ===== src/Gateway/Http.antt =====
-- What the gateway answers, and what its code throws. The fields that every answer repeats from the
-- request, `request_id` and `timestamp`, are left out.
use mini_banking_app.Common.{ℕ, String, Bool, true, false, Option, List, []}

pub data Field : Type 0 where
  text : String → Field
  number : ℕ → Field

pub record Response : Type 0 where
  pub status : ℕ
  pub success : Bool
  pub error_code : String
  pub message : String
  pub payload : List (String × Field)

abbrev pub failed : ℕ → String → String → Response
failed status code message = record {
  status = status;
  success = false;
  error_code = code;
  message = message;
  payload = [];
}

abbrev pub succeeded : ℕ → String → List (String × Field) → Response
succeeded status message payload = record {
  status = status;
  success = true;
  error_code = "";
  message = message;
  payload = payload;
}

-- A gRPC status code and the texts beside it.
pub record GrpcError : Type 0 where
  pub code : Option ℕ
  pub details : String
  pub message : String
  pub meta_code : Option String

-- `coded` has a status, a code and a message: what `httpError` makes, and the AdminActivationError of
-- the activation, which its callers answer themselves.
pub data Exception : Type 0 where
  redis_error : Exception
  coded : ℕ → String → String → Exception
  grpc : GrpcError → Exception
