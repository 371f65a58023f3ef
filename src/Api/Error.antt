-- ===== src/Api/Error.antt =====
-- services/api/src/error.rs: the errors of the service and the HTTP status of each. The text of a
-- bad request is kept, the JSON body of a reply is left out.
use vpn_password_manager.Base.{ℕ, String}

pub data ApiError : Type 0 where
  unauthorized forbidden not_found rate_limited locked_out internal : ApiError
  bad_request : String → ApiError
  version_conflict : ℕ → ApiError

-- The first component of `ApiError::parts`.
unfoldable pub parts : ApiError → ℕ
parts unauthorized = 401
parts forbidden = 403
parts not_found = 404
parts (bad_request m) = 400
parts (version_conflict current) = 409
parts rate_limited = 429
parts locked_out = 429
parts internal = 500
