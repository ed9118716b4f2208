-- ===== src/System.antt =====
-- app/main.py, app/infra/middleware and app/config/observability/health.py: what stands between the
-- server and the endpoints, and the check of health.
pub mod HealthChecks
pub mod RequestIds
use library_api.Prelude.{ℕ, String, Bool, true, false, ◌&&◌, List, [], ◌∷◌, ◌++◌, if◌then◌else◌}
use library_api.Errors.{Error, domain, request_validation_error, JsonResponse, exception_handler}
use library_api.Exec.{Exec, Result, ok, err, pure, run, ◌>>=◌}
use library_api.External.{External}
use library_api.World.{State, new_id}
use library_api.Web.{Endpoint, Reply, Orders, answer}

-- The status of an endpoint's answer when its controller returns.
unfoldable pub success_status : Endpoint → ℕ
success_status (Endpoint.create_user input) = 201
success_status (Endpoint.delete_user user_id) = 204
success_status (Endpoint.update_user_role user_id input) = 204
success_status (Endpoint.create_author input) = 201
success_status (Endpoint.delete_author author_id) = 204
success_status (Endpoint.create_book input) = 201
success_status (Endpoint.delete_book book_id) = 204
success_status (Endpoint.create_loan input) = 201
success_status Endpoint.run_due_loans_job = 204
success_status (Endpoint.create_reservation input) = 201
success_status _ = 200

-- The headers that a controller sets on the response that it makes.
unfoldable pub own_headers : Endpoint → List (String × String)
own_headers (Endpoint.export_loans_csv status user_id book_id start_date end_date) =
    ("Content-Disposition", "attachment; filename=loans.csv") ∷ []
own_headers (Endpoint.export_fines_pdf user_id book_id min_amount start_date end_date) =
    ("Content-Disposition", "attachment; filename=fines.pdf") ∷ []
own_headers _ = []

pub data Content (Token : Type 0) : Type 0 where
  reply : Reply Token → Content Token
  problem : JsonResponse → Content Token
  -- FastAPI's own answer to parameters that do not fit.
  validation_problem : Content Token

pub record Response (Token : Type 0) : Type 0 where
  pub status_code : ℕ
  -- Those that the program names, without what Starlette derives from the content.
  pub headers : List (String × String)
  pub content : Content Token

-- A line of `LoggingMiddleware`, without the time that the request took.
pub record LogEntry : Type 0 where
  pub method : String
  pub path : String
  pub status_code : ℕ

pub record Request (Token : Type 0) : Type 0 where
  pub method : String
  pub path : String
  pub token : Token
  pub endpoint : Endpoint

module _ ⦃ext : External⦄ where
  abbrev pub HttpResponse : Type 0
  HttpResponse = Response ext.Token

  -- The handlers of `app.add_exception_handler`; what has none is raised on.
  unfoldable pub respond : Endpoint → Result (Reply ext.Token) → Result HttpResponse
  respond endpoint (ok r) = ok (record {
    status_code = success_status endpoint;
    headers = own_headers endpoint;
    content = reply r;
  })
  respond endpoint (err (domain e)) = ok (record {
    status_code = (exception_handler e).status_code;
    headers = [];
    content = problem (exception_handler e);
  })
  respond endpoint (err request_validation_error) =
      ok (record { status_code = 422; headers = []; content = validation_problem })
  respond endpoint (err e) = err e

  unfoldable pub route : Orders → Request ext.Token → Exec State HttpResponse
  route orders request w =
      let (r, w') = answer orders request.token request.endpoint w in
      (respond request.endpoint r, w')

  -- `RequestIDMiddleware.dispatch`
  unfoldable pub with_request_id : Exec State HttpResponse → Exec State HttpResponse
  with_request_id call_next = do
    request_id ← run new_id
    response ← call_next
    pure (record response { headers = response.headers ++ ("X-Request-ID", request_id) ∷ [] })

  -- `LoggingMiddleware.dispatch`, outside the other, since it is added last.
  unfoldable pub with_logging :
      Request ext.Token → Exec State HttpResponse → Exec (State × List LogEntry) HttpResponse
  with_logging request call_next (w, log) =
      let (r, w') = call_next w in
      elim r [
        | ok response ↦ (
          ok response,
          (
            w',
            log
                ++ (record {
                  method = request.method;
                  path = request.path;
                  status_code = response.status_code;
                })
                  ∷ [],
          ),
        )
        | err e ↦ (err e, (w', log))
      ]

  unfoldable pub handle : Orders → Request ext.Token → Exec (State × List LogEntry) HttpResponse
  handle orders request = with_logging request (with_request_id (route orders request))

-- `check_postgres` and `check_redis`, by how the one command of each ends.
unfoldable pub check : Result (Unit {0}) → Bool
check (ok _) = true
check (err e) = false

pub record Health : Type 0 where
  pub status_code : ℕ
  pub status : String
  pub postgres : String
  pub redis : String

abbrev healthy : Bool → String
healthy b = if b then "healthy" else "unhealthy"

unfoldable pub health : Result (Unit {0}) → Result (Unit {0}) → Health
unfolding check
health select_1 ping =
    let postgres_ok = check select_1 in
    let redis_ok = check ping in
    let is_healthy = postgres_ok && redis_ok in
    record {
      status_code = if is_healthy then 200 else 503;
      status = healthy is_healthy;
      postgres = healthy postgres_ok;
      redis = healthy redis_ok;
    }
