-- ===== src/System/RequestIds.antt =====
-- app/main.py and app/infra/middleware/request_id.py: the identifiers of requests.
use library_api.Prelude.{
  ℕ, ◌≤◌, ◌<◌, ◌≡◌, ◌≢◌, refl, sym, ap, ◌∙◌, String, Option, none, some, List, [], ◌∷◌, ◌++◌, ◌==◌,
  arith, if◌then◌else◌,
}
use library_api.Errors.{
  domain, request_validation_error, multiple_results_found, type_error, attribute_error,
  integrity_error, key_error,
}
use library_api.Exec.{Result, ok, err}
use library_api.External.{External}
use library_api.World.{State, new_id}
use library_api.Inventory.Identifiers.{serve_later}
use library_api.Web.{Endpoint, Reply, Orders, answer}
use library_api.Web.Access.{reads, serves}
use library_api.Web.Answers.{answer-Course}
use library_api.System.{
  Request, HttpResponse, LogEntry, handle, respond, own_headers, with_logging, route,
  with_request_id,
}

-- The value of a header.
unfoldable pub lookup : String → List (String × String) → Option String
lookup name [] = none
lookup name ((n, value) ∷ headers) = if n == name then some value else lookup name headers

lookup-own_headers :
    (e : Endpoint) (id : String)
    → lookup "X-Request-ID" (own_headers e ++ ("X-Request-ID", id) ∷ []) ≡ some id
unfolding lookup own_headers
lookup-own_headers (Endpoint.export_loans_csv s u b f t) id = refl
lookup-own_headers (Endpoint.export_fines_pdf u b m f t) id = refl
lookup-own_headers _ id = refl

some-injective : (s t : String) → some s ≡ some t → s ≡ t
some-injective s t h = ground arith

module _ ⦃ext : External⦄ where
  -- The requests one after the other.
  unfoldable pub handle_all :
      Orders → List (Request ext.Token) → State × List LogEntry → State × List LogEntry
  unfolding handle
  handle_all orders [] s = s
  handle_all orders (request ∷ requests) s = handle_all orders requests (handle orders request s).1

  abbrev pub request_id : HttpResponse → Option String
  request_id response = lookup "X-Request-ID" response.headers

  ok-injective : (x y : HttpResponse) → ok x ≡ ok y → x ≡ y
  ok-injective x y h = ground arith

  -- The middleware around what the controller came to.
  abbrev wrapped :
      Request ext.Token
      → State
      → List LogEntry
      → Result (Reply ext.Token) × State
      → Result HttpResponse × (State × List LogEntry)
  wrapped request w log a =
      with_logging request (with_request_id (λ v. (respond request.endpoint a.0, a.1))) (w, log)

  module _ (request : Request ext.Token) (w : State) (log : List LogEntry) where
    wrapped_state : (a : Result (Reply ext.Token) × State) → (wrapped request w log a).1.0 ≡ a.1
    unfolding with_logging with_request_id respond
    wrapped_state (ok r, v) = refl
    wrapped_state (err (domain d), v) = refl
    wrapped_state (err request_validation_error, v) = refl
    wrapped_state (err multiple_results_found, v) = refl
    wrapped_state (err type_error, v) = refl
    wrapped_state (err attribute_error, v) = refl
    wrapped_state (err integrity_error, v) = refl
    wrapped_state (err key_error, v) = refl

    wrapped_id :
        (a : Result (Reply ext.Token) × State) (response : HttpResponse)
        → (wrapped request w log a).0 ≡ ok response
        → request_id response ≡ some (ext.uuid w.identifiers)
    unfolding with_logging with_request_id respond
    wrapped_id (ok r, v) response h =
        ap request_id (sym (ok-injective _ response h)) ∙ lookup-own_headers request.endpoint _
    wrapped_id (err (domain d), v) response h =
        ap request_id (sym (ok-injective _ response h)) ∙ unfold lookup in refl
    wrapped_id (err request_validation_error, v) response h =
        ap request_id (sym (ok-injective _ response h)) ∙ unfold lookup in refl
    wrapped_id (err multiple_results_found, v) response h = ground arith
    wrapped_id (err type_error, v) response h = ground arith
    wrapped_id (err attribute_error, v) response h = ground arith
    wrapped_id (err integrity_error, v) response h = ground arith
    wrapped_id (err key_error, v) response h = ground arith

  answer_later :
      (orders : Orders) (token : ext.Token) (e : Endpoint) (w : State)
      → w.identifiers ≤ (answer orders token e w).1.identifiers
  answer_later orders token e w = elim (answer-Course orders token e w) [
    | reads same ↦ ground (arith, same.identifiers)
    | serves s r asked before done allowed ↦
        let drawn = serve_later r s in
        let count = ap (λ (v : State). v.identifiers) done in
        ground (arith, before.identifiers, drawn, count)
  ]

  handle_later :
      (orders : Orders) (request : Request ext.Token) (w : State) (log : List LogEntry)
      → w.identifiers < (handle orders request (w, log)).1.0.identifiers
  unfolding handle route with_logging with_request_id
  handle_later orders request w log =
      let a = answer orders request.token request.endpoint (new_id w).1 in
      let count : (handle orders request (w, log)).1.0.identifiers ≡ a.1.identifiers =
        ap (λ (v : State). v.identifiers) (wrapped_state request w log a) in
      let drawn = answer_later orders request.token request.endpoint (new_id w).1 in
      rw count (omega (arith, drawn))

  handle_id :
      (orders : Orders) (request : Request ext.Token) (w : State) (log : List LogEntry)
      (response : HttpResponse)
      → (handle orders request (w, log)).0 ≡ ok response
      → request_id response ≡ some (ext.uuid w.identifiers)
  unfolding handle route with_logging with_request_id
  handle_id orders request w log response h =
      wrapped_id request w log (answer orders request.token request.endpoint (new_id w).1) response
        h

  handle_all_later :
      (orders : Orders) (requests : List (Request ext.Token)) (s : State × List LogEntry)
      → s.0.identifiers ≤ (handle_all orders requests s).0.identifiers
  unfolding handle_all
  handle_all_later orders [] s = omega arith
  handle_all_later orders (request ∷ requests) s =
      let once = handle_later orders request s.0 s.1 in
      let others = handle_all_later orders requests (handle orders request s).1 in
      omega (arith, once, others)

  -- Whatever requests come, with whatever tokens: no two responses carry the same `X-Request-ID`, if
  -- `uuid7` never gives one identifier out twice.
  pub request_id-handle_all :
      (orders : Orders) (first second : Request ext.Token) (between : List (Request ext.Token))
      (s : State × List LogEntry) (r r' : HttpResponse)
      → ((m n : ℕ) → ext.uuid m ≡ ext.uuid n → m ≡ n)
      → (handle orders first s).0 ≡ ok r
      → (handle orders second (handle_all orders between (handle orders first s).1)).0 ≡ ok r'
      → (id : String) × (request_id r ≡ some id) × (request_id r' ≢ some id)
  request_id-handle_all orders first second between s r r' unique one two =
      let s' = handle_all orders between (handle orders first s).1 in
      let begun = handle_later orders first s.0 s.1 in
      let later = handle_all_later orders between (handle orders first s).1 in
      let mine = handle_id orders first s.0 s.1 r one in
      let its = handle_id orders second s'.0 s'.1 r' two in
      (
        ext.uuid s.0.identifiers,
        mine,
        λ same.
            let equal =
              unique s'.0.identifiers s.0.identifiers (some-injective _ _ (sym its ∙ same)) in
            absurd (omega (arith, equal, begun, later)),
      )
