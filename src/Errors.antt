-- ===== src/Errors.antt =====
-- app/exceptions/base.py and app/exceptions/handlers.py: the domain exceptions, and the HTTP
-- answers that the application gives for them.
use library_api.Prelude.{ℕ, String}

pub data DomainException : Type 0 where
  business_rule : String → DomainException
  fine_payment_required : DomainException
  not_found : String → DomainException
  unauthorized : String → DomainException

-- How a handler can end other than by returning: with a domain exception, or with one of the
-- errors for which the application registers no handler.
pub data Error : Type 0 where
  domain : DomainException → Error
  multiple_results_found : Error
  type_error : Error
  attribute_error : Error
  integrity_error : Error
  request_validation_error : Error
  key_error : Error

pub record JsonResponse : Type 0 where
  pub status_code : ℕ
  pub code : String
  pub message : String

unfoldable pub code_of : DomainException → String
code_of (business_rule m) = "BUSINESS_RULE_ERROR"
code_of fine_payment_required = "FINE_PAYMENT_REQUIRED"
code_of (not_found m) = "NOT_FOUND"
code_of (unauthorized m) = "UNAUTHORIZED"

unfoldable pub message_of : DomainException → String
message_of (business_rule m) = m
message_of fine_payment_required = "A multa do empréstimo deve ser paga antes de devolver o livro"
message_of (not_found m) = m
message_of (unauthorized m) = m

-- The handlers registered in app/main.py: `FinePaymentRequiredException` is a
-- `BusinessRuleException`, so the handler of that class answers for it.
unfoldable pub exception_handler : DomainException → JsonResponse
unfolding code_of message_of
exception_handler (business_rule m) = record {
  status_code = 400;
  code = code_of (business_rule m);
  message = message_of (business_rule m);
}
exception_handler fine_payment_required = record {
  status_code = 400;
  code = code_of fine_payment_required;
  message = message_of fine_payment_required;
}
exception_handler (not_found m) = record {
  status_code = 404;
  code = code_of (not_found m);
  message = message_of (not_found m);
}
exception_handler (unauthorized m) = record {
  status_code = 401;
  code = code_of (unauthorized m);
  message = message_of (unauthorized m);
}
