-- ===== src/Errors.antt =====
-- app/core/exceptions.py: the exceptions of the application, and what of them is made public.
-- The exceptions of app/services/message_deduplication_service.py and
-- app/services/whatsapp_processing_coordinator.py that derive from `TechnicalError` are listed too,
-- and those of Python's library that the modelled code raises.
pub mod Public
use global_detergent_sales_a.Prelude.{
  Text, codes, Bool, true, false, Option, none, some, [], if◌then◌else◌,
}

pub data Error : Type 0 where
  product_not_found invalid_quantity empty_quote currency_mismatch : Error
  customer_information_required quote_not_confirmed : Error
  invalid_conversation_state stale_preview : Error
  quotation_generation whatsapp_api agent_execution tool_execution tool_not_found : Error
  invalid_static_data session_storage_unavailable : Error
  message_processing message_ownership message_stage processing_retryable : Error
  value_error type_error validation_error invalid_operation : Error
  assertion_error runtime_error : Error

-- The concrete subclasses of `ApplicationError`
pub data ApplicationError : Type 0 where
  product_not_found invalid_quantity empty_quote currency_mismatch : ApplicationError
  customer_information_required quote_not_confirmed : ApplicationError
  invalid_conversation_state stale_preview : ApplicationError
  quotation_generation whatsapp_api agent_execution tool_execution : ApplicationError
  tool_not_found invalid_static_data session_storage_unavailable : ApplicationError
  message_processing message_ownership message_stage processing_retryable : ApplicationError

-- `isinstance(error, ApplicationError)`: the exceptions of Python's library are not, and have no
-- public payload.
pub as_application : Error → Option ApplicationError
as_application Error.product_not_found = some ApplicationError.product_not_found
as_application Error.invalid_quantity = some ApplicationError.invalid_quantity
as_application Error.empty_quote = some ApplicationError.empty_quote
as_application Error.currency_mismatch = some ApplicationError.currency_mismatch
as_application Error.customer_information_required =
    some ApplicationError.customer_information_required
as_application Error.quote_not_confirmed = some ApplicationError.quote_not_confirmed
as_application Error.invalid_conversation_state = some ApplicationError.invalid_conversation_state
as_application Error.stale_preview = some ApplicationError.stale_preview
as_application Error.quotation_generation = some ApplicationError.quotation_generation
as_application Error.whatsapp_api = some ApplicationError.whatsapp_api
as_application Error.agent_execution = some ApplicationError.agent_execution
as_application Error.tool_execution = some ApplicationError.tool_execution
as_application Error.tool_not_found = some ApplicationError.tool_not_found
as_application Error.invalid_static_data = some ApplicationError.invalid_static_data
as_application Error.session_storage_unavailable = some ApplicationError.session_storage_unavailable
as_application Error.message_processing = some ApplicationError.message_processing
as_application Error.message_ownership = some ApplicationError.message_ownership
as_application Error.message_stage = some ApplicationError.message_stage
as_application Error.processing_retryable = some ApplicationError.processing_retryable
as_application Error.value_error = none
as_application Error.type_error = none
as_application Error.validation_error = none
as_application Error.invalid_operation = none
as_application Error.assertion_error = none
as_application Error.runtime_error = none

-- `issubclass(cls, BusinessError)`
unfoldable pub is_business : ApplicationError → Bool
is_business ApplicationError.product_not_found = true
is_business ApplicationError.invalid_quantity = true
is_business ApplicationError.empty_quote = true
is_business ApplicationError.currency_mismatch = true
is_business ApplicationError.customer_information_required = true
is_business ApplicationError.quote_not_confirmed = true
is_business ApplicationError.invalid_conversation_state = true
is_business ApplicationError.stale_preview = true
is_business ApplicationError.quotation_generation = false
is_business ApplicationError.whatsapp_api = false
is_business ApplicationError.agent_execution = false
is_business ApplicationError.tool_execution = false
is_business ApplicationError.tool_not_found = false
is_business ApplicationError.invalid_static_data = false
is_business ApplicationError.session_storage_unavailable = false
is_business ApplicationError.message_processing = false
is_business ApplicationError.message_ownership = false
is_business ApplicationError.message_stage = false
is_business ApplicationError.processing_retryable = false

-- The class attribute `code`
pub error_code : ApplicationError → Text
error_code ApplicationError.product_not_found = codes "product_not_found"
error_code ApplicationError.invalid_quantity = codes "invalid_quantity"
error_code ApplicationError.empty_quote = codes "empty_quote"
error_code ApplicationError.currency_mismatch = codes "currency_mismatch"
error_code ApplicationError.customer_information_required = codes "customer_information_required"
error_code ApplicationError.quote_not_confirmed = codes "quote_not_confirmed"
error_code ApplicationError.invalid_conversation_state = codes "invalid_conversation_state"
error_code ApplicationError.stale_preview = codes "stale_preview"
error_code ApplicationError.quotation_generation = codes "quotation_generation_failed"
error_code ApplicationError.whatsapp_api = codes "whatsapp_api_error"
error_code ApplicationError.agent_execution = codes "agent_execution_failed"
error_code ApplicationError.tool_execution = codes "tool_execution_failed"
error_code ApplicationError.tool_not_found = codes "tool_not_found"
error_code ApplicationError.invalid_static_data = codes "invalid_static_data"
error_code ApplicationError.session_storage_unavailable = codes "session_storage_unavailable"
error_code ApplicationError.message_processing = codes "message_processing_storage_error"
error_code ApplicationError.message_ownership = codes "message_processing_ownership_lost"
error_code ApplicationError.message_stage = codes "message_processing_stage_error"
error_code ApplicationError.processing_retryable = codes "whatsapp_processing_retryable"

abbrev pub technical_fallback_message : Text
technical_fallback_message =
    codes "Sorry, I'm temporarily unable to process your request. Please try again."

-- The class attribute `public_message` where a class sets it: a technical error never does.
pub own_public_message : ApplicationError → Option Text
own_public_message ApplicationError.product_not_found =
    some (codes "The requested product was not found.")
own_public_message ApplicationError.invalid_quantity =
    some (codes "Quantity must be a positive whole number.")
own_public_message ApplicationError.empty_quote =
    some (codes "The quotation must contain at least one item.")
own_public_message ApplicationError.currency_mismatch =
    some (codes "The product currency does not match the quotation currency.")
own_public_message ApplicationError.customer_information_required =
    some (codes "Customer information is required before creating a quotation.")
own_public_message ApplicationError.quote_not_confirmed =
    some (codes "Please confirm the current quotation before it is generated.")
own_public_message ApplicationError.invalid_conversation_state =
    some (codes "That action is not available at this stage of the conversation.")
own_public_message ApplicationError.stale_preview =
    some (codes "The quotation has changed. Please review and confirm the latest preview.")
own_public_message ApplicationError.quotation_generation = none
own_public_message ApplicationError.whatsapp_api = none
own_public_message ApplicationError.agent_execution = none
own_public_message ApplicationError.tool_execution = none
own_public_message ApplicationError.tool_not_found = none
own_public_message ApplicationError.invalid_static_data = none
own_public_message ApplicationError.session_storage_unavailable = none
own_public_message ApplicationError.message_processing = none
own_public_message ApplicationError.message_ownership = none
own_public_message ApplicationError.message_stage = none
own_public_message ApplicationError.processing_retryable = none

-- The class attribute `public_message`, inherited from `ApplicationError` where no class sets it
pub public_message : ApplicationError → Text
unfolding own_public_message
public_message e = elim (own_public_message e) [ none ↦ technical_fallback_message | some m ↦ m ]

-- The class attribute `_public_code`: `BusinessError` overrides it by `None`.
public_code_override : ApplicationError → Option Text
unfolding is_business
public_code_override e = if is_business e then none else some (codes "technical_error")

-- `self._public_code or self.code`
pub public_code : ApplicationError → Text
unfolding public_code_override error_code
public_code e = elim (public_code_override e) [ none ↦ error_code e | some c ↦ c ]

pub record PublicPayload : Type 0 where
  pub code : Text
  pub message : Text

-- `ApplicationError.to_public_dict`
pub to_public_dict : ApplicationError → PublicPayload
unfolding public_code public_message
to_public_dict e = record { code = public_code e; message = public_message e }
