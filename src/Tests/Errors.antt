-- ===== src/Tests/Errors.antt =====
-- The public payloads of errors on concrete errors.
use global_detergent_sales_a.Prelude.{◌≡◌, refl}
use global_detergent_sales_a.Errors.{ApplicationError, is_business}
use global_detergent_sales_a.Errors.Public.{to_public_dict-business-injective}

to_public_dict-business-injective_example :
    ApplicationError.stale_preview ≡ ApplicationError.stale_preview
unfolding is_business
to_public_dict-business-injective_example =
    to_public_dict-business-injective ApplicationError.stale_preview ApplicationError.stale_preview
      refl refl refl
