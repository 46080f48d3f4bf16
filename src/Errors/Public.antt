-- ===== src/Errors/Public.antt =====
-- Lemmas on the public payloads of app/core/exceptions.py.
use global_detergent_sales_a.Prelude.{◌≡◌, true, arith}
use global_detergent_sales_a.Errors.{ApplicationError, is_business, to_public_dict}

-- Two business rejections with the same public payload are the same rejection.
pub to_public_dict-business-injective :
    (e f : ApplicationError)
    → is_business e ≡ true
    → is_business f ≡ true
    → to_public_dict e ≡ to_public_dict f
    → e ≡ f
unfolding to_public_dict
to_public_dict-business-injective e f he hf h = ground arith
