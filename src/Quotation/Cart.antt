-- ===== src/Quotation/Cart.antt =====
-- The cart operations of app/services/quotation_service.py.
pub mod View
use global_detergent_sales_a.Prelude.{
  ℕ, ◌+◌, Text, text_eq, Option, none, some, List, [], ◌∷◌, is_empty, is_none, ◌==◌, if◌then◌else◌,
}
use global_detergent_sales_a.Errors.{Error}
use global_detergent_sales_a.Exec.{Done, Exec, ok, err, reads, modify, ◌>>=◌}
use global_detergent_sales_a.Schemas.Quotation.{QuoteCartItem}
use global_detergent_sales_a.Schemas.Session.{ConversationSession}
use global_detergent_sales_a.Calculator.{current_active_product}
use global_detergent_sales_a.Quotation.{Services, PyObject, validate_quantity, commit_cart_change}

-- `_find_cart_item`
unfoldable pub find_cart_item : List QuoteCartItem → Text → Option QuoteCartItem
find_cart_item [] product_id = none
find_cart_item (item ∷ cart) product_id =
    if text_eq item.product_id product_id then some item else find_cart_item cart product_id

-- The new cart of `add_item`: the quantity of the item that is found grows, or a new item is
-- appended.
unfoldable pub add_to_cart : Text → ℕ → List QuoteCartItem → List QuoteCartItem
add_to_cart product_id quantity [] = record { product_id = product_id; quantity = quantity } ∷ []
add_to_cart product_id quantity (item ∷ cart) =
    if text_eq item.product_id product_id
    then record item { quantity = item.quantity + quantity } ∷ cart
    else item ∷ add_to_cart product_id quantity cart

-- The new cart of `update_item_quantity`
unfoldable pub with_quantity : Text → ℕ → List QuoteCartItem → List QuoteCartItem
with_quantity product_id quantity [] = []
with_quantity product_id quantity (item ∷ cart) =
    record {
      product_id = item.product_id;
      quantity = if text_eq item.product_id product_id then quantity else item.quantity;
    }
    ∷ with_quantity product_id quantity cart

-- The new cart of `remove_item`
unfoldable pub without_product : Text → List QuoteCartItem → List QuoteCartItem
without_product product_id [] = []
without_product product_id (item ∷ cart) =
    let rest = without_product product_id cart in
    if text_eq item.product_id product_id then rest else item ∷ rest

module _ (services : Services) where
  unfoldable pub add_item : Text → PyObject → Exec ConversationSession Done
  unfolding commit_cart_change
  add_item product_id quantity = do
    product ← reads (λ s. current_active_product services.catalog product_id)
    valid_quantity ← reads (λ s. validate_quantity quantity)
    modify (λ s. commit_cart_change (add_to_cart product.id valid_quantity s.cart) s)

  -- The end of `update_item_quantity`, from the item that was found on
  unfoldable pub replace_quantity : Text → ℕ → Option QuoteCartItem → Exec ConversationSession Done
  unfolding commit_cart_change
  replace_quantity product_id quantity none s = (err Error.product_not_found, s)
  replace_quantity product_id quantity (some existing) s =
      if existing.quantity == quantity
      then (ok tt, s)
      else (ok tt, commit_cart_change (with_quantity product_id quantity s.cart) s)

  unfoldable pub update_item_quantity : Text → PyObject → Exec ConversationSession Done
  update_item_quantity product_id quantity = do
    product ← reads (λ s. current_active_product services.catalog product_id)
    valid_quantity ← reads (λ s. validate_quantity quantity)
    existing ← reads (λ s. ok (find_cart_item s.cart product.id))
    replace_quantity product.id valid_quantity existing

  unfoldable pub remove_item : Text → Exec ConversationSession Done
  unfolding commit_cart_change
  remove_item product_id = do
    product ← reads (λ s. current_active_product services.catalog product_id)
    λ s.
        if is_none (find_cart_item s.cart product.id)
        then (err Error.product_not_found, s)
        else (ok tt, commit_cart_change (without_product product.id s.cart) s)

unfoldable pub clear_cart : Exec ConversationSession Done
unfolding commit_cart_change
clear_cart s = if is_empty s.cart then (ok tt, s) else (ok tt, commit_cart_change [] s)
