-- ===== src/Quotation/Cart/View.antt =====
-- The cart of app/services/quotation_service.py as a map from product IDs to quantities, and the
-- invariant of a cart: every product stands in it once, with a positive quantity.
use global_detergent_sales_a.Prelude.{
  ℕ, ◌+◌, ◌<◌, Text, text_eq, text_eq_iff, ◌≡◌, refl, false, none, some, List, [], ◌∷◌, arith,
  if◌then◌else◌, ◌&&◌, is_some,
}
use global_detergent_sales_a.Schemas.Quotation.{QuoteCartItem}
use global_detergent_sales_a.Quotation.Cart.{
  find_cart_item, add_to_cart, with_quantity, without_product,
}

-- The quantity of a product, 0 where it is not in the cart.
unfoldable pub quantity_of : List QuoteCartItem → Text → ℕ
unfolding find_cart_item
quantity_of cart product_id = elim (find_cart_item cart product_id) [
  | none ↦ 0
  | some item ↦ item.quantity
]

abbrev pub IsValidCart : List QuoteCartItem → Type 0
IsValidCart [] = Unit
IsValidCart (item ∷ cart) =
    (0 < item.quantity) × (find_cart_item cart item.product_id ≡ none) × IsValidCart cart

-- Adding raises the quantity of the product and leaves every other quantity.
pub quantity_of-add :
    (product_id : Text) (quantity : ℕ) (cart : List QuoteCartItem) (x : Text)
    → quantity_of (add_to_cart product_id quantity cart) x
      ≡ (if text_eq product_id x then quantity_of cart x + quantity else quantity_of cart x)
unfolding quantity_of add_to_cart
quantity_of-add product_id quantity [] x = ground arith
quantity_of-add product_id quantity (item ∷ cart) x = ground (
  arith,
  text_eq_iff item.product_id product_id,
  text_eq_iff item.product_id x,
  text_eq_iff product_id x,
  quantity_of-add product_id quantity cart x,
)

-- Setting a quantity sets that of the product, if it is in the cart, and no other.
pub quantity_of-with :
    (product_id : Text) (quantity : ℕ) (cart : List QuoteCartItem) (x : Text)
    → quantity_of (with_quantity product_id quantity cart) x ≡ (
        if text_eq product_id x && is_some (find_cart_item cart x)
        then quantity
        else quantity_of cart x)
unfolding quantity_of with_quantity
quantity_of-with product_id quantity [] x = ground arith
quantity_of-with product_id quantity (item ∷ cart) x = ground (
  arith,
  text_eq_iff item.product_id product_id,
  text_eq_iff item.product_id x,
  text_eq_iff product_id x,
  quantity_of-with product_id quantity cart x,
)

pub quantity_of-without :
    (product_id : Text) (cart : List QuoteCartItem) (x : Text)
    → quantity_of (without_product product_id cart) x
      ≡ (if text_eq product_id x then 0 else quantity_of cart x)
unfolding quantity_of without_product
quantity_of-without product_id [] x = ground arith
quantity_of-without product_id (item ∷ cart) x = ground (
  arith,
  text_eq_iff item.product_id product_id,
  text_eq_iff item.product_id x,
  text_eq_iff product_id x,
  quantity_of-without product_id cart x,
)

-- Which products are in a changed cart.
find-add :
    (product_id : Text) (quantity : ℕ) (cart : List QuoteCartItem) (x : Text)
    → text_eq product_id x ≡ false
    → find_cart_item (add_to_cart product_id quantity cart) x ≡ find_cart_item cart x
unfolding add_to_cart find_cart_item
find-add product_id quantity [] x ne = ground arith
find-add product_id quantity (item ∷ cart) x ne = ground (
  arith,
  text_eq_iff item.product_id product_id,
  text_eq_iff item.product_id x,
  text_eq_iff product_id x,
  find-add product_id quantity cart x ne,
)

find-with :
    (product_id : Text) (quantity : ℕ) (cart : List QuoteCartItem) (x : Text)
    → find_cart_item cart x ≡ none
    → find_cart_item (with_quantity product_id quantity cart) x ≡ none
unfolding with_quantity find_cart_item
find-with product_id quantity [] x h = refl
find-with product_id quantity (item ∷ cart) x h =
    ground (arith, find-with product_id quantity cart x)

find-without :
    (product_id : Text) (cart : List QuoteCartItem) (x : Text)
    → find_cart_item cart x ≡ none
    → find_cart_item (without_product product_id cart) x ≡ none
unfolding without_product find_cart_item
find-without product_id [] x h = refl
find-without product_id (item ∷ cart) x h = ground (arith, find-without product_id cart x)

pub add_to_cart-IsValidCart :
    (product_id : Text) (quantity : ℕ) (cart : List QuoteCartItem)
    → 0 < quantity
    → IsValidCart cart
    → IsValidCart (add_to_cart product_id quantity cart)
unfolding add_to_cart find_cart_item
add_to_cart-IsValidCart product_id quantity [] pos v = (pos, refl, tt)
add_to_cart-IsValidCart product_id quantity (item ∷ cart) pos v = ground (
  arith,
  text_eq_iff item.product_id product_id,
  text_eq_iff product_id item.product_id,
  find-add product_id quantity cart item.product_id,
  add_to_cart-IsValidCart product_id quantity cart pos v.2,
)

pub with_quantity-IsValidCart :
    (product_id : Text) (quantity : ℕ) (cart : List QuoteCartItem)
    → 0 < quantity
    → IsValidCart cart
    → IsValidCart (with_quantity product_id quantity cart)
unfolding with_quantity
with_quantity-IsValidCart product_id quantity [] pos v = tt
with_quantity-IsValidCart product_id quantity (item ∷ cart) pos v = ground (
  arith,
  find-with product_id quantity cart item.product_id,
  with_quantity-IsValidCart product_id quantity cart pos v.2,
)

pub without_product-IsValidCart :
    (product_id : Text) (cart : List QuoteCartItem)
    → IsValidCart cart
    → IsValidCart (without_product product_id cart)
unfolding without_product
without_product-IsValidCart product_id [] v = tt
without_product-IsValidCart product_id (item ∷ cart) v = ground (
  arith,
  find-without product_id cart item.product_id,
  without_product-IsValidCart product_id cart v.2,
)
