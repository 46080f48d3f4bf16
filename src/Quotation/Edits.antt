-- ===== src/Quotation/Edits.antt =====
-- Lemmas on the edits of the cart in app/services/quotation_service.py.
use global_detergent_sales_a.Prelude.{
  ℕ, ◌+◌, ◌<◌, Text, text_eq, ◌≡◌, ◌⊎◌, inl, inr, arith, if◌then◌else◌, is_some, true, ap,
  Bool-cases, text_eq_iff, is_empty, ◌∙◌, [],
}
use global_detergent_sales_a.Exec.{ok, Result-cases}
use global_detergent_sales_a.Schemas.Product.{Product}
use global_detergent_sales_a.Schemas.Session.{ConversationSession}
use global_detergent_sales_a.Calculator.{current_active_product}
use global_detergent_sales_a.Quotation.{Services, PyObject, validate_quantity}
use global_detergent_sales_a.Quotation.Cart.{
  find_cart_item, add_item, update_item_quantity, replace_quantity, remove_item, clear_cart,
  add_to_cart, with_quantity, without_product,
}
use global_detergent_sales_a.Quotation.Cart.View.{
  quantity_of, IsValidCart, quantity_of-add, quantity_of-with, quantity_of-without,
  add_to_cart-IsValidCart, with_quantity-IsValidCart, without_product-IsValidCart,
}
use global_detergent_sales_a.Quotation.Customer.{set_customer_information, CustomerUpdate}
use global_detergent_sales_a.Quotation.Revocation.{Edit, apply_edit}

validate_quantity_pos : (v : PyObject) {n : ℕ} → validate_quantity v ≡ ok n → 0 < n
unfolding validate_quantity
validate_quantity_pos v h = ground arith

module _ (services : Services) (s s' : ConversationSession) where
  add_item-inv :
      (product_id : Text) (quantity : PyObject)
      → add_item services product_id quantity s ≡ (ok tt, s')
      → (p : Product) × (n : ℕ) × (current_active_product services.catalog product_id ≡ ok p)
        × (validate_quantity quantity ≡ ok n)
        × (s'.cart ≡ add_to_cart p.id n s.cart)
  unfolding add_item
  add_item-inv product_id quantity h =
      elim (Result-cases (current_active_product services.catalog product_id)) [
        | inr (e, bad) ↦ absurd (ground arith)
        | inl (p, found) ↦ elim (Result-cases (validate_quantity quantity)) [
          | inr (e, bad) ↦ absurd (ground arith)
          | inl (n, valid) ↦ (p, n, found, valid, ground arith)
        ]
      ]

  update_item_quantity-inv :
      (product_id : Text) (quantity : PyObject)
      → update_item_quantity services product_id quantity s ≡ (ok tt, s')
      → (p : Product) × (n : ℕ) × (current_active_product services.catalog product_id ≡ ok p)
        × (validate_quantity quantity ≡ ok n)
        × (is_some (find_cart_item s.cart p.id) ≡ true)
        × ((quantity_of s.cart p.id ≡ n) × (s' ≡ s) ⊎ (s'.cart ≡ with_quantity p.id n s.cart))
  unfolding update_item_quantity replace_quantity quantity_of
  update_item_quantity-inv product_id quantity h =
      elim (Result-cases (current_active_product services.catalog product_id)) [
        | inr (e, bad) ↦ absurd (ground arith)
        | inl (p, found) ↦ elim (Result-cases (validate_quantity quantity)) [
          | inr (e, bad) ↦ absurd (ground arith)
          | inl (n, valid) ↦ (p, n, found, valid, ground arith, ground arith)
        ]
      ]

  remove_item-inv :
      (product_id : Text)
      → remove_item services product_id s ≡ (ok tt, s')
      → (p : Product) × (current_active_product services.catalog product_id ≡ ok p)
        × (is_some (find_cart_item s.cart p.id) ≡ true)
        × (s'.cart ≡ without_product p.id s.cart)
  unfolding remove_item
  remove_item-inv product_id h =
      elim (Result-cases (current_active_product services.catalog product_id)) [
        | inr (e, bad) ↦ absurd (ground arith)
        | inl (p, found) ↦ (p, found, ground arith, ground arith)
      ]

  -- Adding an item that succeeds raises the quantity of the product that the catalog has under the
  -- ID by the valid quantity, and leaves the quantities of all other products.
  pub add_item-quantities :
      (product_id : Text) (quantity : PyObject)
      → add_item services product_id quantity s ≡ (ok tt, s')
      → (p : Product) × (n : ℕ) × (current_active_product services.catalog product_id ≡ ok p)
        × (validate_quantity quantity ≡ ok n)
        × ((x : Text)
            → quantity_of s'.cart x
              ≡ (if text_eq p.id x then quantity_of s.cart x + n else quantity_of s.cart x))
  add_item-quantities product_id quantity h =
      let (p, n, found, valid, cart) = add_item-inv product_id quantity h in
      (p, n, found, valid, λ x. rw cart (quantity_of-add p.id n s.cart x))

  -- Updating a quantity that succeeds sets the quantity of a product that was in the cart to the
  -- valid quantity, and leaves the quantities of all other products.
  pub update_item_quantity-quantities :
      (product_id : Text) (quantity : PyObject)
      → update_item_quantity services product_id quantity s ≡ (ok tt, s')
      → (p : Product) × (n : ℕ) × (current_active_product services.catalog product_id ≡ ok p)
        × (validate_quantity quantity ≡ ok n)
        × (is_some (find_cart_item s.cart p.id) ≡ true)
        × ((x : Text)
            → quantity_of s'.cart x ≡ (if text_eq p.id x then n else quantity_of s.cart x))
  update_item_quantity-quantities product_id quantity h =
      let (p, n, found, valid, present, change) = update_item_quantity-inv product_id quantity h in
      (
        p,
        n,
        found,
        valid,
        present,
        λ x. elim change [
          | inl (already, same) ↦
              let kept : quantity_of s'.cart x ≡ quantity_of s.cart x =
                ap (λ (t : ConversationSession). quantity_of t.cart x) same in
              ground (arith, kept, text_eq_iff p.id x)
          | inr cart ↦
              let set_to : quantity_of s'.cart x ≡ _ =
                ap (λ c. quantity_of c x) cart ∙ quantity_of-with p.id n s.cart x in
              ground (arith, set_to, text_eq_iff p.id x)
        ],
      )

  -- Removing an item that succeeds takes a product that was in the cart out of it, and leaves the
  -- quantities of all other products.
  pub remove_item-quantities :
      (product_id : Text)
      → remove_item services product_id s ≡ (ok tt, s')
      → (p : Product) × (current_active_product services.catalog product_id ≡ ok p)
        × (is_some (find_cart_item s.cart p.id) ≡ true)
        × ((x : Text)
            → quantity_of s'.cart x ≡ (if text_eq p.id x then 0 else quantity_of s.cart x))
  remove_item-quantities product_id h =
      let (p, found, present, cart) = remove_item-inv product_id h in
      (p, found, present, λ x. rw cart (quantity_of-without p.id s.cart x))

clear_cart-IsValidCart :
    (s s' : ConversationSession)
    → IsValidCart s.cart
    → clear_cart s ≡ (ok tt, s')
    → IsValidCart s'.cart
unfolding clear_cart
clear_cart-IsValidCart s s' v h = elim (Bool-cases (is_empty s.cart)) [
  | inl empty ↦ let same : s' ≡ s = ground arith in rw same v
  | inr full ↦ let cleared : s'.cart ≡ [] = ground arith in rw cleared tt
]

-- Changing the customer's details leaves the cart alone.
set_customer_information-cart :
    (details : CustomerUpdate) (s s' : ConversationSession)
    → set_customer_information details s ≡ (ok tt, s')
    → s'.cart ≡ s.cart
unfolding set_customer_information
set_customer_information-cart details s s' h = ground arith

-- Every edit that succeeds keeps each product in the cart once, with a positive quantity.
pub apply_edit-IsValidCart :
    (services : Services) (e : Edit) (s s' : ConversationSession)
    → IsValidCart s.cart
    → apply_edit services e s ≡ (ok tt, s')
    → IsValidCart s'.cart
unfolding apply_edit
apply_edit-IsValidCart services (Edit.add product_id quantity) s s' v h =
    let (p, n, found, valid, cart) = add_item-inv services s s' product_id quantity h in
    rw cart (add_to_cart-IsValidCart p.id n s.cart (validate_quantity_pos quantity valid) v)
apply_edit-IsValidCart services (Edit.update product_id quantity) s s' v h =
    let r = update_item_quantity-inv services s s' product_id quantity h in
    elim r.5 [
      | inl (already, same) ↦ rw same v
      | inr cart ↦
          rw cart
            (with_quantity-IsValidCart r.0.id r.1 s.cart (validate_quantity_pos quantity r.3) v)
    ]
apply_edit-IsValidCart services (Edit.remove product_id) s s' v h =
    let (p, found, present, cart) = remove_item-inv services s s' product_id h in
    rw cart (without_product-IsValidCart p.id s.cart v)
apply_edit-IsValidCart services Edit.clear s s' v h = clear_cart-IsValidCart s s' v h
apply_edit-IsValidCart services (Edit.customer details) s s' v h =
    rw (set_customer_information-cart details s s' h) v
