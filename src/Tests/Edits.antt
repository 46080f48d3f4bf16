-- ===== src/Tests/Edits.antt =====
-- Edits of the cart and of the customer's details on concrete data.
use global_detergent_sales_a.Prelude.{
  ℕ, ◌+◌, Text, codes, pos, ◌≡◌, ◌≢◌, ◌⊎◌, refl, true, [], ◌∷◌, text_eq, strip, is_blank, arith,
  if◌then◌else◌, is_some,
}
use global_detergent_sales_a.Errors.{Error}
use global_detergent_sales_a.Exec.{ok, err}
use global_detergent_sales_a.Catalog.{get_by_id, find}
use global_detergent_sales_a.Schemas.Product.{Product}
use global_detergent_sales_a.Schemas.Quotation.{GeneratedQuotation}
use global_detergent_sales_a.Schemas.Session.{ConversationState, ConversationSession}
use global_detergent_sales_a.Calculator.{current_active_product, if_active}
use global_detergent_sales_a.Quotation.{
  PyObject, validate_quantity, commit_cart_change, invalidate_quote_authorization,
}
use global_detergent_sales_a.Quotation.Cart.{
  add_item, update_item_quantity, remove_item, find_cart_item, add_to_cart, with_quantity,
  without_product, replace_quantity,
}
use global_detergent_sales_a.Quotation.Cart.View.{IsValidCart, quantity_of}
use global_detergent_sales_a.Quotation.Preview.{mark_ready_for_confirmation}
use global_detergent_sales_a.Quotation.Confirm.{CurrentTurnContext, confirm}
use global_detergent_sales_a.Quotation.Generate.{generate}
use global_detergent_sales_a.Quotation.Revocation.{
  Edit, apply_edit, IsRevoked, apply_edit-IsRevoked, apply_edit-atomic, IsRevoked-blocks,
}
use global_detergent_sales_a.Quotation.Edits.{
  add_item-quantities, update_item_quantity-quantities, remove_item-quantities,
  apply_edit-IsValidCart,
}
use global_detergent_sales_a.Tests.Data.{services, session, catalog}

-- The session after its cart was changed
abbrev five : ConversationSession
five = record session {
  cart = record { product_id = codes "p1"; quantity = 5 } ∷ [];
  quote_revision = 2;
}

abbrev emptied : ConversationSession
emptied = record session {
  cart = [];
  quote_revision = 2;
  state = ConversationState.product_discussion;
}

adds : add_item services (codes "p1") (PyObject.int (pos 3)) session ≡ (ok tt, five)
unfolding add_item validate_quantity commit_cart_change invalidate_quote_authorization add_to_cart
    current_active_product if_active get_by_id find strip is_blank text_eq
adds = refl

updates : update_item_quantity services (codes "p1") (PyObject.int (pos 5)) session ≡ (ok tt, five)
unfolding update_item_quantity replace_quantity validate_quantity commit_cart_change
    invalidate_quote_authorization with_quantity find_cart_item current_active_product if_active
    get_by_id find strip is_blank text_eq
updates = refl

removes : remove_item services (codes "p1") session ≡ (ok tt, emptied)
unfolding remove_item commit_cart_change invalidate_quote_authorization without_product
    find_cart_item current_active_product if_active get_by_id find strip is_blank text_eq
removes = refl

rejects :
    add_item services (codes "p1") (PyObject.bool true) session
    ≡ (err Error.invalid_quantity, session)
unfolding add_item validate_quantity current_active_product if_active get_by_id find strip is_blank
    text_eq
rejects = refl

is_revoked : IsRevoked session
is_revoked = record {
  unprepared = refl;
  undelivered = refl;
  no_turn = refl;
  unconfirmed = refl;
  no_confirmation_turn = refl;
  no_message = refl;
  no_replay = refl;
}

apply_edit-IsRevoked_example :
    (five ≡ session) ⊎ (IsRevoked five × (five.quote_revision ≡ session.quote_revision + 1))
apply_edit-IsRevoked_example =
    apply_edit-IsRevoked services (Edit.add (codes "p1") (PyObject.int (pos 3))) session five
      (unfold apply_edit in adds)

apply_edit-atomic_example : session ≡ session
apply_edit-atomic_example =
    apply_edit-atomic services (Edit.add (codes "p1") (PyObject.bool true)) session session
      Error.invalid_quantity (unfold apply_edit in rejects)

apply_edit-IsValidCart_example : IsValidCart five.cart
apply_edit-IsValidCart_example =
    apply_edit-IsValidCart services (Edit.add (codes "p1") (PyObject.int (pos 3))) session five
      (omega arith, unfold find_cart_item in refl, tt) (unfold apply_edit in adds)

IsRevoked-blocks_example :
    ((g : GeneratedQuotation) (s' : ConversationSession) → generate services session ≢ (ok g, s'))
    × ((context : CurrentTurnContext) (s' : ConversationSession)
        → confirm services context session ≢ (ok tt, s'))
    × ((fingerprint turn_id : Text) (s' : ConversationSession)
        → mark_ready_for_confirmation services fingerprint turn_id session ≢ (ok tt, s'))
IsRevoked-blocks_example = IsRevoked-blocks services session is_revoked

add_item-quantities_example :
    (p : Product) × (n : ℕ) × (current_active_product catalog (codes "p1") ≡ ok p)
    × (validate_quantity (PyObject.int (pos 3)) ≡ ok n)
    × ((x : Text)
        → quantity_of five.cart x
          ≡ (if text_eq p.id x then quantity_of session.cart x + n else quantity_of session.cart x))
add_item-quantities_example =
    add_item-quantities services session five (codes "p1") (PyObject.int (pos 3)) adds

update_item_quantity-quantities_example :
    (p : Product) × (n : ℕ) × (current_active_product catalog (codes "p1") ≡ ok p)
    × (validate_quantity (PyObject.int (pos 5)) ≡ ok n)
    × (is_some (find_cart_item session.cart p.id) ≡ true)
    × ((x : Text)
        → quantity_of five.cart x ≡ (if text_eq p.id x then n else quantity_of session.cart x))
update_item_quantity-quantities_example =
    update_item_quantity-quantities services session five (codes "p1") (PyObject.int (pos 5))
      updates

remove_item-quantities_example :
    (p : Product) × (current_active_product catalog (codes "p1") ≡ ok p)
    × (is_some (find_cart_item session.cart p.id) ≡ true)
    × ((x : Text)
        → quantity_of emptied.cart x ≡ (if text_eq p.id x then 0 else quantity_of session.cart x))
remove_item-quantities_example =
    remove_item-quantities services session emptied (codes "p1") removes
