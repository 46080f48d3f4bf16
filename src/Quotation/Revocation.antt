-- ===== src/Quotation/Revocation.antt =====
-- Lemmas on the edits of a session in app/services/quotation_service.py and the authorizations that
-- were there before them.
use global_detergent_sales_a.Prelude.{◌+◌, Text, ◌≡◌, ◌≢◌, ◌⊎◌, false, none, arith}
use global_detergent_sales_a.Errors.{Error}
use global_detergent_sales_a.Exec.{ok, err, Exec, Done}
use global_detergent_sales_a.Schemas.Quotation.{GeneratedQuotation}
use global_detergent_sales_a.Schemas.Session.{ConversationSession}
use global_detergent_sales_a.Quotation.{Services, PyObject}
use global_detergent_sales_a.Quotation.Cart.{
  add_item, update_item_quantity, replace_quantity, remove_item, clear_cart,
}
use global_detergent_sales_a.Quotation.Customer.{CustomerUpdate, set_customer_information}
use global_detergent_sales_a.Quotation.Preview.{mark_ready_for_confirmation}
use global_detergent_sales_a.Quotation.Confirm.{CurrentTurnContext, confirm}
use global_detergent_sales_a.Quotation.Generate.{generate}
use global_detergent_sales_a.Quotation.Outcomes.{mark_ready-inv, confirm-inv}
use global_detergent_sales_a.Quotation.Replay.{generate-authorized}

-- The operations that change what is quoted.
pub data Edit : Type 0 where
  add update : Text → PyObject → Edit
  remove : Text → Edit
  clear : Edit
  customer : CustomerUpdate → Edit

unfoldable pub apply_edit : Services → Edit → Exec ConversationSession Done
apply_edit services (Edit.add product_id quantity) = add_item services product_id quantity
apply_edit services (Edit.update product_id quantity) =
    update_item_quantity services product_id quantity
apply_edit services (Edit.remove product_id) = remove_item services product_id
apply_edit services Edit.clear = clear_cart
apply_edit services (Edit.customer details) = set_customer_information details

-- Nothing is bound: no preview, no delivery, no confirmation, no quotation to replay.
pub record IsRevoked (s : ConversationSession) : Type 0 where
  pub unprepared : s.prepared_preview_fingerprint ≡ none
  pub undelivered : s.preview_delivered ≡ false
  pub no_turn : s.preview_originating_turn_id ≡ none
  pub unconfirmed : s.quote_confirmed ≡ false
  pub no_confirmation_turn : s.confirmation_turn_id ≡ none
  pub no_message : s.confirmation_message ≡ none
  pub no_replay : s.last_generated_quote ≡ none

-- An edit that succeeds either changes nothing at all (the quantity or the details were already
-- so, or the cart was empty), or revokes every binding and counts one revision.
pub apply_edit-IsRevoked :
    (services : Services) (e : Edit) (s s' : ConversationSession)
    → apply_edit services e s ≡ (ok tt, s')
    → (s' ≡ s) ⊎ (IsRevoked s' × (s'.quote_revision ≡ s.quote_revision + 1))
unfolding apply_edit add_item update_item_quantity replace_quantity remove_item clear_cart
    set_customer_information
apply_edit-IsRevoked services (Edit.add product_id quantity) s s' h = ground arith
apply_edit-IsRevoked services (Edit.update product_id quantity) s s' h = ground arith
apply_edit-IsRevoked services (Edit.remove product_id) s s' h = ground arith
apply_edit-IsRevoked services Edit.clear s s' h = ground arith
apply_edit-IsRevoked services (Edit.customer details) s s' h = ground arith

-- An edit that is refused changes nothing.
pub apply_edit-atomic :
    (services : Services) (e : Edit) (s s' : ConversationSession) (why : Error)
    → apply_edit services e s ≡ (err why, s')
    → s' ≡ s
unfolding apply_edit add_item update_item_quantity replace_quantity remove_item clear_cart
    set_customer_information
apply_edit-atomic services (Edit.add product_id quantity) s s' why h = ground arith
apply_edit-atomic services (Edit.update product_id quantity) s s' why h = ground arith
apply_edit-atomic services (Edit.remove product_id) s s' why h = ground arith
apply_edit-atomic services Edit.clear s s' why h = ground arith
apply_edit-atomic services (Edit.customer details) s s' why h = ground arith

-- On a session with nothing bound, no generation, no confirmation and no delivery succeeds, with
-- any services: a new preview has to be prepared first.
pub IsRevoked-blocks :
    (services : Services) (s : ConversationSession)
    → IsRevoked s
    → ((g : GeneratedQuotation) (s' : ConversationSession) → generate services s ≢ (ok g, s'))
      × ((context : CurrentTurnContext) (s' : ConversationSession)
          → confirm services context s ≢ (ok tt, s'))
      × ((fingerprint turn_id : Text) (s' : ConversationSession)
          → mark_ready_for_confirmation services fingerprint turn_id s ≢ (ok tt, s'))
IsRevoked-blocks services s r = (
  λ g s' h.
      let made = generate-authorized services s s' g r.no_replay h in
      cc (made.authorized.confirmed, r.unconfirmed),
  λ context s' h. cc ((confirm-inv services context s s' h).1.delivered, r.undelivered),
  λ fingerprint turn_id s' h.
      cc ((mark_ready-inv services fingerprint turn_id s s' h).4, r.unprepared),
)
