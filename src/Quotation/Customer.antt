-- ===== src/Quotation/Customer.antt =====
-- The customer's details: `set_customer_information` of app/services/quotation_service.py, with
-- the checks of the texts. An e-mail address is matched as `_EMAIL_PATTERN` does: a local part of
-- the listed characters, `@`, and at least two labels of a domain.
use global_detergent_sales_a.Prelude.{
  ℕ, Text, text_eq, option_text_eq, codes, strip, length, any, all, Bool, false, not, ◌||◌, ◌&&◌,
  Option, none, some, List, [], ◌∷◌, is_empty, ltb, leb, ◌==◌, if◌then◌else◌,
}
use global_detergent_sales_a.Errors.{Error}
use global_detergent_sales_a.Exec.{Result, ok, err, bind, Exec, Done, reads, ◌>>=◌}
use global_detergent_sales_a.Schemas.Quotation.{CustomerInfo}
use global_detergent_sales_a.Schemas.Session.{ConversationSession}
use global_detergent_sales_a.Quotation.{invalidate_quote_authorization, customer_update_state}

abbrev pub name_max_length : ℕ
name_max_length = 200

abbrev pub email_max_length : ℕ
email_max_length = 254

abbrev pub address_max_length : ℕ
address_max_length = 1000

abbrev pub notes_max_length : ℕ
notes_max_length = 2000

-- `CustomerUpdateValue`: `_UNSET`, or a value to set, which may be `None`.
pub data CustomerUpdateValue : Type 0 where
  unset : CustomerUpdateValue
  value : Option Text → CustomerUpdateValue

-- `_normalize_optional_string`
unfoldable pub normalize_optional_string : CustomerUpdateValue → ℕ → Result CustomerUpdateValue
normalize_optional_string unset maximum = ok unset
normalize_optional_string (value none) maximum = ok (value none)
normalize_optional_string (value (some s)) maximum =
    if ltb maximum (length (strip s)) then err Error.value_error else ok (value (some (strip s)))

-- `[A-Za-z0-9]`
unfoldable pub is_alphanumeric : ℕ → Bool
is_alphanumeric c =
    (leb b'A' c && leb c b'Z') || ((leb b'a' c && leb c b'z') || (leb b'0' c && leb c b'9'))

-- A character of the local part
unfoldable pub is_local : ℕ → Bool
unfolding is_alphanumeric
is_local c = is_alphanumeric c || any (λ d. c == d) (codes ".!#$%&'*+/=?^_`{|}~-")

-- The parts before and after the first `@`
unfoldable pub split_at_sign : Text → Option (Text × Text)
split_at_sign [] = none
split_at_sign (c ∷ s) =
    let rest = split_at_sign s in
    if c == b'@'
    then some ([], s)
    else elim rest [ none ↦ none | some (local, domain) ↦ some (c ∷ local, domain) ]

-- The parts of a text between its dots
unfoldable pub split_dots : Text → List Text
split_dots [] = [] ∷ []
split_dots (c ∷ s) = elim (split_dots s) [
  | [] ↦ []
  | label ∷ labels ↦ if c == b'.' then [] ∷ (label ∷ labels) else (c ∷ label) ∷ labels
]

-- The last character satisfies a test.
unfoldable pub ends_with : (ℕ → Bool) → Text → Bool
ends_with p [] = false
ends_with p (c ∷ []) = p c
ends_with p (c ∷ d ∷ s) = ends_with p (d ∷ s)

unfoldable pub starts_with : (ℕ → Bool) → Text → Bool
starts_with p [] = false
starts_with p (c ∷ s) = p c

-- `[A-Za-z0-9](?:[A-Za-z0-9-]{0,61}[A-Za-z0-9])?`
unfoldable pub is_label : Text → Bool
unfolding is_alphanumeric ends_with starts_with
is_label s =
    starts_with is_alphanumeric s
    && (ends_with is_alphanumeric s
        && (all (λ c. is_alphanumeric c || c == b'-') s && leb (length s) 63))

-- `..` occurs in the text.
unfoldable pub has_double_dot : Text → Bool
has_double_dot [] = false
has_double_dot (c ∷ []) = false
has_double_dot (c ∷ d ∷ s) = (c == b'.' && d == b'.') || has_double_dot (d ∷ s)

-- `_EMAIL_PATTERN.fullmatch`, and the tests that follow it, on the parts
unfoldable pub is_valid_parts : Text → Text → Bool
unfolding is_local split_dots is_label has_double_dot
is_valid_parts local domain =
    (not (is_empty local) && all is_local local)
    && ((leb 2 (length (split_dots domain)) && all is_label (split_dots domain))
        && (leb (length local) 64
            && (leb (length domain) 253
                && (not (starts_with (λ c. c == b'.') local)
                    && (not (ends_with (λ c. c == b'.') local) && not (has_double_dot local))))))

unfoldable pub is_valid_email : Text → Bool
unfolding split_at_sign is_valid_parts
is_valid_email s = elim (split_at_sign s) [
  | none ↦ false
  | some (local, domain) ↦ is_valid_parts local domain
]

-- `_normalize_email`
unfoldable pub check_email : CustomerUpdateValue → Result CustomerUpdateValue
unfolding is_valid_email
check_email unset = ok unset
check_email (value none) = ok (value none)
check_email (value (some s)) =
    if is_valid_email s then ok (value (some s)) else err Error.value_error

unfoldable pub normalize_email : CustomerUpdateValue → Result CustomerUpdateValue
unfolding check_email
normalize_email update = bind (normalize_optional_string update email_max_length) check_email

-- `customer_data.update(...)` of one field: a value that is not `_UNSET` replaces the field.
abbrev pub updated : CustomerUpdateValue → Option Text → Option Text
updated unset current = current
updated (value v) current = v

-- `candidate == current`
unfoldable pub customer_eq : CustomerInfo → CustomerInfo → Bool
customer_eq a b =
    option_text_eq a.name b.name
    && (option_text_eq a.company_name b.company_name
        && (text_eq a.phone b.phone
            && (option_text_eq a.email b.email
                && (option_text_eq a.address b.address
                    && (option_text_eq a.contact_person b.contact_person
                        && option_text_eq a.notes b.notes)))))

-- The keyword arguments of `set_customer_information`
pub record CustomerUpdate : Type 0 where
  pub name : CustomerUpdateValue
  pub company_name : CustomerUpdateValue
  pub contact_person : CustomerUpdateValue
  pub email : CustomerUpdateValue
  pub address : CustomerUpdateValue
  pub notes : CustomerUpdateValue

-- The validated candidate of `set_customer_information`
unfoldable pub customer_candidate : CustomerUpdate → ConversationSession → Result CustomerInfo
unfolding normalize_email
customer_candidate u s = bind (normalize_optional_string u.name name_max_length) λ name.
    bind (normalize_optional_string u.company_name name_max_length) λ company_name.
      bind (normalize_optional_string u.contact_person name_max_length) λ contact_person.
        bind (normalize_email u.email) λ email.
          bind (normalize_optional_string u.address address_max_length) λ address.
            bind (normalize_optional_string u.notes notes_max_length) λ notes. ok (record {
              name = updated name s.customer.name;
              company_name = updated company_name s.customer.company_name;
              phone = s.customer_phone;
              email = updated email s.customer.email;
              address = updated address s.customer.address;
              contact_person = updated contact_person s.customer.contact_person;
              notes = updated notes s.customer.notes;
            })

-- The changes that `set_customer_information` makes with a candidate that differs
unfoldable pub commit_customer : CustomerInfo → ConversationSession → ConversationSession
unfolding invalidate_quote_authorization
commit_customer candidate s =
    let changed = invalidate_quote_authorization (record s { customer = candidate }) in
    record changed { state = customer_update_state changed }

unfoldable pub set_customer_information : CustomerUpdate → Exec ConversationSession Done
unfolding commit_customer
set_customer_information u = do
  candidate ← reads (customer_candidate u)
  λ s. if customer_eq candidate s.customer then (ok tt, s) else (ok tt, commit_customer candidate s)
