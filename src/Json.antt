-- ===== src/Json.antt =====
-- JSON values as Python reads them: an object is a dictionary, whose keys are pairwise different.
use global_detergent_sales_a.Prelude.{Text, text_eq, ℤ, Bool, if◌then◌else◌}

mutual
  pub data Json : Type 0 where
    null : Json
    boolean : Bool → Json
    integer : ℤ → Json
    -- A number with a fraction or an exponent, as it is written
    number : Text → Json
    string : Text → Json
    array : Items → Json
    object : Members → Json

  pub data Items : Type 0 where
    no_more : Items
    add_value : Json → Items → Items

  pub data Members : Type 0 where
    no_key : Members
    add_key : Text → Json → Members → Members

-- `members.get(key)`; a missing key is `None`, as `null` is.
unfoldable pub get : Members → Text → Json
unfolding text_eq
get Members.no_key key = Json.null
get (Members.add_key name value members) key =
    let rest = get members key in if text_eq name key then value else rest
