-- ===== src/Catalog.antt =====
-- app/repositories/product_repository.py: the indexes of the product catalog and its lookups.
-- The file that `_load_products` reads and pydantic's validation of it are outside; an index is
-- built from the validated products. `str.casefold` follows the Unicode tables and is a parameter.
pub mod Index
use mathlib.Core.List.{filter_map}
use global_detergent_sales_a.Prelude.{
  Text, text_eq, strip, Bool, true, false, Option, none, some, List, [], ◌∷◌, is_some,
  if◌then◌else◌,
}
use global_detergent_sales_a.Errors.{Error}
use global_detergent_sales_a.Exec.{Result, ok, err}
use global_detergent_sales_a.Schemas.Product.{Product}

abbrev pub ProductIndex : Type 0
ProductIndex = List (Text × Product)

-- `d.get(key)`
unfoldable pub find : Text → ProductIndex → Option Product
find key [] = none
find key ((k, p) ∷ d) = if text_eq k key then some p else find key d

pub record ProductRepository : Type 0 where
  pub products : List Product
  pub active_products : List Product
  pub products_by_id : ProductIndex
  pub products_by_sku : ProductIndex

-- `[product for product in products if product.active]`
unfoldable pub only_active : List Product → List Product
only_active [] = []
only_active (p ∷ ps) = let rest = only_active ps in if p.active then p ∷ rest else rest

module _ (casefold : Text → Text) where
  unfoldable pub normalize_sku : Text → Text
  unfolding strip
  normalize_sku sku = casefold (strip sku)

  -- The loop of `__init__` over the products that are left.
  unfoldable pub index_products :
      List Product → ProductIndex → ProductIndex → Result (ProductIndex × ProductIndex)
  unfolding find normalize_sku
  index_products [] by_id by_sku = ok (by_id, by_sku)
  index_products (p ∷ ps) by_id by_sku =
      let rest = index_products ps ((p.id, p) ∷ by_id) ((normalize_sku p.sku, p) ∷ by_sku) in
      if is_some (find p.id by_id)
      then err Error.invalid_static_data
      else if is_some (find (normalize_sku p.sku) by_sku)
      then err Error.invalid_static_data
      else rest

  -- `ProductRepository.__init__`, from the validated products on
  unfoldable pub new_repository : List Product → Result ProductRepository
  unfolding index_products only_active
  new_repository products = elim (index_products products [] []) [
    | err e ↦ err e
    | ok (by_id, by_sku) ↦ ok (record {
      products = products;
      active_products = only_active products;
      products_by_id = by_id;
      products_by_sku = by_sku;
    })
  ]

  unfoldable pub get_by_sku : ProductRepository → Text → Option Product
  unfolding find normalize_sku
  get_by_sku r sku = find (normalize_sku sku) r.products_by_sku

unfoldable pub get_by_id : ProductRepository → Text → Option Product
unfolding find strip
get_by_id r product_id = find (strip product_id) r.products_by_id
