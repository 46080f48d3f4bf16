-- ===== src/Catalog/Index.antt =====
-- Lemmas on the indexes of app/repositories/product_repository.py.
use global_detergent_sales_a.Prelude.{
  Text, text_eq_iff, text_eq_refl, strip, ◌≡◌, none, some, List, [], ◌∷◌, All, arith, All-map2,
}
use global_detergent_sales_a.Exec.{ok}
use global_detergent_sales_a.Schemas.Product.{Product}
use global_detergent_sales_a.Catalog.{
  ProductIndex, ProductRepository, find, normalize_sku, index_products, new_repository, get_by_id,
}

module _ (casefold : Text → Text) where
  -- A round of the loop that does not raise met a new ID, and went on with it entered.
  index_products-step :
      (q : Product) (ps : List Product) (by_id by_sku : ProductIndex)
      {r : ProductIndex × ProductIndex}
      → index_products casefold (q ∷ ps) by_id by_sku ≡ ok r
      → (find q.id by_id ≡ none)
        × (index_products casefold ps
              ((q.id, q) ∷ by_id)
              ((normalize_sku casefold q.sku, q) ∷ by_sku)
            ≡ ok r)
  unfolding index_products
  index_products-step q ps by_id by_sku h = (ground arith, ground arith)

  find-new :
      (q : Product) (by_id : ProductIndex) (key : Text) (p : Product)
      → find q.id by_id ≡ none
      → find key by_id ≡ some p
      → find key ((q.id, q) ∷ by_id) ≡ some p
  unfolding find
  find-new q by_id key p new old = ground (arith, text_eq_iff q.id key)

  find_self : (q : Product) (by_id : ProductIndex) → find q.id ((q.id, q) ∷ by_id) ≡ some q
  unfolding find
  find_self q by_id = rw (text_eq_refl q.id)

  -- Later rounds do not hide what is found.
  index_products-keeps :
      (ps : List Product) (by_id by_sku : ProductIndex) {r : ProductIndex × ProductIndex}
      → index_products casefold ps by_id by_sku ≡ ok r
      → (key : Text) (p : Product) → find key by_id ≡ some p
      → find key r.0 ≡ some p
  unfolding index_products
  index_products-keeps [] by_id by_sku h key p e = ground arith
  index_products-keeps (q ∷ ps) by_id by_sku h key p e =
      let (new, rest) = index_products-step q ps by_id by_sku h in
      index_products-keeps ps ((q.id, q) ∷ by_id) ((normalize_sku casefold q.sku, q) ∷ by_sku) rest
        key p (find-new q by_id key p new e)

  index_products-finds :
      (ps : List Product) (by_id by_sku : ProductIndex) {r : ProductIndex × ProductIndex}
      → index_products casefold ps by_id by_sku ≡ ok r
      → All (λ p. find p.id r.0 ≡ some p) ps
  index_products-finds [] by_id by_sku h = tt
  index_products-finds (q ∷ ps) by_id by_sku h =
      let (new, rest) = index_products-step q ps by_id by_sku h in
      let by_id' : ProductIndex = (q.id, q) ∷ by_id in
      let by_sku' : ProductIndex = (normalize_sku casefold q.sku, q) ∷ by_sku in
      (
        index_products-keeps ps by_id' by_sku' rest q.id q (find_self q by_id),
        index_products-finds ps by_id' by_sku' rest,
      )

  -- What an index holds under a key has that ID and is one of the products.
  index_products_sound :
      (ps : List Product) (by_id by_sku : ProductIndex) {r : ProductIndex × ProductIndex}
      → ((key : Text) (p : Product) → find key by_id ≡ some p → key ≡ p.id)
      → index_products casefold ps by_id by_sku ≡ ok r
      → (key : Text) (p : Product) → find key r.0 ≡ some p
      → key ≡ p.id
  unfolding index_products find
  index_products_sound [] by_id by_sku g h key p e = g key p (ground arith)
  index_products_sound (q ∷ ps) by_id by_sku g h key p e =
      let (new, rest) = index_products-step q ps by_id by_sku h in
      index_products_sound ps ((q.id, q) ∷ by_id) ((normalize_sku casefold q.sku, q) ∷ by_sku)
        (λ k p' e'. ground (arith, text_eq_iff q.id k, g k p')) rest key p e

  new_repository-index :
      (ps : List Product) (r : ProductRepository)
      → new_repository casefold ps ≡ ok r
      → index_products casefold ps [] [] ≡ ok (r.products_by_id, r.products_by_sku)
  unfolding new_repository
  new_repository-index ps r h = ground arith

  -- In a catalog that loads, whose IDs have no outer whitespace (validation strips it), the ID of
  -- every product looks up that very product: no product hides another.
  pub get_by_id_self :
      (ps : List Product) (r : ProductRepository)
      → All (λ p. strip p.id ≡ p.id) ps
      → new_repository casefold ps ≡ ok r
      → All (λ p. get_by_id r p.id ≡ some p) ps
  unfolding get_by_id
  get_by_id_self ps r stripped h =
      All-map2 ps (λ p bare found. rw bare found) stripped
        (index_products-finds ps [] [] (new_repository-index ps r h))

  -- A product that is looked up by a text has that text, without outer whitespace, as its ID.
  pub get_by_id-id :
      (ps : List Product) (r : ProductRepository)
      → new_repository casefold ps ≡ ok r
      → (product_id : Text) (p : Product) → get_by_id r product_id ≡ some p
      → strip product_id ≡ p.id
  unfolding get_by_id find
  get_by_id-id ps r h product_id p e =
      index_products_sound ps [] [] (λ key q e'. cc) (new_repository-index ps r h)
        (strip product_id) p e
