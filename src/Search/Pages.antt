-- ===== src/Search/Pages.antt =====
-- What the pages of a search hold, when Elasticsearch does what its documentation says.
use updater_service.Base.{
  ℕ, zero, suc, ◌+◌, ◌-◌, ◌*◌, ◌^◌, ◌≤◌, ◌<◌, String, pos, Bool, ◌&&◌, true, none, some, List, [],
  ◌∷◌, ◌++◌, ok, length, ◌==◌, string_eq, ◌≡◌, ◌≢◌, arith, refl, if◌then◌else◌, ap, sym, ◌∙◌, min,
}
use updater_service.Config.Size.{codes, parse_int, times, of_bits}
use updater_service.Search.{
  OperationDocument, Field, Elastic, clamp_limit, query_of, search_operations, query_limit,
  query_page, handle_search_operations, term,
}

zero_add : (n : ℕ) → n ≡ 0 + n
zero_add n = omega arith

suc_add : (m n : ℕ) → suc (m + n) ≡ suc m + n
suc_add m n = omega arith

module _ {ℓ} {A : Type ℓ} where
  abbrev pub take : ℕ → List A → List A
  take zero xs = []
  take (suc n) [] = []
  take (suc n) (x ∷ xs) = x ∷ take n xs

  abbrev pub skip : ℕ → List A → List A
  skip zero xs = xs
  skip (suc n) [] = []
  skip (suc n) (x ∷ xs) = skip n xs

  take-nil : (n : ℕ) → take n [] ≡ []
  take-nil zero = refl
  take-nil (suc n) = refl

  take-skip : (m n : ℕ) (xs : List A) → take m xs ++ take n (skip m xs) ≡ take (m + n) xs
  take-skip zero n xs = ap (λ k. take k xs) (zero_add n)
  take-skip (suc m) n [] = take-nil n ∙ sym (take-nil (suc m + n))
  take-skip (suc m) n (x ∷ xs) =
      ap (λ ys. x ∷ ys) (take-skip m n xs) ∙ ap (λ k. take k (x ∷ xs)) (suc_add m n)

abbrev pub field_of : Field → OperationDocument → String
field_of Field.status d = d.status
field_of Field.service d = d.service
field_of Field.node_id d = d.node_id

-- The documents that all term filters accept, in their order.
abbrev pub matches : List (Field × String) → OperationDocument → Bool
matches [] d = true
matches ((field, value) ∷ terms) d = field_of field d == value && matches terms d

abbrev pub matching : List (Field × String) → List OperationDocument → List OperationDocument
matching terms [] = []
matching terms (d ∷ documents) =
    if matches terms d then d ∷ matching terms documents else matching terms documents

-- While the index holds `documents`, the latest first, a request whose window ends within the first
-- 10,000 matches (index.max_result_window) gets its window of them, and their number, counted up to 10,000.
pub record IsServing (elastic : Elastic) (documents : List OperationDocument) : Type 0 where
  pub window :
      (terms : List (Field × String)) (from size : ℕ)
      → from + size ≤ 10000
      → elastic.search (record { terms = terms; offset = pos from; size = pos size })
        ≡ ok (record {
          status = 200;
          hits = ok (
            take size (skip from (matching terms documents)),
            min (length (matching terms documents)) 10000,
          );
        })

-- The terms of a request's parameters.
abbrev pub terms_of : (String → String) → List (Field × String)
terms_of get =
    term Field.status (get "status")
    ++ (term Field.service (get "service") ++ term Field.node_id (get "node_id"))

limit_lem :
    (s : String) (limit : ℕ)
    → s ≢ ""
    → parse_int (codes s) ≡ (pos limit, none)
    → query_limit s ≡ pos limit
unfolding query_limit
limit_lem s limit given read = ground (arith, given, read)

page_lem :
    (s : String) (page : ℕ)
    → s ≢ ""
    → parse_int (codes s) ≡ (pos (page + 1), none)
    → query_page s - 1 ≡ page
unfolding query_page
page_lem s page given read = ground (arith, given, read)

offset_lem : (limit page : ℕ) → limit * page < 2 ^ 63 → times (pos limit) page ≡ pos (limit * page)
unfolding times of_bits
offset_lem limit page fits = ground (arith, fits)

clamp_lem : (limit : ℕ) → 0 < limit → limit ≤ 100 → clamp_limit (pos limit) ≡ pos limit
unfolding clamp_limit
clamp_lem limit low high = ground (arith, low, high)

-- While Elasticsearch serves the index, a search for page `page + 1` with a limit from 1 to 100, within
-- the first 10,000 matches, answers 200 with items that follow those of the pages before it: the pages
-- up to this one together are the first matches, in their order.
pub page_follows :
    (elastic : Elastic) (documents : List OperationDocument) (get : String → String)
    (limit page : ℕ)
    → IsServing elastic documents
    → get "limit" ≢ ""
    → get "page" ≢ ""
    → parse_int (codes (get "limit")) ≡ (pos limit, none)
    → parse_int (codes (get "page")) ≡ (pos (page + 1), none)
    → 0 < limit
    → limit ≤ 100
    → limit * page + limit ≤ 10000
    → (items : List OperationDocument) × (handle_search_operations elastic get ≡ (
      200,
      some (record {
        items = items;
        total = min (length (matching (terms_of get) documents)) 10000;
      }),
    ))
      × (take (limit * page) (matching (terms_of get) documents) ++ items
          ≡ take (limit * page + limit) (matching (terms_of get) documents))
unfolding handle_search_operations search_operations query_of
page_follows elastic documents get limit page serving has_limit has_page limit_read page_read low
      high within =
    let found = matching (terms_of get) documents in
    let served = serving.window (terms_of get) (limit * page) limit within in
    let one : query_limit (get "limit") ≡ pos limit =
      limit_lem (get "limit") limit has_limit limit_read in
    let two = page_lem (get "page") page has_page page_read in
    let three = offset_lem limit page (omega (arith, within)) in
    let four = clamp_lem limit low high in
    (
      take limit (skip (limit * page) found),
      rw (one, two, three, search_operations, query_of, four, served) refl,
      take-skip (limit * page) limit found,
    )
