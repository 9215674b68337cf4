-- ===== src/Tests/Search.antt =====
-- internal/search: the second page of two documents each.
use updater_service.Base.{
  String, ◌≡◌, pos, negsuc, min, length, some, List, [], ◌∷◌, ◌++◌, refl, ok, err, arith, canceled,
  if◌then◌else◌, ◌==◌, string_eq, string_dec, ℕ_discrete, ne_of_beq,
}
use updater_service.Config.Size.{parse_int, parse_uint, scan_uint, signed}
use updater_service.Search.{OperationDocument, Elastic, handle_search_operations}
use updater_service.Search.Pages.{take, skip, matching, IsServing, terms_of, page_follows}

abbrev document : String → OperationDocument
document id = record {
  id = id;
  status = "SUCCEEDED";
  service = "hello-service";
  node_id = "node-1";
  created_at = "2026-09-22T00:00:00Z";
  updated_at = "2026-09-22T00:00:00Z";
}

abbrev documents : List OperationDocument
documents = document "c" ∷ document "b" ∷ document "a" ∷ []

-- An index of these documents.
abbrev elastic : Elastic
elastic = record {
  search = λ q. elim q.offset [
    | negsuc n ↦ err canceled
    | pos from ↦ elim q.size [
      | negsuc n ↦ err canceled
      | pos size ↦ ok (record {
        status = 200;
        hits = ok (
          take size (skip from (matching q.terms documents)),
          min (length (matching q.terms documents)) 10000,
        );
      })
    ]
  ];
  index = λ d. ok 201;
}

elastic-IsServing : IsServing elastic documents
elastic-IsServing = record { window = λ terms from size h. refl }

abbrev get : String → String
get key = if key == "limit" then "2" else if key == "page" then "2" else ""

page_follows_example :
    (items : List OperationDocument) × (handle_search_operations elastic get ≡ (
      200,
      some (record {
        items = items;
        total = min (length (matching (terms_of get) documents)) 10000;
      }),
    ))
    × (take 2 (matching (terms_of get) documents) ++ items
        ≡ take 4 (matching (terms_of get) documents))
unfolding parse_int parse_uint scan_uint signed string_dec ℕ_discrete
page_follows_example =
    page_follows elastic documents get 2 1 elastic-IsServing (ne_of_beq "2" "" refl)
      (ne_of_beq "2" "" refl) refl refl (omega arith) (omega arith) (omega arith)
