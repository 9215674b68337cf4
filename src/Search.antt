-- ===== src/Search.antt =====
-- internal/search, and the search of internal/entry/handler.go. Elasticsearch and its client are a
-- parameter: what a request returns once its response is decoded.
pub mod Pages
use updater_service.Base.{
  Bool, not, ℕ, ◌-◌, String, ℤ, pos, negsuc, leb_ℤ, ltb_ℤ, pos_part, sub_ℕ, Option, none, some,
  List, [], ◌∷◌, ◌++◌, Error, text, wrap, Result, ok, err, on_result, on_option, ◌==◌, string_eq,
  nat_eq, if◌then◌else◌, ltb,
}
use updater_service.Operation.{Time, Operation, status_text}
use updater_service.Config.Size.{codes, parse_int, times}

pub record OperationDocument : Type 0 where
  pub id : String
  pub status : String
  pub service : String
  pub node_id : String
  pub created_at : String
  pub updated_at : String

pub record SearchFilter : Type 0 where
  pub status : String
  pub service : String
  pub node_id : String
  pub limit : ℤ
  pub offset : ℤ

pub record SearchResult : Type 0 where
  pub items : List OperationDocument
  pub total : ℕ

-- The field of a term filter.
pub data Field : Type 0 where
  status service node_id : Field

-- The body of a request, which always sorts by `updated_at`, the latest first.
pub record Query : Type 0 where
  pub terms : List (Field × String)
  pub offset : ℤ  -- from
  pub size : ℤ

-- The answer to a search: its status, and the documents and the total of its hits, if the body can be
-- decoded.
pub record SearchReply : Type 0 where
  pub status : ℕ
  pub hits : Result (List OperationDocument × ℕ)

-- What `req.Do` returns; for a document only the status of the answer.
pub record Elastic : Type 0 where
  pub search : Query → Result SearchReply
  pub index : OperationDocument → Result ℕ

-- (*esapi.Response).IsError
abbrev pub is_failure : ℕ → Bool
is_failure code = ltb 299 code

unfoldable pub clamp_limit : ℤ → ℤ
clamp_limit limit =
    let limit' = if leb_ℤ limit (pos 0) then pos 20 else limit in
    if ltb_ℤ (pos 100) limit' then pos 100 else limit'

abbrev pub term : Field → String → List (Field × String)
term field value = if value == "" then [] else (field, value) ∷ []

unfoldable pub query_of : SearchFilter → Query
query_of filter = record {
  terms = term status filter.status ++ (term service filter.service ++ term node_id filter.node_id);
  offset = filter.offset;
  size = clamp_limit filter.limit;
}

unfoldable pub search_operations : Elastic → SearchFilter → Result SearchResult
search_operations elastic filter = on_result (elastic.search (query_of filter)) err (λ reply.
    if is_failure reply.status
    then err (text "elasticsearch search failed")
    else on_result reply.hits err (λ (items, total). ok (record { items = items; total = total })))

-- `EnsureIndex`, given the status that the request to make the index is answered with.
unfoldable pub ensure_index : Result ℕ → Result (Unit {0})
ensure_index answer = on_result answer err (λ code.
    if not (is_failure code)
    then ok tt
    else if code == 400
    then ok tt
    else err (text "failed to create index"))

-- `rfc3339` formats an instant with time.RFC3339Nano, in UTC.
unfoldable pub to_document : (Time → String) → Operation → OperationDocument
to_document rfc3339 op = record {
  id = op.id;
  status = status_text op.status;
  service = op.service;
  node_id = op.node_id;
  created_at = rfc3339 op.created_at;
  updated_at = rfc3339 op.updated_at;
}

unfoldable pub index_operation : Elastic → (Time → String) → Operation → Result (Unit {0})
index_operation elastic rfc3339 op =
    on_result (elastic.index (to_document rfc3339 op)) err
      (λ code. if is_failure code then err (text "elasticsearch index failed") else ok tt)

-- `limit` and `page` of the query of a request; a parameter that is missing is the empty text.
unfoldable pub query_limit : String → ℤ
query_limit value =
    if value == ""
    then pos 20
    else let (n, e) = parse_int (codes value) in on_option e n (λ _. pos 20)

unfoldable pub query_page : String → ℕ
query_page value =
    if value == ""
    then 1
    else let (n, e) = parse_int (codes value) in
      on_option e (if ltb_ℤ (pos 0) n then pos_part n else 1) (λ _. 1)

-- The answer, with its status.
abbrev pub Answer : Type 0
Answer = ℕ × Option SearchResult

-- `handleSearchOperations` of an entry that has a client, on the parameters of the request.
unfoldable pub handle_search_operations : Elastic → (String → String) → Answer
handle_search_operations elastic get =
    let limit = query_limit (get "limit") in
    let offset = times limit (query_page (get "page") - 1) in
    on_result
      (search_operations elastic (record {
        status = get "status";
        service = get "service";
        node_id = get "node_id";
        limit = limit;
        offset = offset;
      }))
      (λ e. (503, none)) (λ result. (200, some result))
