-- ===== src/Entry/Server.antt =====
-- internal/entry/server.go and router.go: the set-up of the upload handler, the routes, and the run of
-- the server. The libraries of HTTP and of resumable uploads are a parameter.
use updater_service.Base.{
  ◌*◌, ◌^◌, String, ◌<>◌, ℤ, pos, leb_ℤ, Bool, true, not, Option, none, some, List, [], ◌∷◌, Error,
  text, is_error, Result, ok, err, Act, raise, lift, wrapped, wrapping, ◌>>=◌, ◌>>◌, on_result,
  if◌then◌else◌, ◌==◌, string_eq, ◌≡◌, arith,
}
use updater_service.Message.{result_subject, register_subject, heartbeat_subject, goodbye_subject}
use updater_service.Nats.{Connection, Subscriptions, subscribe}

-- What the server reads of its `Config`.
pub record ServerConfig : Type 0 where
  pub has_nats : Bool
  pub has_node_repo : Bool
  pub tusd_base_path : String
  pub tusd_upload_dir : String
  pub tusd_max_size : ℤ

-- handler.Config of the uploads
pub record UploadConfig : Type 0 where
  pub base_path : String
  pub directory : String
  pub max_size : ℤ
  pub disable_download : Bool

-- How the run ends: the listener stops by itself, or the context is over, which shuts it down.
pub data Ending : Type 0 where
  listener : Option Error → Ending
  cancelled : Result (Unit {0}) → Option Error → Ending

-- strings.Trim(_, "/"), the directory for temporary files, os.MkdirAll, handler.NewHandler, NATS.
pub record Site : Type 0 where
  pub trim_slashes : String → String
  pub temp_uploads : String
  pub mkdir_all : String → Result (Unit {0})
  pub new_handler : UploadConfig → Result (Unit {0})
  pub connection : Connection
  pub ending : Ending

module _ (site : Site) (cfg : ServerConfig) where
  unfoldable pub tusd_base_path : String
  tusd_base_path =
      "/" <> site.trim_slashes (if cfg.tusd_base_path == "" then "/uploads" else cfg.tusd_base_path)

  unfoldable pub tusd_upload_dir : String
  tusd_upload_dir =
      if not (cfg.tusd_upload_dir == "") then cfg.tusd_upload_dir else site.temp_uploads

  unfoldable pub new_tusd_handler : Result UploadConfig
  new_tusd_handler =
      let upload : UploadConfig = record {
        base_path = tusd_base_path;
        directory = tusd_upload_dir;
        max_size = if leb_ℤ cfg.tusd_max_size (pos 0) then pos (20 * 2 ^ 30) else cfg.tusd_max_size;
        disable_download = true;
      } in
      on_result (site.mkdir_all tusd_upload_dir) err
        (λ _. on_result (site.new_handler upload) err (λ _. ok upload))

  abbrev pub server_closed : Error
  server_closed = text "http: Server closed"

  unfoldable pub end_of : Ending → Result (Unit {0})
  end_of (listener none) = ok tt
  end_of (listener (some e)) = if is_error e server_closed then ok tt else err e
  end_of (cancelled (err e) _) = wrapping "shutdown entry server" (err e)
  end_of (cancelled (ok _) none) = ok tt
  end_of (cancelled (ok _) (some e)) = if not (is_error e server_closed) then err e else ok tt

  abbrev subscribing : String → Act Subscriptions Unit
  subscribing subject = wrapped ("subscribe to " <> subject) (subscribe site.connection subject)

  unfoldable pub run_server : Act Subscriptions Unit
  run_server =
      if not cfg.has_nats
      then raise (text "NATS client is required")
      else if not cfg.has_node_repo
      then raise (text "node repository is required")
      else do
        subscribing result_subject
        subscribing register_subject
        subscribing heartbeat_subject
        subscribing goodbye_subject
        wrapped "initialize tusd handler" (lift new_tusd_handler)
        lift (end_of site.ending)

-- A server that ends without an error has subscribed to all that workers publish, in this order.
pub run_server_lem :
    (site : Site) (cfg : ServerConfig) (subjects : Subscriptions)
    → (run_server site cfg subjects).0 ≡ ok tt
    → (run_server site cfg subjects).1
      ≡ goodbye_subject ∷ heartbeat_subject ∷ register_subject ∷ result_subject ∷ subjects
unfolding run_server subscribe ◌>>=◌ raise lift
run_server_lem site cfg subjects h = ground (arith, h)

pub data Method : Type 0 where
  get head post any : Method

-- The methods of the server that answer, the handler of uploads, and the pages of internal/openapi.
pub data Handler : Type 0 where
  handle_health handle_create_update handle_get_update handle_search_operations : Handler
  handle_serve_file list_nodes get_node drain_node undrain_node uploads : Handler

abbrev pub Route : Type 0
Route = Method × String × Handler

-- The routes for uploads, which are left out if their handler cannot be made.
unfoldable pub register_upload_routes : Site → ServerConfig → List Route
register_upload_routes site cfg =
    on_result (new_tusd_handler site cfg) (λ e. [])
      (λ upload.
        (any, upload.base_path, uploads) ∷ (any, upload.base_path <> "/*filepath", uploads) ∷ [])

-- `setupRouter`, without the pages of the API's documentation.
unfoldable pub setup_router : Site → ServerConfig → List Route
setup_router site cfg =
    (get, "/health", handle_health)
    ∷ (post, "/updates", handle_create_update)
    ∷ (get, "/updates/:id", handle_get_update)
    ∷ (get, "/operations", handle_search_operations)
    ∷ (get, "/internal/operations/:id/file", handle_serve_file)
    ∷ (head, "/internal/operations/:id/file", handle_serve_file)
    ∷ (get, "/nodes", list_nodes)
    ∷ (get, "/nodes/:id", get_node)
    ∷ (post, "/nodes/:id/drain", drain_node)
    ∷ (post, "/nodes/:id/undrain", undrain_node)
    ∷ register_upload_routes site cfg
