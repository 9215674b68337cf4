-- ===== src/Entry.antt =====
-- internal/entry/handler.go and server.go: the HTTP interface, the uploads and the messages of the
-- workers. Each function is an action on the `World`. The optional components of its `Config` are
-- there, and what is only logged is left out.
pub mod State
pub mod Nodes
pub mod Server
pub mod Ranges
pub mod Serving
pub mod Dispatch
pub mod Replies
use updater_service.Base.{
  ℕ, String, ◌<>◌, Bool, true, false, not, ◌||◌, Option, none, some, Error, text, wrap, is_error,
  Result, ok, err, Act, pure, raise, lift, attempt, ignore, wrapped, on_result, ◌>>=◌, ◌>>◌, ◌==◌,
  string_eq, if◌then◌else◌, node_not_found, node_offline, node_unavailable, operation_not_found,
}
use updater_service.Operation.{
  Time, Operation, FileMetadata, Status, pending, dispatched, status_text, parse_status, status_eq,
}
use updater_service.Operation.Repository
use updater_service.Operation.Files
use updater_service.Node
use updater_service.Node.{Node, online, status_eq as node_status_eq}
use updater_service.Node.Repository as Registry
use updater_service.Message.{UpdateCommand, UpdateResult, command_prefix}
use State.{
  World, Env, op_statement, file_statement, node_statement, publish_command, now, new_operation_id,
}

abbrev pub ready_file : String → String → String → ℕ → String → Time → FileMetadata
ready_file id name path size sum created = record {
  operation_id = id;
  file_name = name;
  file_path = path;
  file_size = size;
  sha256 = sum;
  status = "READY";
  created_at = created;
}

abbrev pub pending_operation : String → String → String → Time → Operation
pending_operation id service node_id created = record {
  id = id;
  status = pending;
  service = service;
  node_id = node_id;
  created_at = created;
  updated_at = created;
}

module _ (env : Env) where
  -- `advanceOperation`, less the search index
  unfoldable pub advance_operation : String → Status → Act World Bool
  advance_operation id status = do
    updated ← op_statement env (λ o t. Repository.advance_status o t id status)
    if updated
        then (do op ← op_statement env (λ o _. Repository.get o id); pure true)
        else pure false

  abbrev pub command_for : Operation → FileMetadata → Node → UpdateCommand
  command_for op meta target = record {
    operation_id = op.id;
    service = op.service;
    node_instance = target.instance_id;
    file_url = env.base_url <> "/internal/operations/" <> op.id <> "/file";
    file_name = meta.file_name;
    file_size = meta.file_size;
    file_sha256 = meta.sha256;
  }

  -- `dispatchOperation`
  unfoldable pub dispatch_operation : Operation → FileMetadata → Act World Unit
  dispatch_operation op meta = do
    target ← node_statement env (λ o _. Registry.get env.codec o op.node_id)
    if target.status == online
        then (do
          done ← advance_operation op.id dispatched
          if done
              then publish_command env (command_prefix <> op.node_id) (command_for op meta target)
              else raise (text ("operation " <> op.id <> " not dispatched")))
        else raise node_unavailable

  -- What `onTusdUploadFinish` takes from the upload.
  unfoldable pub upload_name : String → String
  upload_name name =
      let base = env.base (env.trim name) in
      if base == "" || base == "." || base == "/" || base == ".." then "source.bin" else base

  -- `onTusdUploadFinish`: the metadata of the upload, its path in the store and its size.
  unfoldable pub on_upload_finish : String → String → String → ℕ → Act World Unit
  on_upload_finish operation_id name path size = do
    let id = env.trim operation_id
    if id == "" || path == ""
        then raise (text "missing operation_id or storage path on upload completion")
        else do
          sum ← wrapped "calculate sha256" (lift (env.sha256 path))
          created ← now env
          let meta = ready_file id (upload_name name) path size sum created
          wrapped "save file metadata" (file_statement env (λ ops o. Files.create ops o meta))
          op ← wrapped "load operation" (op_statement env (λ o _. Repository.get o id))
          wrapped "dispatch operation" (dispatch_operation op meta)

  -- `onTusdUploadCreate`: the status code, 0 where the upload may begin, and the error.
  unfoldable pub on_upload_create : String → Act World (ℕ × Option Error)
  on_upload_create operation_id = do
    let id = env.trim operation_id
    if id == "" then pure (400, some (text "Upload-Metadata operation_id is required")) else do
      found ← attempt (op_statement env (λ o _. Repository.get o id))
      on_result found
          (λ e. pure (
            if is_error e operation_not_found
            then (404, none)
            else (500, some (wrap "operation lookup failed" e))))
          (λ op. pure (if op.status == pending then (0, none) else (409, none)))

  -- The row that `handleCreateUpdate` creates.
  unfoldable pub store_update : String → String → String → Act World (ℕ × Option String)
  store_update service node_id id = do
    t ← now env
    created ←
        attempt
          (op_statement env (λ o _. Repository.create o (pending_operation id service node_id t)))
    on_result created (λ e. pure (500, none)) (λ _. pure (202, some id))

  -- Its part after the check of the node.
  unfoldable pub create_update : String → String → Act World (ℕ × Option String)
  create_update service node_id = do
    drawn ← attempt (new_operation_id env)
    on_result drawn (λ e. pure (500, none)) (store_update service node_id)

  abbrev pub create_update_on : String → String → Node → Act World (ℕ × Option String)
  create_update_on service node_id node =
      if node.status == online then create_update service node_id else pure (409, none)

  -- `handleCreateUpdate`: the status code, and the id of the new operation. The body is decoded.
  unfoldable pub handle_create_update : Result (String × String) → Act World (ℕ × Option String)
  handle_create_update (err e) = pure (400, none)
  handle_create_update (ok (service, node_id)) =
      if service == "" || node_id == "" then pure (400, none) else do
        target ← attempt (node_statement env (λ o _. Registry.get env.codec o node_id))
        on_result target (λ e. pure (if is_error e node_not_found then 404 else 500, none))
            (create_update_on service node_id)

  -- `handleGetUpdate`
  unfoldable pub handle_get_update : String → Act World (ℕ × Option (String × String))
  handle_get_update id = do
    found ← attempt (op_statement env (λ o _. Repository.get o id))
    on_result found (λ e. pure (404, none)) (λ op. pure (200, some (op.id, status_text op.status)))

  -- `handleResult`
  unfoldable pub handle_result : Result UpdateResult → Act World Unit
  handle_result (err e) = pure tt
  handle_result (ok r) = do
    attempt (advance_operation r.operation_id (parse_status r.status))
    pure tt
