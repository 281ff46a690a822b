-- ===== src/TaskFiles.antt =====
-- task_files.py: `TaskFiles`, the files of one task, which a handler gets as an argument.
pub mod RoundTrip
pub mod Transfer
use avtomatika_worker.Base.{
  ℕ, String, ◌<>◌, Bool, true, false, not, ◌==◌, string_eq, nat_eq, Option, none, some, List, [],
  ◌∷◌, if◌then◌else◌,
}
use avtomatika_worker.Base.Dict
use avtomatika_worker.Base.Dict.{Dict}
use avtomatika_worker.Base.Int.{ℤ, pos, negsuc}
use avtomatika_worker.Json.{Json, null, bool, num, str, arr, obj, field, end}
use avtomatika_worker.Task.Call.{Try, ok, raise, value_error, other}
use avtomatika_worker.Task.Outcome.{FileMetadata}
use avtomatika_worker.Offload.{
  Io, Settings, Files, Called, Action, give, ◌>>◌, outside, attempt, size_of, process_result,
}

-- What a file is written from and read to: a `str` or a `bytes`.
pub data Content : Type 0 where
  text : String → Content
  bytes : List ℕ → Content

-- The rest of the world that `TaskFiles` uses. `read` and `write` open the file in a mode, read or
-- write all of it and close it; `start_span` and `end_span` are those of the observability manager.
pub record Disk (S : Type 0) : Type 0 where
  pub read : String → String → S → S × Try Content
  pub write : String → String → Content → S → S × Called
  pub listdir : String → S → Try (List String)
  pub dumps : Json → Try (List ℕ)
  pub loads : Content → Try Json
  pub start_span : String → String → S → S
  pub end_span : S → S

-- The fields of a `TaskFiles`; of the S3 manager, its settings.
pub record TaskFiles : Type 0 where
  pub task_dir : String
  pub job_id : String
  pub task_id : String
  pub s3_manager : Option Settings
  pub observability : Bool

abbrev pub not_configured : Try {0} Settings
not_configured = raise (other "S3Manager not configured for this TaskFiles instance.")

-- `if not self._s3_manager: raise RuntimeError(...)`
abbrev pub manager_of : Option Settings → Try Settings
manager_of none = not_configured
manager_of (some st) = ok st

-- `==` on whole numbers.
abbrev pub is_same : ℤ → ℤ → Bool
is_same (pos m) (pos n) = m == n
is_same (negsuc m) (negsuc n) = m == n
is_same _ _ = false

-- `verify_meta.size is not None and actual_size != verify_meta.size`
abbrev pub differs : ℤ → Option Json → Bool
differs size none = false
differs size (some (num n)) = not (is_same size n)
differs size (some v) = true

-- `metadata["root"]`
abbrev pub root_entry : Dict String FileMetadata → Try FileMetadata
root_entry metadata = elim (Dict.lookup "root" metadata) [
  | none ↦ raise (other "root")
  | some meta ↦ ok meta
]

module _ {S : Type 0} (f : Files S) (k : Disk S) (tf : TaskFiles) where
  -- `get_root`, and `get_root_sync`, which makes the same call.
  unfoldable pub get_root : Action S String
  get_root = outside (f.makedirs tf.task_dir) >> (λ _. give tf.task_dir)

  -- `path_to`, and `path_to_sync`.
  unfoldable pub path_to : String → Action S String
  path_to filename = get_root >> (λ root. give (f.join root filename))

  -- The folder of a file in `open`, which is made unless it is the root.
  unfoldable pub make_folder : String → Action S Unit
  make_folder path =
      if f.dirname path == tf.task_dir then give tt else outside (f.makedirs (f.dirname path))

  -- `open`, over the body of its `async with`.
  unfoldable pub open_file : {A : Type 0} → String → (String → Action S A) → Action S A
  open_file filename body = path_to filename >> (λ path. make_folder path >> (λ _. body path))

  unfoldable pub read : String → String → Action S Content
  read filename mode = open_file filename (λ path. outside (k.read path mode))

  unfoldable pub write : String → Content → String → Action S Unit
  write filename data_in mode = open_file filename (λ path. outside (k.write path mode data_in))

  -- The address of a file in `upload_file`.
  abbrev pub upload_uri : Settings → String → String
  upload_uri st path =
      "s3://" <> st.s3_default_bucket <> "/" <> f.lstrip (f.join tf.job_id (f.basename path))

  unfoldable pub size_at : String → Action S ℤ
  size_at path io = (io, f.getsize path io.world)

  unfoldable pub metadata_of : String → String → Action S FileMetadata
  metadata_of path uri = outside (f.upload path uri) >> (λ etag.
      size_at path
      >> (λ size. give (record { uri = uri; size = some (num size); etag = some etag })))

  -- `with self._observability.start_s3_span(op, uri)`, if there is one.
  unfoldable pub in_span : {A : Type 0} → String → String → Action S A → Action S A
  in_span op uri body io =
      let (io', r) = body (record io { world = k.start_span op uri io.world }) in
      if tf.observability then (record io' { world = k.end_span io'.world }, r) else body io

  unfoldable pub upload_file : String → Action S FileMetadata
  upload_file filename = attempt (manager_of tf.s3_manager) >> (λ st.
      path_to filename
      >> (λ path. in_span "upload" (upload_uri st path) (metadata_of path (upload_uri st path))))

  unfoldable pub upload_if_managed : String → Option Settings → Action S (Option FileMetadata)
  upload_if_managed filename none = give none
  upload_if_managed filename (some st) = upload_file filename >> (λ meta. give (some meta))

  unfoldable pub write_json : String → Json → Action S (Option FileMetadata)
  write_json filename v = attempt (k.dumps v) >> (λ content.
      write filename (bytes content) "wb" >> (λ _. upload_if_managed filename tf.s3_manager))

  unfoldable pub read_json : String → Action S Json
  read_json filename = read filename "r" >> (λ content. attempt (k.loads content))

  abbrev pub dir_path : String → String
  dir_path dirname = if dirname == "" then tf.task_dir else f.join tf.task_dir dirname

  unfoldable pub upload_dir : String → Action S FileMetadata
  upload_dir dirname = attempt (manager_of tf.s3_manager) >> (λ st.
      process_result st f tf.job_id (obj (field "root" (str (dir_path dirname)) end))
      >> (λ (_, metadata). attempt (root_entry metadata)))

  -- The check of the size in `download_file`.
  unfoldable pub verify : String → String → Option FileMetadata → Action S Unit
  verify uri local_path none = give tt
  verify uri local_path (some meta) = size_at local_path >> (λ size.
      attempt (
        if differs size meta.size
        then raise (value_error ("Size mismatch for " <> uri))
        else ok tt))

  unfoldable pub download_file : String → String → Option FileMetadata → Action S String
  download_file uri filename verify_meta = attempt (manager_of tf.s3_manager) >> (λ st.
      path_to filename >> (λ local_path.
        in_span "download" uri (outside (f.download uri local_path))
        >> (λ _. verify uri local_path verify_meta >> (λ _. give local_path))))

  -- `list` and `exists`
  unfoldable pub list : Action S (List String)
  list = get_root >> (λ root io. (io, k.listdir root io.world))

  unfoldable pub exists : String → Action S Bool
  exists filename io = (io, ok (f.exists (f.join tf.task_dir filename) io.world))
