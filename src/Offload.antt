-- ===== src/Offload.antt =====
-- s3.py: `S3Manager`, which replaces the S3 addresses in a task's parameters by local files, and the
-- local files in a result by S3 addresses.
pub mod Balanced
pub mod Paths
pub mod Leads
pub mod Cache
pub mod Metadata
pub mod Uploads
use avtomatika_worker.Base.{
  ℕ, suc, String, ◌<>◌, Bool, true, false, not, ◌&&◌, ◌==◌, string_eq, Option, none, some, List, [],
  ◌∷◌, starts_with, if◌then◌else◌,
}
use avtomatika_worker.Base.Dict
use avtomatika_worker.Base.Dict.{Dict}
use avtomatika_worker.Base.Int.{ℤ}
use avtomatika_worker.Json.{
  Json, Items, Fields, null, bool, num, str, arr, obj, nil, cons, end, field,
}
use avtomatika_worker.Worker.{is_truthy}
use avtomatika_worker.Load.{one_more, one_less}
use avtomatika_worker.Task.Call.{Try, ok, raise}
use avtomatika_worker.Task.Outcome.{FileMetadata}

-- How a call ends that gives no value.
abbrev pub Called : Type 0
Called = Try {0} Unit

-- What rxon's `parse_uri` gives.
pub record Location : Type 0 where
  pub bucket : String
  pub key : String
  pub is_dir : Bool

-- The world around the manager with the fields that change: `_active_ops`, and the `metadata_map` of
-- the `process_result` that runs.
pub record Io (S : Type 0) : Type 0 where
  pub world : S
  pub active_ops : ℤ
  pub metadata_map : Dict String FileMetadata

-- The settings that the manager reads.
pub record Settings : Type 0 where
  pub s3_endpoint_url : Option String
  pub s3_default_bucket : String
  pub task_files_dir : String
  pub worker_blob_cache_dir : String

-- Files, folders and the store, each call with what it does to the world; and the path functions of
-- Python. `get_metadata` gives the ETag, if the object's metadata can be read and has one, and may raise; `download`
-- and `upload` are those of `S3BlobProvider`; `folder_name` is `key.rstrip("/").split("/")[-1]`,
-- `lstrip` is `lstrip("/")`, and `text_of` is `str` of a number.
pub record Files (S : Type 0) : Type 0 where
  pub parse_uri : String → Try Location
  pub get_metadata : String → S → S × Try (Option String)
  pub download : String → String → S → S × Called
  pub upload : String → String → S → S × Try String
  pub list_objects : Location → S → S × Try (List String)
  pub exists : String → S → Bool
  pub getsize : String → S → Try ℤ
  pub makedirs : String → S → S × Called
  pub unlink : String → S → S × Called
  pub symlink : String → String → S → S × Called
  pub rmtree : String → S → S
  pub join : String → String → String
  pub basename : String → String
  pub dirname : String → String
  pub relpath : String → String → String
  pub folder_name : String → String
  pub lstrip : String → String
  pub ends_with_slash : String → Bool
  pub text_of : ℕ → String

-- Code that changes a state and may raise, and the same on the manager's state.
abbrev pub Effect : Type 0 → Type 0 → Type 0
Effect W A = W → W × Try A

abbrev pub Action : Type 0 → Type 0 → Type 0
Action S A = Effect (Io S) A

module _ {W : Type 0} where
  unfoldable pub give : {A : Type 0} → A → Effect W A
  give a w = (w, ok a)

  abbrev pub then_do : {A B : Type 0} → (A → Effect W B) → W × Try A → W × Try B
  then_do f (w, ok a) = f a w
  then_do f (w, raise x) = (w, raise x)

  infixl 5 ◌>>◌
  unfoldable pub ◌>>◌ : {A B : Type 0} → Effect W A → (A → Effect W B) → Effect W B
  (a >> f) w = then_do f (a w)

  -- A value that may be an exception.
  unfoldable pub attempt : {A : Type 0} → Try A → Effect W A
  attempt r w = (w, r)

module _ {S : Type 0} where
  -- A call of the world.
  unfoldable pub outside : {A : Type 0} → Effect S A → Action S A
  outside f io = let (s, r) = f io.world in (record io { world = s }, r)

  -- `self._active_ops += 1; try: … finally: self._active_ops -= 1`
  unfoldable pub counted : {A : Type 0} → Action S A → Action S A
  counted a io =
      let (io', r) = a (record io { active_ops = one_more io.active_ops }) in
      (record io' { active_ops = one_less io'.active_ops }, r)

-- The etag that an object is cached under, if it is not empty.
abbrev pub cache_key : Option String → Option String
cache_key none = none
cache_key (some t) = if t == "" then none else some t

module _ {S : Type 0} (st : Settings) (f : Files S) where
  -- `if exists(local_path): unlink(local_path)`, and the link.
  unfoldable pub link_to : String → String → Action S Unit
  link_to cache_file local_path io =
      if f.exists local_path io.world
      then (outside (f.unlink local_path) >> (λ _. outside (f.symlink cache_file local_path))) io
      else outside (f.symlink cache_file local_path) io

  -- The part of `_download_file_cached` for an object with an ETag.
  unfoldable pub download_to_cache : String → String → String → Action S Unit
  download_to_cache uri cache_file local_path io =
      if f.exists cache_file io.world
      then link_to cache_file local_path io
      else (outside (f.download uri cache_file) >> (λ _. link_to cache_file local_path)) io

  abbrev pub download_keyed : String → String → Option String → Action S Unit
  download_keyed uri local_path none = outside (f.download uri local_path)
  download_keyed uri local_path (some etag) =
      outside (f.makedirs st.worker_blob_cache_dir)
      >> (λ _. download_to_cache uri (f.join st.worker_blob_cache_dir etag) local_path)

  unfoldable pub download_file_cached : String → String → Action S Unit
  download_file_cached uri local_path =
      outside (f.get_metadata uri) >> (λ etag. download_keyed uri local_path (cache_key etag))

  -- The loop of `_download_folder` over the paths of the objects.
  unfoldable pub download_objects : Location → String → List String → Action S Unit
  download_objects l local_path [] = give tt
  download_objects l local_path (path ∷ paths) =
      let rest = download_objects l local_path paths in
      let target = f.join local_path (f.relpath path l.key) in
      let one : Action S Unit =
        outside (f.makedirs (f.dirname target))
        >> (λ _. download_file_cached ("s3://" <> l.bucket <> "/" <> path) target) in
      if f.ends_with_slash path then rest else one >> (λ _. rest)

  -- `_download_folder`
  unfoldable pub download_folder : Location → String → Action S String
  download_folder l local_path =
      outside (f.list_objects l)
      >> (λ paths. download_objects l local_path paths >> (λ _. give local_path))

  -- `cleanup`, where `rmtree` ignores the errors that it meets.
  unfoldable pub cleanup : String → S → S
  cleanup task_id s =
      let task_dir = f.join st.task_files_dir task_id in
      if f.exists task_dir s then f.rmtree task_dir s else s

  -- The root of a task's files.
  abbrev pub local_root : String → String
  local_root task_id = f.join st.task_files_dir task_id

  -- Where an address goes.
  abbrev pub local_path : String → Location → String
  local_path task_id l =
      f.join (local_root task_id) (if l.is_dir then f.folder_name l.key else f.basename l.key)

  abbrev pub fetch : String → String → Location → Action S String
  fetch task_id uri l =
      if l.is_dir
      then download_folder l (local_path task_id l)
      else download_file_cached uri (local_path task_id l) >> (λ _. give (local_path task_id l))

  -- The body of the `try` of `process_params`.
  unfoldable pub download_address : String → String → Action S String
  download_address task_id uri =
      attempt (f.parse_uri uri)
      >> (λ l. outside (f.makedirs (local_root task_id)) >> (λ _. fetch task_id uri l))

  -- A text in the parameters: an address is downloaded, and any other stays.
  unfoldable pub params_text : String → String → String → Action S String
  params_text task_id key_path s =
      if starts_with s "s3://" then counted (download_address task_id s) else give s

  -- `metadata_map[key_path] = meta`
  unfoldable pub remember : String → FileMetadata → Action S Unit
  remember key_path meta io =
      (record io { metadata_map = Dict.insert key_path meta io.metadata_map }, ok tt)

  unfoldable pub size_of : String → Action S ℤ
  size_of path io = (io, f.getsize path io.world)

  abbrev pub target_uri : String → String → String
  target_uri s3_prefix path =
      "s3://" <> st.s3_default_bucket <> "/" <> f.lstrip (f.join s3_prefix (f.basename path))

  -- The body of the `try` of `process_result`.
  unfoldable pub upload_file : String → String → String → Action S String
  upload_file s3_prefix key_path path =
      outside (f.upload path (target_uri s3_prefix path)) >> (λ etag. size_of path >> (λ size.
        remember key_path
          (record { uri = target_uri s3_prefix path; size = some (num size); etag = some etag })
        >> (λ _. give (target_uri s3_prefix path))))

  -- A text in a result: a file of a task that exists is uploaded, and any other stays.
  unfoldable pub result_text : String → String → String → Action S String
  result_text s3_prefix key_path s io =
      if starts_with s st.task_files_dir && f.exists s io.world
      then counted (upload_file s3_prefix key_path s) io
      else give s io

  -- `f"{key_path}.{k}" if key_path else k`, and `f"{key_path}[{i}]"`.
  abbrev pub key_of : String → String → String
  key_of key_path k = if key_path == "" then k else key_path <> "." <> k

  abbrev pub index_of : String → ℕ → String
  index_of key_path i = key_path <> "[" <> f.text_of i <> "]"

  -- `_process`, which both methods have, over what they do to a text.
  unfoldable mutual
    pub process : (String → String → Action S String) → String → Json → Action S Json
    process leaf key_path null = give null
    process leaf key_path (bool b) = give (bool b)
    process leaf key_path (num n) = give (num n)
    process leaf key_path (str s) = leaf key_path s >> (λ t. give (str t))
    process leaf key_path (arr vs) = process_items leaf key_path 0 vs >> (λ ws. give (arr ws))
    process leaf key_path (obj fs) = process_fields leaf key_path fs >> (λ gs. give (obj gs))

    pub process_items : (String → String → Action S String) → String → ℕ → Items → Action S Items
    process_items leaf key_path i nil = give nil
    process_items leaf key_path i (cons v vs) =
        process leaf (index_of key_path i) v
        >> (λ w. process_items leaf key_path (suc i) vs >> (λ ws. give (cons w ws)))

    pub process_fields : (String → String → Action S String) → String → Fields → Action S Fields
    process_fields leaf key_path end = give end
    process_fields leaf key_path (field k v fs) =
        process leaf (key_of key_path k) v
        >> (λ w. process_fields leaf key_path fs >> (λ gs. give (field k w gs)))

  unfoldable pub process_params : String → Json → Action S Json
  process_params task_id params =
      if is_truthy st.s3_endpoint_url then process (params_text task_id) "" params else give params

  -- `metadata_map = {}`, and the result with it.
  unfoldable pub start_map : Action S Unit
  start_map io = (record io { metadata_map = [] }, ok tt)

  unfoldable pub with_map : Json → Action S (Json × Dict String FileMetadata)
  with_map result io = (io, ok (result, io.metadata_map))

  unfoldable pub process_result : String → Json → Action S (Json × Dict String FileMetadata)
  process_result s3_prefix result =
      if is_truthy st.s3_endpoint_url
      then start_map >> (λ _. process (result_text s3_prefix) "" result >> with_map)
      else give (result, [])
