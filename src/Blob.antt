-- ===== src/Blob.antt =====
-- s3.py: `S3BlobProvider`, which keeps a store for each bucket and moves whole objects between the
-- store and local files. It is what `S3Manager` of Offload.antt works with.
pub mod Stores
pub mod Awaited
pub mod Unread
use avtomatika_worker.Base.{
  String, ◌<>◌, Bool, true, false, ◌&&◌, ◌==◌, string_eq, Option, none, some, List, [], ◌∷◌,
  starts_with, if◌then◌else◌,
}
use avtomatika_worker.Base.Dict
use avtomatika_worker.Base.Dict.{Dict}
use avtomatika_worker.Base.Int.{ℤ}
use avtomatika_worker.Worker.{is_truthy}
use avtomatika_worker.Task.Call.{Exception, Try, ok, raise, cancelled, other, type_error}
use avtomatika_worker.Offload.{Location, Effect, Files, give, ◌>>◌, attempt}

-- The settings that the provider reads.
pub record Access : Type 0 where
  pub s3_access_key : Option String
  pub s3_secret_key : Option String
  pub s3_region : String
  pub s3_endpoint_url : Option String
  pub s3_default_bucket : String

-- The body of an object as it arrives: chunks, to the end or until the connection breaks.
pub data Stream (B : Type 0) : Type 0 where
  finished : Stream B
  chunk : B → Stream B → Stream B
  breaks : Exception → Stream B

-- What `obstore_get` gives.
pub record Object (B : Type 0) : Type 0 where
  pub size : ℤ
  pub e_tag : Option String
  pub stream : Stream B

-- What `get_metadata` gives.
pub record Metadata : Type 0 where
  pub size : ℤ
  pub etag : Option String

-- The world with `_stores`.
pub record Cloud (S T : Type 0) : Type 0 where
  pub world : S
  pub stores : Dict String T

-- obstore, and what it needs of the local files: `create` is `open(path, "wb")`, and `append` a write
-- to the file that is open. `has_s3` is `_HAS_S3`; `parse_uri` is rxon's, with the default bucket;
-- `put`, which is `put_async`, gives the `e_tag` of a response that has one; `unquoted` is `strip('"')`.
-- The other calls of obstore are imported as `get`, `list` and `delete`: `is_awaitable` says whether
-- what `get`, `delete` and the stream's `collect` give may be awaited. In obstore 0.11 it may not, for
-- the functions that may are `get_async`, `delete_async` and `collect_async`.
pub record Obstore (S T B : Type 0) : Type 0 where
  pub has_s3 : Bool
  pub parse_uri : String → String → Try Location
  pub new_store : String → Dict String String → Effect S T
  pub put : T → String → B → Effect S (Option String)
  pub get : T → String → Effect S (Object B)
  pub list : T → String → Effect S (List String)
  pub delete : T → String → Effect S Unit
  pub read_file : String → Effect S B
  pub create : String → Effect S Unit
  pub append : String → B → Effect S Unit
  pub is_awaitable : Bool
  pub unquoted : String → String
  pub ends_with_slash : String → Bool

-- `"true"` for `allow_http`, where the endpoint is plain HTTP.
abbrev pub with_endpoint : Option String → Dict String (Option String) → Dict String (Option String)
with_endpoint none d = d
with_endpoint (some url) d =
    if url == ""
    then d
    else let with_url = Dict.insert "endpoint" (some url) d in
      if starts_with url "http://"
      then Dict.insert "allow_http" (some "true") with_url
      else with_url

-- `{k: v for k, v in config_kwargs.items() if v is not None}`
abbrev pub without_none : Dict String (Option String) → Dict String String
without_none [] = []
without_none ((k, none) ∷ d) = without_none d
without_none ((k, some v) ∷ d) = (k, v) ∷ without_none d

unfoldable pub config_kwargs : Access → Dict String String
config_kwargs a = without_none (
    with_endpoint a.s3_endpoint_url (
      ("aws_access_key_id", a.s3_access_key)
      ∷ ("aws_secret_access_key", a.s3_secret_key)
      ∷ ("region", some a.s3_region)
      ∷ []))

-- The TypeError's message, up to the type's name.
abbrev pub not_awaitable : String
not_awaitable = "object can't be used in 'await' expression"

-- A value where there is one, and is not "".
abbrev pub non_empty : Option String → Option String
non_empty none = none
non_empty (some t) = if t == "" then none else some t

-- `except Exception: return None`, which lets a cancellation through.
abbrev pub or_none : {S A : Type 0} → S × Try A → S × Try (Option A)
or_none (s, ok a) = (s, ok (some a))
or_none (s, raise cancelled) = (s, raise cancelled)
or_none (s, raise x) = (s, ok none)

module _ {S T B : Type 0} (a : Access) (o : Obstore S T B) where
  abbrev pub in_world : {A : Type 0} → Effect S A → Effect (Cloud S T) A
  in_world f c = let (s, r) = f c.world in (record c { world = s }, r)

  -- `await` of what a call of obstore gives: the call is made, and a value that cannot be awaited
  -- raises a TypeError.
  unfoldable pub awaited : {A : Type 0} → Effect S A → Effect S A
  awaited call =
      if o.is_awaitable then call else call >> (λ _. attempt (raise (type_error not_awaitable)))

  unfoldable pub check_availability : Effect (Cloud S T) Unit
  check_availability =
      attempt (if o.has_s3 then ok tt else raise (other "S3 support is not installed"))

  -- `self._stores[bucket_name] = store`
  unfoldable pub keep_store : String → T → Effect (Cloud S T) T
  keep_store bucket store c = (record c { stores = Dict.insert bucket store c.stores }, ok store)

  abbrev pub store_or_new : String → Option T → Effect (Cloud S T) T
  store_or_new bucket (some store) = give store
  store_or_new bucket none = in_world (o.new_store bucket (config_kwargs a)) >> keep_store bucket

  unfoldable pub find_store : String → Effect (Cloud S T) T
  find_store bucket c = store_or_new bucket (Dict.lookup bucket c.stores) c

  unfoldable pub get_store : String → Effect (Cloud S T) T
  get_store bucket = check_availability >> (λ _. find_store bucket)

  -- How every operation begins: the check, the parts of the address, and the store.
  unfoldable pub locate : String → Effect (Cloud S T) (T × String)
  locate uri = check_availability >> (λ _.
      attempt (o.parse_uri uri a.s3_default_bucket)
      >> (λ l. get_store l.bucket >> (λ store. give (store, l.key))))

  abbrev pub etag_text : Option String → String
  etag_text e = elim (non_empty e) [ none ↦ "" | some t ↦ o.unquoted t ]

  unfoldable pub upload : String → String → Effect (Cloud S T) String
  upload local_path uri = locate uri >> (λ (store, key).
      in_world (o.read_file local_path >> o.put store key) >> (λ e. give (etag_text e)))

  -- The loop over the chunks.
  unfoldable pub write_chunks : String → Stream B → Effect S Unit
  write_chunks path finished = give tt
  write_chunks path (chunk b bs) = o.append path b >> (λ _. write_chunks path bs)
  write_chunks path (breaks x) = attempt (raise x)

  -- The part of `download` under the semaphore.
  unfoldable pub save : T → String → String → Effect S Unit
  save store key path =
      awaited (o.get store key)
      >> (λ object. o.create path >> (λ _. write_chunks path object.stream))

  -- `download`, which gives True when it does not raise.
  unfoldable pub download : String → String → Effect (Cloud S T) Unit
  download uri local_path = locate uri >> (λ (store, key). in_world (save store key local_path))

  abbrev pub metadata_of_object : Object B → Metadata
  metadata_of_object object = record {
    size = object.size;
    etag = elim (non_empty object.e_tag) [ none ↦ none | some t ↦ some (o.unquoted t) ];
  }

  unfoldable pub read_metadata : T → String → Effect (Cloud S T) (Option Metadata)
  read_metadata store key c =
      or_none
        ((in_world (awaited (o.get store key)) >> (λ object. give (metadata_of_object object))) c)

  unfoldable pub get_metadata : String → Effect (Cloud S T) (Option Metadata)
  get_metadata uri = locate uri >> (λ (store, key). read_metadata store key)

  -- `delete` and `delete_dir` give True when they do not raise.
  unfoldable pub delete : String → Effect (Cloud S T) Unit
  delete uri = locate uri >> (λ (store, key). in_world (awaited (o.delete store key)))

  unfoldable pub delete_all : T → List String → Effect S Unit
  delete_all store [] = give tt
  delete_all store (path ∷ paths) = awaited (o.delete store path) >> (λ _. delete_all store paths)

  abbrev pub folder_prefix : String → String
  folder_prefix key = if o.ends_with_slash key then key else key <> "/"

  unfoldable pub delete_dir : String → Effect (Cloud S T) Unit
  delete_dir uri =
      locate uri
      >> (λ (store, key). in_world (awaited (o.list store (folder_prefix key)) >> delete_all store))

  -- `meta.get("etag") if meta else None`
  abbrev pub etag_of : Option Metadata → Option String
  etag_of none = none
  etag_of (some m) = m.etag

  -- The provider as `S3Manager` uses it, with the local files of `f`.
  abbrev pub provided : Files (Cloud S T) → Files (Cloud S T)
  provided f = record f {
    get_metadata = λ uri. get_metadata uri >> (λ m. give (etag_of m));
    download = download;
    upload = upload;
    list_objects = λ l. get_store l.bucket >> (λ store. in_world (awaited (o.list store l.key)));
  }
