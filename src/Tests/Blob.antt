-- ===== src/Tests/Blob.antt =====
-- A bucket store with three objects and synchronous functions, and a file system that counts files.
use avtomatika_worker.Base.{
  String, ◌≡◌, refl, Bool, true, false, not, none, some, List, [], ◌∷◌, arith, ◌<>◌, ◌==◌,
  string_eq, contains, filter, starts_with, inl, inr,
}
use avtomatika_worker.Base.Dict
use avtomatika_worker.Base.Int.{pos}
use avtomatika_worker.Task.Call.{ok, other}
use avtomatika_worker.Offload.{Io, Files, ◌>>◌, attempt, process_params}
use avtomatika_worker.Blob.{
  Access, Cloud, Obstore, chunk, breaks, check_availability, find_store, keep_store, get_store,
  download, delete, get_metadata, delete_dir, provided, config_kwargs,
}
use avtomatika_worker.Blob.Stores.{uploads, deletes_dir, perform_all, get_store-same}
use avtomatika_worker.Blob.Awaited.{Raises, GivesNone, nothing_is_moved}
use avtomatika_worker.Blob.Unread.{HasAddress, process_params-Raises}
use avtomatika_worker.Json.{Json, obj, field, end, arr, cons, nil, str}
use avtomatika_worker.Tests.Offload.{settings}

-- The keys of the objects, and the local files.
record Place : Type 0 where
  keys : List String
  paths : List String

abbrev access : Access
access = record {
  s3_access_key = some "me";
  s3_secret_key = none;
  s3_region = "us-east-1";
  s3_endpoint_url = some "http://s3";
  s3_default_bucket = "b";
}

-- A key that is missing is left out, and plain HTTP is allowed for.
kwargs_of_plain_http : config_kwargs access ≡ (
    ("aws_access_key_id", "me")
    ∷ ("region", "us-east-1")
    ∷ ("endpoint", "http://s3")
    ∷ ("allow_http", "true")
    ∷ [])
unfolding config_kwargs string_eq Dict.insert
kwargs_of_plain_http = refl

abbrev obstore : Obstore Place String String
obstore = record {
  has_s3 = true;
  parse_uri = λ uri bucket. ok (record { bucket = bucket; key = uri; is_dir = false });
  new_store = λ bucket kwargs s. (s, ok bucket);
  put = λ store key content s. (record s { keys = key ∷ s.keys }, ok (some "e"));
  get = λ store key s. (
    s,
    ok (record { size = pos 2; e_tag = some "e"; stream = chunk "x" (breaks (other "cut")) }),
  );
  list = λ store prefix s. (s, ok (filter (λ k. starts_with k prefix) s.keys));
  delete = λ store key s. (record s { keys = filter (λ k. not (k == key)) s.keys }, ok tt);
  read_file = λ path s. (s, ok path);
  create = λ path s. (record s { paths = path ∷ s.paths }, ok tt);
  append = λ path content s. (s, ok tt);
  is_awaitable = false;
  unquoted = λ t. t;
  ends_with_slash = λ t. false;
}

abbrev place : Place
place = record { keys = "job/a" ∷ "job2/b" ∷ "job/c" ∷ []; paths = [] }

abbrev cloud : Cloud Place String
cloud = record { world = place; stores = [] }

abbrev open_cloud : Cloud Place String
open_cloud = record { world = place; stores = ("b", "b") ∷ [] }

opens_store : get_store access obstore "b" cloud ≡ (open_cloud, ok "b")
unfolding get_store check_availability find_store keep_store ◌>>◌ attempt Dict.lookup Dict.insert
opens_store = refl

get_store-same_example :
    get_store access obstore "b"
      (perform_all access obstore (uploads "/f" "k" ∷ deletes_dir "job" ∷ []) open_cloud)
    ≡ (perform_all access obstore (uploads "/f" "k" ∷ deletes_dir "job" ∷ []) open_cloud, ok "b")
get_store-same_example =
    get_store-same access obstore "b" "b" cloud open_cloud
      (uploads "/f" "k" ∷ deletes_dir "job" ∷ []) opens_store

abbrev present : String → Place → Bool
present path s = contains s.paths path

abbrev local_files : Files (Cloud Place String)
local_files = record {
  parse_uri = λ uri. ok (record { bucket = "b"; key = uri; is_dir = false });
  get_metadata = λ uri c. (c, ok none);
  download = λ uri path c. (c, ok tt);
  upload = λ path uri c. (c, ok "");
  list_objects = λ l c. (c, ok []);
  exists = λ path c. present path c.world;
  getsize = λ path c. ok (pos 2);
  makedirs = λ path c. (c, ok tt);
  unlink = λ path c. (c, ok tt);
  symlink = λ target path c. (c, ok tt);
  rmtree = λ path c. c;
  join = λ folder name. folder <> "/" <> name;
  basename = λ key. key;
  dirname = λ path. path;
  relpath = λ path start. path;
  folder_name = λ key. key;
  lstrip = λ path. path;
  ends_with_slash = λ path. false;
  text_of = λ n. "0";
}

abbrev io : Io (Cloud Place String)
io = record { world = cloud; active_ops = pos 0; metadata_map = [] }

nothing_is_moved_example :
    Raises (download access obstore "k" "/f" cloud).1
    × Raises (delete access obstore "k" cloud).1
    × Raises (delete_dir access obstore "k" cloud).1
    × GivesNone (get_metadata access obstore "k" cloud).1
nothing_is_moved_example = nothing_is_moved access obstore refl "k" "/f" cloud

-- An address in a list in an object, which the loop over the items comes to.
abbrev with_address : Json
with_address = obj (field "n" (str "plain") (field "files" (arr (cons (str "s3://b/k") nil)) end))

process_params-Raises_example :
    Raises (process_params settings (provided access obstore local_files) "t1" with_address io).1
unfolding HasAddress string_eq
process_params-Raises_example =
    process_params-Raises access obstore refl settings local_files "t1" with_address io refl
      (inr (inl (inl (ground arith))))
