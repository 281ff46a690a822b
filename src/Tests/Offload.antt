-- ===== src/Tests/Offload.antt =====
-- Parameters and results with S3 addresses, in a world that counts the calls that it gets.
use avtomatika_worker.Base.{
  String, ℕ, ◌+◌, ◌≡◌, refl, true, false, some, none, [], ◌∷◌, ◌<>◌, if◌then◌else◌, ◌==◌, string_eq,
}
use avtomatika_worker.Base.Int.{pos, ◌-ℤ◌, ◌+ℤ◌}
use avtomatika_worker.Json.{Json, num, str, obj, arr, field, end, cons, nil}
use avtomatika_worker.Worker.{is_truthy}
use avtomatika_worker.Task.Call.{ok, raise, value_error}
use avtomatika_worker.Base.Dict
use avtomatika_worker.Task.Outcome.{FileMetadata}
use avtomatika_worker.Offload.Metadata.{In, texts_at}
use avtomatika_worker.Offload.Uploads.{metadata_name_uploads}
use avtomatika_worker.Offload.{
  Io, process_result, start_map, process, process_fields, result_text, counted, upload_file,
  outside, size_of, remember, with_map, give, ◌>>◌, Settings, Files, process_params,
}
use avtomatika_worker.Offload.Balanced.{IsBalanced, process_params-IsBalanced}
use avtomatika_worker.Offload.Paths.{Returns, map_texts, localized, process_params-Returns}

abbrev pub settings : Settings
settings = record {
  s3_endpoint_url = some "http://s3";
  s3_default_bucket = "b";
  task_files_dir = "/tmp/tasks";
  worker_blob_cache_dir = "/tmp/cache";
}

-- One address is known; uploads and downloads succeed.
abbrev files : Files ℕ
files = record {
  parse_uri = λ uri.
      if uri == "s3://b/in/a.txt"
      then ok (record { bucket = "b"; key = "in/a.txt"; is_dir = false })
      else raise (value_error "bad address");
  get_metadata = λ uri n. (n, ok none);
  download = λ uri path n. (n + 1, ok tt);
  upload = λ path uri n. (n + 1, ok "etag");
  list_objects = λ l n. (n, ok []);
  exists = λ path n. true;
  getsize = λ path n. ok (pos 3);
  makedirs = λ path n. (n, ok tt);
  unlink = λ path n. (n, ok tt);
  symlink = λ target path n. (n, ok tt);
  rmtree = λ path n. n;
  join = λ a b. a <> "/" <> b;
  basename = λ key. if key == "in/a.txt" then "a.txt" else key;
  dirname = λ path. path;
  relpath = λ path start. path;
  folder_name = λ key. key;
  lstrip = λ path. path;
  ends_with_slash = λ path. false;
  text_of = λ n. "0";
}

abbrev params : Json
params = obj (field "files" (arr (cons (str "s3://b/in/a.txt") (cons (str "plain") nil))) end)

abbrev result : Json
result = obj (field "report" (str "/tmp/tasks/t1/r.txt") end)

process_params-IsBalanced_example : IsBalanced (process_params settings files "t1" params)
process_params-IsBalanced_example = process_params-IsBalanced settings files "t1" params

-- The address becomes a local path, and the other text stays.
becomes_path :
    map_texts (localized settings files "t1") params
    ≡ obj (field "files" (arr (cons (str "/tmp/tasks/t1/a.txt") (cons (str "plain") nil))) end)
unfolding map_texts string_eq
becomes_path = refl

process_params-Returns_example :
    Returns
      (if is_truthy (some "http://s3")
        then map_texts (localized settings files "t1") params
        else params)
      (process_params settings files "t1" params)
process_params-Returns_example = process_params-Returns settings files "t1" params

abbrev tagged : Files ℕ
tagged = record files { get_metadata = λ uri n. (n, ok (some "e1")) }

abbrev io : Io ℕ
io = record { world = 0; active_ops = pos 0; metadata_map = [] }

abbrev address : String
address = "s3://b/job//tmp/tasks/t1/r.txt"

abbrev uploaded : FileMetadata
uploaded = record { uri = address; size = some (num (pos 3)); etag = some "etag" }

uploads : process_result settings files "job" result io ≡ (
  record io { world = 1; metadata_map = ("report", uploaded) ∷ [] },
  ok (obj (field "report" (str address) end), ("report", uploaded) ∷ []),
)
unfolding process_result start_map process process_fields result_text counted upload_file outside
    size_of remember with_map give ◌>>◌ Dict.insert string_eq ◌-ℤ◌ ◌+ℤ◌
uploads = refl

metadata_name_uploads_example :
    In ("report", address) (texts_at settings files "" (obj (field "report" (str address) end)))
unfolding Dict.lookup string_eq
metadata_name_uploads_example =
    metadata_name_uploads settings files "job" result (obj (field "report" (str address) end))
      (("report", uploaded) ∷ []) io
      (record io { world = 1; metadata_map = ("report", uploaded) ∷ [] }) "report" uploaded uploads
      refl
