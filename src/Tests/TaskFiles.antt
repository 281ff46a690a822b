-- ===== src/Tests/TaskFiles.antt =====
-- Files of a task, on a disk that is a list of folders and a dict of files.
use avtomatika_worker.Base.{
  ◌≡◌, refl, ap, ◌∙◌, true, false, some, none, List, [], ◌∷◌, ◌<>◌, if◌then◌else◌, string_eq,
  nat_eq, contains, String, Option, arith, Bool-cases, inl, inr,
}
use avtomatika_worker.Base.Dict
use avtomatika_worker.Base.Dict.{Dict}
use avtomatika_worker.Base.Int.{pos}
use avtomatika_worker.Json.{num, obj, end}
use avtomatika_worker.Task.Call.{Try, ok, raise, other, ◌>>=◌}
use avtomatika_worker.Task.Outcome.{FileMetadata}
use avtomatika_worker.Offload.{Settings, Files, Io, ◌>>◌, outside, give, attempt}
use avtomatika_worker.TaskFiles.{
  Content, text, bytes, Disk, TaskFiles, write, write_json, read_json, upload_dir, download_file,
  open_file, path_to, get_root, make_folder, upload_if_managed, verify, size_at, in_span,
}
use avtomatika_worker.TaskFiles.RoundTrip.{IsDisk, read_json-write_json}
use avtomatika_worker.TaskFiles.Transfer.{no_endpoint, upload_dir-Misses, download_file-verified}

record Store : Type 0 where
  folders : List String
  files : Dict String Content

abbrev make : String → Store → Store
make p s = record s { folders = if contains s.folders p then s.folders else p ∷ s.folders }

abbrev put : String → Content → Store → Store
put p c s = record s { files = Dict.insert p c s.files }

abbrev shown : Option Content → Try Content
shown none = raise (other "no such file")
shown (some (text t)) = ok (text t)
shown (some (bytes b)) = ok (text "{}")

abbrev disk_files : Files Store
disk_files = record {
  parse_uri = λ uri. raise (other "bad address");
  get_metadata = λ uri s. (s, ok none);
  download = λ uri path s. (put path (text "abc") s, ok tt);
  upload = λ path uri s. (s, ok "etag");
  list_objects = λ l s. (s, ok []);
  exists = λ path s. true;
  getsize = λ path s. ok (pos 3);
  makedirs = λ path s. (make path s, ok tt);
  unlink = λ path s. (s, ok tt);
  symlink = λ target path s. (s, ok tt);
  rmtree = λ path s. s;
  join = λ a b. a <> "/" <> b;
  basename = λ key. key;
  dirname = λ path. "/tmp/t1";
  relpath = λ path start. path;
  folder_name = λ key. key;
  lstrip = λ path. path;
  ends_with_slash = λ path. false;
  text_of = λ n. "0";
}

abbrev disk : Disk Store
disk = record {
  read = λ path mode s. (s, shown (Dict.lookup path s.files));
  write = λ path mode c s. (put path c s, ok tt);
  listdir = λ path s. ok [];
  dumps = λ v. ok (123 ∷ 125 ∷ []);
  loads = λ c. ok (obj end);
  start_span = λ op uri s. s;
  end_span = λ s. s;
}

contains-same : (p : String) (ps : List String) → contains (p ∷ ps) p ≡ true
contains-same p ps = ground arith

contains-more :
    (p q : String) (ps : List String) → contains ps q ≡ true → contains (p ∷ ps) q ≡ true
contains-more p q ps h = ground (arith, h)

made : (p : String) (s : Store) → contains (make p s).folders p ≡ true
made p s = elim (Bool-cases (contains s.folders p)) [
  | inl there ↦ rw (there) there
  | inr missing ↦ rw (missing) (contains-same p s.folders)
]

kept :
    (p q : String) (s : Store) → contains s.folders q ≡ true → contains (make p s).folders q ≡ true
kept p q s h = elim (Bool-cases (contains s.folders p)) [
  | inl there ↦ rw (there) h
  | inr missing ↦ rw (missing) (contains-more p q s.folders h)
]

made_again : (p : String) (s : Store) → contains s.folders p ≡ true → make p s ≡ s
made_again p s h = rw (h) refl

lookup-put :
    (p : String) (c : Content) (d : Dict String Content)
    → Dict.lookup p (Dict.insert p c d) ≡ some c
lookup-put p c d = Dict.lookup-insert p p c d ∙ ground arith

abbrev disk-IsDisk : IsDisk disk_files disk
disk-IsDisk = record {
  is_folder = λ p s. contains s.folders p;
  newlines = λ t. t;
  decoded = λ b. ok "{}";
  made = made;
  is_made = λ p s h. ap (λ (u : Store). (u, ok tt)) (made_again p s h);
  kept_by_makedirs = kept;
  kept_by_write = λ p mode q c s h. h;
  read_text = λ p t s. rw (lookup-put p (text t) s.files) refl;
  read_bytes = λ p b t s h.
      rw (lookup-put p (bytes b) s.files)
        (ap (λ (r : Try String). (put p (bytes b) s, r >>= (λ u. ok (text u)))) h);
}

abbrev a_task : Option Settings → TaskFiles
a_task manager = record {
  task_dir = "/tmp/t1";
  job_id = "j1";
  task_id = "t1";
  s3_manager = manager;
  observability = true;
}

abbrev no_s3 : Settings
no_s3 = record {
  s3_endpoint_url = none;
  s3_default_bucket = "b";
  task_files_dir = "/tmp";
  worker_blob_cache_dir = "/tmp/cache";
}

abbrev empty_disk : Io Store
empty_disk = record {
  world = record { folders = []; files = [] };
  active_ops = pos 0;
  metadata_map = [];
}

abbrev with_json : Io Store
with_json = (write_json disk_files disk (a_task none) "a.json" (obj end) empty_disk).0

read_json-write_json_example :
    read_json disk_files disk (a_task none) "a.json" with_json ≡ (with_json, ok (obj end))
unfolding write_json upload_if_managed attempt write open_file path_to get_root make_folder ◌>>◌
    outside give string_eq
read_json-write_json_example =
    read_json-write_json disk_files disk disk-IsDisk (a_task none) "a.json" "{}" (123 ∷ 125 ∷ [])
      (obj end) empty_disk with_json refl refl refl refl refl

upload_dir-Misses_example :
    (upload_dir disk_files disk (a_task (some no_s3)) "" empty_disk).1 ≡ raise (other "root")
upload_dir-Misses_example =
    upload_dir-Misses disk_files disk (a_task (some no_s3)) no_s3 "" empty_disk refl
      (no_endpoint refl)

abbrev three_bytes : FileMetadata
three_bytes = record { uri = "s3://b/x"; size = some (num (pos 3)); etag = none }

abbrev with_download : Io Store
with_download =
    (download_file disk_files disk (a_task (some no_s3)) "s3://b/x" "x" (some three_bytes)
      empty_disk).0

download_file-verified_example : disk_files.getsize "/tmp/t1/x" with_download.world ≡ ok (pos 3)
unfolding download_file verify size_at in_span path_to get_root ◌>>◌ outside give attempt nat_eq
    string_eq
download_file-verified_example =
    download_file-verified disk_files disk (a_task (some no_s3)) "s3://b/x" "x" "/tmp/t1/x"
      three_bytes (pos 3) empty_disk with_download refl refl
