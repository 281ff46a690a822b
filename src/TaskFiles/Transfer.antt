-- ===== src/TaskFiles/Transfer.antt =====
-- task_files.py: `download_file` with its check, and `upload_dir` on top of `S3Manager`.
use mathlib.Core.Bool.{false≢true}
use avtomatika_worker.Base.{
  nat_eq, arith, ℕ, String, ◌<>◌, ◌≡◌, refl, sym, ap, ◌∙◌, subst, true, false, inl, inr, ◌==◌,
  string_eq, some, [], Bool-cases, if◌then◌else◌, starts_with,
}
use avtomatika_worker.Base.Dict
use avtomatika_worker.Base.Dict.{Dict}
use avtomatika_worker.Base.Int.{ℤ, pos, negsuc}
use avtomatika_worker.Json.{Json, num, str, obj, field, end}
use avtomatika_worker.Worker.{is_truthy}
use avtomatika_worker.Task.Call.{Try, ok, raise, value_error, other}
use avtomatika_worker.Task.Outcome.{FileMetadata}
use avtomatika_worker.Offload.{
  Io, Settings, Files, give, then_do, ◌>>◌, attempt, process_result, process, process_fields,
  start_map, with_map, result_text,
}
use avtomatika_worker.Offload.Leads.{Holds, Leads, then-Leads, give-Leads, any-Leads, given}
use avtomatika_worker.TaskFiles.{
  Disk, TaskFiles, is_same, differs, manager_of, size_at, verify, path_to, download_file,
  upload_dir, root_entry, dir_path,
}

same_number : (m n : ℕ) → m == n ≡ true → m ≡ n
same_number m n h = ground arith

same_size : (m n : ℤ) → is_same m n ≡ true → m ≡ n
same_size (pos m) (pos n) h = ap pos (same_number m n h)
same_size (negsuc m) (negsuc n) h = ap negsuc (same_number m n h)
same_size (pos m) (negsuc n) h = absurd (false≢true h)
same_size (negsuc m) (pos n) h = absurd (false≢true h)

module _ {S : Type 0} (f : Files S) (k : Disk S) (tf : TaskFiles) where
  -- What `upload_dir` may not meet: no endpoint, a folder outside of TASK_FILES_DIR, or none at all.
  pub data Misses (st : Settings) (path : String) (s : S) : Type 0 where
    no_endpoint : is_truthy st.s3_endpoint_url ≡ false → Misses st path s
    outside_dir : starts_with path st.task_files_dir ≡ false → Misses st path s
    no_folder : f.exists path s ≡ false → Misses st path s

  abbrev root_of : String → Json
  root_of path = obj (field "root" (str path) end)

  -- The result is kept, and there is no entry for it.
  stays :
      (st : Settings) (prefix path : String) (io : Io S)
      → Misses st path io.world
      → (process_result st f prefix (root_of path) io).1 ≡ ok (root_of path, [])
  unfolding process_result start_map with_map process process_fields result_text give ◌>>◌
  stays st prefix path io (no_endpoint h) = rw (h) refl
  stays st prefix path io (outside_dir h) = elim (Bool-cases (is_truthy st.s3_endpoint_url)) [
    | inl set ↦ rw (set, h) refl
    | inr unset ↦ rw (unset) refl
  ]
  stays st prefix path io (no_folder h) = elim (Bool-cases (is_truthy st.s3_endpoint_url)) [
    | inl set ↦ elim (Bool-cases (starts_with path st.task_files_dir)) [
      | inl is_task_file ↦ rw (set, is_task_file, h) refl
      | inr is_other ↦ rw (set, is_other) refl
    ]
    | inr unset ↦ rw (unset) refl
  ]

  no_root :
      {A : Type 0} (r : Io S × Try (A × Dict String FileMetadata)) (a : A)
      → r.1 ≡ ok (a, [])
      → (then_do (λ (_, m). attempt (root_entry m)) r).1 ≡ raise (other "root")
  unfolding attempt Dict.lookup
  no_root {A} (io, t) a e =
      subst
        (λ (t : Try (A × Dict String FileMetadata)).
          (then_do (λ (_, m). attempt (root_entry m)) (io, t)).1 ≡ raise (other "root"))
        (sym e) refl

  -- Without an endpoint, with a folder whose path does not begin with the text of TASK_FILES_DIR,
  -- or with one that does not exist, uploading a folder ends in the KeyError of a missing entry.
  pub upload_dir-Misses :
      (st : Settings) (name : String) (io : Io S)
      → tf.s3_manager ≡ some st
      → Misses st (dir_path f k tf name) io.world
      → (upload_dir f k tf name io).1 ≡ raise (other "root")
  unfolding upload_dir attempt ◌>>◌
  upload_dir-Misses st name io managed m = rw (managed) (
      no_root (process_result st f tf.job_id (root_of (dir_path f k tf name)) io)
        (root_of (dir_path f k tf name)) (stays st tf.job_id (dir_path f k tf name) io m))

  -- The check passes only at the size that is given.
  checked :
      (uri path : String) (n : ℤ) (io : Io S) (t : Try ℤ)
      → t ≡ f.getsize path io.world
      → Holds
          (λ _ (o : Io S). f.getsize path o.world ≡ ok n)
          (then_do
            (λ size. attempt (
              if differs size (some (num n))
              then raise (value_error ("Size mismatch for " <> uri))
              else ok tt))
            (io, t))
  unfolding attempt
  checked uri path n io (raise x) e = tt
  checked uri path n io (ok m) e = elim (Bool-cases (is_same m n)) [
    | inl same ↦ rw (same) (sym e ∙ ap (λ (i : ℤ). ok i) (same_size m n same))
    | inr differ ↦ rw (differ) tt
  ]

  verify-Leads :
      (uri path : String) (meta : FileMetadata) (n : ℤ)
      → meta.size ≡ some (num n)
      → Leads (λ _. Unit {0}) (verify f k tf uri path (some meta)) (λ _ s. f.getsize path s ≡ ok n)
  unfolding verify size_at ◌>>◌
  verify-Leads uri path meta n is_n =
      subst
        (λ size.
          Leads (λ _. Unit {0}) (verify f k tf uri path (some (record meta { size = size })))
            (λ _ s. f.getsize path s ≡ ok n))
        (sym is_n) (record { all = λ io _. checked uri path n io (f.getsize path io.world) refl })

  downloads-Leads :
      (uri filename : String) (meta : FileMetadata) (n : ℤ)
      → meta.size ≡ some (num n)
      → Leads
          (λ _. Unit {0})
          (download_file f k tf uri filename (some meta))
          (λ p s. f.getsize p s ≡ ok n)
  unfolding download_file
  downloads-Leads uri filename meta n is_n =
      let sized : String → S → Type 0 = λ p s. f.getsize p s ≡ ok n in
      then-Leads (λ _. Unit {0}) (λ _ _. Unit {0}) sized (attempt (manager_of tf.s3_manager)) _
        (any-Leads _)
        (λ _.
          then-Leads (λ _. Unit {0}) (λ _ _. Unit {0}) sized (path_to f k tf filename) _
            (any-Leads _)
            (λ path.
              then-Leads (λ _. Unit {0}) (λ _ _. Unit {0}) sized _ _ (any-Leads _)
                (λ _.
                  then-Leads (λ _. Unit {0}) (λ _ s. sized path s) sized _ _
                    (verify-Leads uri path meta n is_n)
                    (λ _. give-Leads (sized path) sized path (λ s h. h)))))

  -- Where a download with expected metadata that hold a size gives a path, the file at the path
  -- has this size.
  pub download_file-verified :
      (uri filename path : String) (meta : FileMetadata) (n : ℤ) (io io' : Io S)
      → meta.size ≡ some (num n)
      → download_file f k tf uri filename (some meta) io ≡ (io', ok path)
      → f.getsize path io'.world ≡ ok n
  download_file-verified uri filename path meta n io io' is_n e =
      given (λ p s. f.getsize p s ≡ ok n) (download_file f k tf uri filename (some meta) io) io'
        path e ((downloads-Leads uri filename meta n is_n).all io tt)
