-- ===== src/TaskFiles/RoundTrip.antt =====
-- What a task reads back from the files that it has written.
use avtomatika_worker.Base.{
  ℕ, String, ◌≡◌, refl, sym, ap, ◌∙◌, subst, Bool, true, false, ◌==◌, string_eq, Option, none, some,
  List, if◌then◌else◌,
}
use avtomatika_worker.Base.{Bool-cases, inl, inr}
use avtomatika_worker.Base.Dict.{Dict}
use avtomatika_worker.Base.Int.{ℤ}
use mathlib.Core.Bool.{true≢false}
use mathlib.Core.Option.{some-ne-none}
use avtomatika_worker.Json.{Json}
use avtomatika_worker.Task.Call.{Try, ok}
use avtomatika_worker.Task.Outcome.{FileMetadata}
use avtomatika_worker.Offload.{Settings, Io, Files, Action, give, ◌>>◌, outside, attempt}
use avtomatika_worker.Offload.Leads.{
  Holds, Leads, then-Leads, give-Leads, outside-Leads, attempt-Leads, with_state, given,
}
use avtomatika_worker.TaskFiles.{
  Content, text, bytes, Disk, TaskFiles, get_root, path_to, make_folder, open_file, read, write,
  write_json, upload_if_managed, read_json,
}

-- What the operating system promises of folders and files: a folder that was made stays one and may
-- be made again, and a file that was written is read back, a text with its line ends made uniform.
pub record IsDisk {S : Type 0} (f : Files S) (k : Disk S) : Type 0 where
  pub is_folder : String → S → Bool
  pub newlines : String → String
  pub decoded : List ℕ → Try String
  pub made : (p : String) (s : S) → Holds (λ _ s'. is_folder p s' ≡ true) (f.makedirs p s)
  pub is_made : (p : String) (s : S) → is_folder p s ≡ true → f.makedirs p s ≡ (s, ok tt)
  pub kept_by_makedirs :
      (p q : String) (s : S) → is_folder q s ≡ true → is_folder q (f.makedirs p s).0 ≡ true
  pub kept_by_write :
      (p mode q : String) (c : Content) (s : S)
      → is_folder q s ≡ true
      → is_folder q (k.write p mode c s).0 ≡ true
  pub read_text :
      (p t : String) (s : S)
      → Holds (λ _ s'. k.read p "r" s' ≡ (s', ok (text (newlines t)))) (k.write p "w" (text t) s)
  pub read_bytes :
      (p : String) (b : List ℕ) (t : String) (s : S)
      → decoded b ≡ ok t
      → Holds (λ _ s'. k.read p "r" s' ≡ (s', ok (text t))) (k.write p "wb" (bytes b) s)

module _ {S : Type 0} (f : Files S) (k : Disk S) (d : IsDisk f k) (tf : TaskFiles) where
  abbrev Rooted : S → Type 0
  Rooted s = d.is_folder tf.task_dir s ≡ true

  -- The folders that `open` makes are there.
  abbrev Open : String → S → Type 0
  Open path s =
      Rooted s × ((f.dirname path == tf.task_dir ≡ false) → d.is_folder (f.dirname path) s ≡ true)

  abbrev At : String → String → S → Type 0
  At filename path s = (path ≡ f.join tf.task_dir filename) × Rooted s

  path_to-Leads :
      (filename : String) → Leads (λ _. Unit {0}) (path_to f k tf filename) (At filename)
  unfolding path_to get_root
  path_to-Leads filename =
      then-Leads (λ _. Unit {0}) (λ root s. (root ≡ tf.task_dir) × Rooted s) (At filename)
        (get_root f k tf) (λ root. give (f.join root filename))
        (then-Leads (λ _. Unit {0}) (λ _. Rooted) (λ root s. (root ≡ tf.task_dir) × Rooted s)
          (outside (f.makedirs tf.task_dir)) (λ _. give tf.task_dir)
          (outside-Leads (λ _. Unit {0}) (λ _. Rooted) (f.makedirs tf.task_dir)
            (λ s _. d.made tf.task_dir s))
          (λ _.
            give-Leads Rooted (λ root s. (root ≡ tf.task_dir) × Rooted s) tf.task_dir
              (λ s h. (refl, h))))
        (λ root.
          give-Leads (λ s. (root ≡ tf.task_dir) × Rooted s) (At filename) (f.join root filename)
            (λ s h. (ap (λ r. f.join r filename) h.0, h.1)))

  make_folder_if :
      (b : Bool) (path : String)
      → (f.dirname path == tf.task_dir) ≡ b
      → Leads Rooted
          (if b then give tt else outside (f.makedirs (f.dirname path)))
          (λ _ s. Open path s)
  make_folder_if true path e =
      give-Leads Rooted (λ _ s. Open path s) tt
        (λ s h. (h, λ differs. absurd (true≢false (sym e ∙ differs))))
  make_folder_if false path e =
      outside-Leads Rooted (λ _ s. Open path s) (f.makedirs (f.dirname path))
        (λ s h.
          with_state Rooted (λ _ s'. d.is_folder (f.dirname path) s' ≡ true) (λ _ s'. Open path s')
            (f.makedirs (f.dirname path) s) (d.kept_by_makedirs (f.dirname path) tf.task_dir s h)
            (d.made (f.dirname path) s) (λ _ s' root folder. (root, λ _. folder)))

  make_folder-Leads : (path : String) → Leads Rooted (make_folder f k tf path) (λ _ s. Open path s)
  unfolding make_folder
  make_folder-Leads path = make_folder_if (f.dirname path == tf.task_dir) path refl

  -- From there on `open` changes nothing and goes on with its body.
  path_to_again :
      (filename : String) (io : Io S)
      → Rooted io.world
      → path_to f k tf filename io ≡ (io, ok (f.join tf.task_dir filename))
  unfolding path_to get_root ◌>>◌ outside give
  path_to_again filename io h = rw (d.is_made tf.task_dir io.world h) refl

  make_folder_again :
      (path : String) (io : Io S) → Open path io.world → make_folder f k tf path io ≡ (io, ok tt)
  unfolding make_folder outside give
  make_folder_again path io h = elim (Bool-cases (f.dirname path == tf.task_dir)) [
    | inl same ↦ rw (same) refl
    | inr differs ↦ rw (differs, d.is_made (f.dirname path) io.world (h.1 differs)) refl
  ]

  reopens :
      {A : Type 0} (filename : String) (body : String → Action S A) (io : Io S)
      → Open (f.join tf.task_dir filename) io.world
      → open_file f k tf filename body io ≡ body (f.join tf.task_dir filename) io
  unfolding open_file ◌>>◌
  reopens filename body io h =
      rw (path_to_again filename io h.0, make_folder_again (f.join tf.task_dir filename) io h) refl

  -- After `open`, what holds after its body in any world with the folders.
  opens :
      {A : Type 0} (filename : String) (body : String → Action S A) (Q : A → S → Type 0)
      → Leads (Open (f.join tf.task_dir filename)) (body (f.join tf.task_dir filename)) Q
      → Leads (λ _. Unit {0}) (open_file f k tf filename body) Q
  unfolding open_file
  opens filename body Q h =
      then-Leads (λ _. Unit {0}) (At filename) Q (path_to f k tf filename)
        (λ path. make_folder f k tf path >> (λ _. body path)) (path_to-Leads filename)
        (λ path. record {
          all = λ io (same, rooted).
              (then-Leads Rooted (λ _. Open path) Q (make_folder f k tf path) (λ _. body path)
                  (make_folder-Leads path)
                  (λ _. subst (λ p. Leads (Open p) (body p) Q) (sym same) h)).all
                io rooted;
        })

  -- What a later `read` of a file gives, in any state over this world.
  abbrev ReadsAs : String → Content → S → Type 0
  ReadsAs filename c s =
      (n : ℤ) (m : Dict String FileMetadata)
      → let io : Io S = record { world = s; active_ops = n; metadata_map = m } in
        read f k tf filename "r" io ≡ (io, ok c)

  written :
      (filename mode : String) (c back : Content)
      → ((s : S)
          → Holds
              (λ _ s'. k.read (f.join tf.task_dir filename) "r" s' ≡ (s', ok back))
              (k.write (f.join tf.task_dir filename) mode c s))
      → Leads (λ _. Unit {0}) (write f k tf filename c mode) (λ _. ReadsAs filename back)
  unfolding write read outside
  written filename mode c back law =
      let path = f.join tf.task_dir filename in
      opens filename (λ p. outside (k.write p mode c)) (λ _. ReadsAs filename back)
        (outside-Leads (Open path) (λ _. ReadsAs filename back) (k.write path mode c)
          (λ s h.
            with_state (Open path) (λ _ s'. k.read path "r" s' ≡ (s', ok back))
              (λ _. ReadsAs filename back) (k.write path mode c s)
              (
                d.kept_by_write path mode tf.task_dir c s h.0,
                λ differs. d.kept_by_write path mode (f.dirname path) c s (h.1 differs),
              )
              (law s)
              (λ _ s' open_still reads n m.
                reopens filename (λ p. outside (k.read p "r"))
                  (record { world = s'; active_ops = n; metadata_map = m }) open_still
                ∙ rw (reads) refl)))

  -- A text that was written is read back with its line ends made uniform.
  pub read-write :
      (filename t : String) (io io' : Io S)
      → write f k tf filename (text t) "w" io ≡ (io', ok tt)
      → read f k tf filename "r" io' ≡ (io', ok (text (d.newlines t)))
  read-write filename t io io' e =
      given (λ _. ReadsAs filename (text (d.newlines t))) (write f k tf filename (text t) "w" io)
        io' tt e
        ((written filename "w" (text t) (text (d.newlines t))
            (d.read_text (f.join tf.task_dir filename) t)).all
          io tt)
        io'.active_ops io'.metadata_map

  read_bytes-write :
      (filename t : String) (b : List ℕ) (io io' : Io S)
      → d.decoded b ≡ ok t
      → write f k tf filename (bytes b) "wb" io ≡ (io', ok tt)
      → read f k tf filename "r" io' ≡ (io', ok (text t))
  read_bytes-write filename t b io io' readable e =
      given (λ _. ReadsAs filename (text t)) (write f k tf filename (bytes b) "wb" io) io' tt e
        ((written filename "wb" (bytes b) (text t)
            (λ s. d.read_bytes (f.join tf.task_dir filename) b t s readable)).all
          io tt)
        io'.active_ops io'.metadata_map

  stores-Leads :
      (filename t : String) (b : List ℕ) (manager : Option Settings)
      → d.decoded b ≡ ok t
      → manager ≡ none
      → Leads
          (λ _. Unit {0})
          (write f k tf filename (bytes b) "wb" >> (λ _. upload_if_managed f k tf filename manager))
          (λ _. ReadsAs filename (text t))
  unfolding upload_if_managed
  stores-Leads filename t b none readable unmanaged =
      then-Leads (λ _. Unit {0}) (λ _. ReadsAs filename (text t)) (λ _. ReadsAs filename (text t))
        (write f k tf filename (bytes b) "wb") (λ _. give none)
        (written filename "wb" (bytes b) (text t)
          (λ s. d.read_bytes (f.join tf.task_dir filename) b t s readable))
        (λ _.
          give-Leads (ReadsAs filename (text t)) (λ _. ReadsAs filename (text t)) none (λ s h. h))
  stores-Leads filename t b (some st) readable managed = absurd (some-ne-none st managed)

  -- Without an S3 manager, on a disk that keeps its folders and gives back what was written, a
  -- value that was written as JSON is read back from the same file name, provided that orjson
  -- loads what it dumped.
  pub read_json-write_json :
      (filename t : String) (b : List ℕ) (v : Json) (io io' : Io S)
      → tf.s3_manager ≡ none
      → k.dumps v ≡ ok b
      → d.decoded b ≡ ok t
      → k.loads (text t) ≡ ok v
      → write_json f k tf filename v io ≡ (io', ok none)
      → read_json f k tf filename io' ≡ (io', ok v)
  unfolding write_json read_json attempt ◌>>◌
  read_json-write_json filename t b v io io' unmanaged dumped readable loaded e =
      let reads : read f k tf filename "r" io' ≡ (io', ok (text t)) =
        given (λ _. ReadsAs filename (text t)) (write_json f k tf filename v io) io' none e
          ((attempt-Leads (λ _. Unit {0}) (λ _. ReadsAs filename (text t)) (k.dumps v) b
              (λ c.
                write f k tf filename (bytes c) "wb"
                >> (λ _. upload_if_managed f k tf filename tf.s3_manager))
              dumped (stores-Leads filename t b tf.s3_manager readable unmanaged)).all
            io tt)
          io'.active_ops io'.metadata_map in
      rw (reads, loaded) refl
