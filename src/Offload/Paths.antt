-- ===== src/Offload/Paths.antt =====
-- s3.py: what a task's parameters become, and where its addresses go.
use avtomatika_worker.Base.{
  ℕ, suc, String, ◌≡◌, refl, sym, subst, Bool, true, false, string_eq, if◌then◌else◌, starts_with,
}
use avtomatika_worker.Json.{
  Json, Items, Fields, null, bool, num, str, arr, obj, nil, cons, end, field,
}
use avtomatika_worker.Worker.{is_truthy}
use avtomatika_worker.Load.{one_more}
use avtomatika_worker.Task.Call.{Try, ok, raise}
use avtomatika_worker.Task.Outcome.Contract.{Ok}
use avtomatika_worker.Offload.{
  Io, Settings, Files, Location, Action, give, then_do, ◌>>◌, attempt, counted, download_folder,
  fetch, local_path, download_address, params_text, process, process_items, process_fields,
  process_params, key_of, index_of,
}

-- The value with every text changed, in lists and dicts too, and nothing else.
unfoldable mutual
  pub map_texts : (String → String) → Json → Json
  map_texts g null = null
  map_texts g (bool b) = bool b
  map_texts g (num n) = num n
  map_texts g (str s) = str (g s)
  map_texts g (arr vs) = arr (map_items g vs)
  map_texts g (obj fs) = obj (map_fields g fs)

  pub map_items : (String → String) → Items → Items
  map_items g nil = nil
  map_items g (cons v vs) = cons (map_texts g v) (map_items g vs)

  pub map_fields : (String → String) → Fields → Fields
  map_fields g end = end
  map_fields g (field k v fs) = field k (map_texts g v) (map_fields g fs)

always : {A : Type 0} (t : Try A) → Ok (λ _. Unit {0}) t
always (ok a) = tt
always (raise x) = tt

module _ {S : Type 0} where
  -- Every value that the action gives, if it gives one, is `a`.
  pub record Returns {A : Type 0} (a : A) (x : Action S A) : Type 0 where
    pub all : (io : Io S) → Ok (λ b. b ≡ a) (x io).1

  give-Returns : {A : Type 0} (a b : A) → b ≡ a → Returns a (give b)
  unfolding give
  give-Returns a b h = record { all = λ io. h }

  then_do-Ok :
      {A B : Type 0} (P : A → Type 0) (b : B) (f : A → Action S B) (r : Io S × Try A)
      → Ok P r.1
      → ((a : A) → P a → Returns b (f a))
      → Ok (λ c. c ≡ b) (then_do f r).1
  then_do-Ok P b f (io, ok a) h k = (k a h).all io
  then_do-Ok P b f (io, raise x) h k = tt

  -- What an action gives decides what follows it.
  then-Returns :
      {A B : Type 0} (a : A) (b : B) (x : Action S A) (f : A → Action S B)
      → Returns a x
      → Returns b (f a)
      → Returns b (x >> f)
  unfolding ◌>>◌
  then-Returns a b x f h k = record {
    all = λ io.
        then_do-Ok (λ c. c ≡ a) b f (x io) (h.all io)
          (λ c e. subst (λ d. Returns b (f d)) (sym e) k);
  }

  -- What follows gives the value whatever came before.
  any-Returns :
      {A B : Type 0} (b : B) (x : Action S A) (f : A → Action S B)
      → ((a : A) → Returns b (f a))
      → Returns b (x >> f)
  unfolding ◌>>◌
  any-Returns b x f k = record {
    all = λ io. then_do-Ok (λ _. Unit {0}) b f (x io) (always (x io).1) (λ a _. k a);
  }

  counted-Returns : {A : Type 0} (a : A) (x : Action S A) → Returns a x → Returns a (counted x)
  unfolding counted
  counted-Returns a x h = record {
    all = λ io. h.all (record io { active_ops = one_more io.active_ops });
  }

  if-Returns :
      {A : Type 0} (b : Bool) (a c : A) (x y : Action S A)
      → Returns a x
      → Returns c y
      → Returns (if b then a else c) (if b then x else y)
  if-Returns true a c x y h k = h
  if-Returns false a c x y h k = k

  if_same-Returns :
      {A : Type 0} (b : Bool) (a : A) (x y : Action S A)
      → Returns a x
      → Returns a y
      → Returns a (if b then x else y)
  if_same-Returns true a x y h k = h
  if_same-Returns false a x y h k = k

  attempt-Returns :
      {A B : Type 0} (t : Try A) (b : A → B) (other : B) (f : A → Action S B)
      → ((a : A) → Returns (b a) (f a))
      → Returns (elim t [ ok a ↦ b a | raise x ↦ other ]) (attempt t >> f)
  unfolding ◌>>◌ attempt
  attempt-Returns (ok a) b other f h = record { all = λ io. (h a).all io }
  attempt-Returns (raise x) b other f h = record { all = λ io. tt }

module _ {S : Type 0} (st : Settings) (f : Files S) where
  -- The path of an address that can be parsed, in the folder of the task's id in TASK_FILES_DIR;
  -- another one raises.
  abbrev pub path_of : String → String → String
  path_of task_id uri = elim (f.parse_uri uri) [
    | ok l ↦
        f.join (f.join st.task_files_dir task_id)
          (if l.is_dir then f.folder_name l.key else f.basename l.key)
    | raise x ↦ uri
  ]

  -- What becomes of a text in the parameters.
  abbrev pub localized : String → String → String
  localized task_id s = if starts_with s "s3://" then path_of task_id s else s

  fetch-Returns :
      (task_id uri : String) (l : Location)
      → Returns (local_path st f task_id l) (fetch st f task_id uri l)
  unfolding download_folder
  fetch-Returns task_id uri l =
      let path = local_path st f task_id l in
      if_same-Returns l.is_dir path _ _
        (any-Returns path _ _ (λ paths. any-Returns path _ _ (λ _. give-Returns path path refl)))
        (any-Returns path _ _ (λ _. give-Returns path path refl))

  download_address-Returns :
      (task_id uri : String) → Returns (path_of task_id uri) (download_address st f task_id uri)
  unfolding download_address
  download_address-Returns task_id uri =
      attempt-Returns (f.parse_uri uri) (local_path st f task_id) uri _
        (λ l. any-Returns (local_path st f task_id l) _ _ (λ _. fetch-Returns task_id uri l))

  params_text-Returns :
      (task_id k s : String) → Returns (localized task_id s) (params_text st f task_id k s)
  unfolding params_text
  params_text-Returns task_id k s =
      if-Returns (starts_with s "s3://") (path_of task_id s) s _ _
        (counted-Returns _ _ (download_address-Returns task_id s)) (give-Returns s s refl)

  module _ (leaf : String → String → Action S String) (g : String → String)
      (h : (k s : String) → Returns (g s) (leaf k s)) where
    mutual
      unfolding process map_texts

      process-Returns : (k : String) (v : Json) → Returns (map_texts g v) (process st f leaf k v)
      process-Returns k null = give-Returns null null refl
      process-Returns k (bool b) = give-Returns (bool b) (bool b) refl
      process-Returns k (num n) = give-Returns (num n) (num n) refl
      process-Returns k (str s) = then-Returns (g s) (str (g s)) _ _ (h k s) (give-Returns _ _ refl)
      process-Returns k (arr vs) =
          then-Returns (map_items g vs) (arr (map_items g vs)) _ _ (process_items-Returns k 0 vs)
            (give-Returns _ _ refl)
      process-Returns k (obj fs) =
          then-Returns (map_fields g fs) (obj (map_fields g fs)) _ _ (process_fields-Returns k fs)
            (give-Returns _ _ refl)

      process_items-Returns :
          (k : String) (i : ℕ) (vs : Items)
          → Returns (map_items g vs) (process_items st f leaf k i vs)
      process_items-Returns k i nil = give-Returns nil nil refl
      process_items-Returns k i (cons v vs) =
          then-Returns (map_texts g v) (cons (map_texts g v) (map_items g vs)) _ _
            (process-Returns (index_of st f k i) v)
            (then-Returns (map_items g vs) _ _ _ (process_items-Returns k (suc i) vs)
              (give-Returns _ _ refl))

      process_fields-Returns :
          (k : String) (fs : Fields) → Returns (map_fields g fs) (process_fields st f leaf k fs)
      process_fields-Returns k end = give-Returns end end refl
      process_fields-Returns k (field n v fs) =
          then-Returns (map_texts g v) (field n (map_texts g v) (map_fields g fs)) _ _
            (process-Returns (key_of st f k n) v)
            (then-Returns (map_fields g fs) _ _ _ (process_fields-Returns k fs)
              (give-Returns _ _ refl))

  -- Where the work on a task's parameters gives a value, it is the same value with each address,
  -- at any depth, replaced by the join of TASK_FILES_DIR, the task's id, and the base name of the
  -- address's key or, for a folder, the last part of its key; without an endpoint it is the value
  -- itself.
  pub process_params-Returns :
      (task_id : String) (params : Json)
      → Returns
          (if is_truthy st.s3_endpoint_url then map_texts (localized task_id) params else params)
          (process_params st f task_id params)
  unfolding process_params
  process_params-Returns task_id params =
      if-Returns (is_truthy st.s3_endpoint_url) _ params _ _
        (process-Returns (params_text st f task_id) (localized task_id)
          (params_text-Returns task_id) "" params)
        (give-Returns params params refl)
