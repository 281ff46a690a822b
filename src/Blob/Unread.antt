-- ===== src/Blob/Unread.antt =====
-- s3.py: `process_params` with the provider of Blob.antt, where obstore's `get` and `list` are
-- synchronous.
use avtomatika_worker.Base.{
  String, ℕ, suc, ◌≡◌, true, false, Option, none, some, inl, inr, ◌⊎◌, starts_with, if◌then◌else◌,
}
use avtomatika_worker.Worker.{is_truthy}
use avtomatika_worker.Json.{
  Json, Items, Fields, null, bool, num, str, arr, obj, nil, cons, end, field,
}
use avtomatika_worker.Task.Call.{Try, ok, raise}
use avtomatika_worker.Offload.{
  Effect, Action, Location, Settings, Files, Io, give, then_do, ◌>>◌, attempt, outside, counted,
  download_keyed, download_file_cached, download_folder, download_address, cache_key, fetch,
  local_path, local_root, params_text, process, process_items, process_fields, process_params,
  key_of, index_of,
}
use avtomatika_worker.Blob.{
  Access, Cloud, Obstore, awaited, get_store, in_world, etag_of, Metadata, download, provided,
  get_metadata,
}
use avtomatika_worker.Blob.Awaited.{
  Raises, GivesNone, then-Raises, after-Raises, awaited-Raises, download-Raises,
  get_metadata-GivesNone,
}

-- An address is somewhere in the value.
unfoldable mutual
  pub HasAddress : Json → Type 0
  HasAddress null = ⊥
  HasAddress (bool b) = ⊥
  HasAddress (num n) = ⊥
  HasAddress (str s) = starts_with s "s3://" ≡ true
  HasAddress (arr vs) = HasAddressItems vs
  HasAddress (obj fs) = HasAddressFields fs

  pub HasAddressItems : Items → Type 0
  HasAddressItems nil = ⊥
  HasAddressItems (cons v vs) = HasAddress v ⊎ HasAddressItems vs

  pub HasAddressFields : Fields → Type 0
  HasAddressFields end = ⊥
  HasAddressFields (field k v fs) = HasAddress v ⊎ HasAddressFields fs

module _ {W : Type 0} where
  -- An action that always raises.
  record Stops {A : Type 0} (x : Effect W A) : Type 0 where
    at : (w : W) → Raises (x w).1

  first-Stops : {A B : Type 0} (x : Effect W A) (f : A → Effect W B) → Stops x → Stops (x >> f)
  unfolding ◌>>◌
  first-Stops x f h = record { at = λ w. then-Raises (x w) f (h.at w) }

  later-Stops :
      {A B : Type 0} (x : Effect W A) (f : A → Effect W B)
      → ((a : A) → Stops (f a))
      → Stops (x >> f)
  unfolding ◌>>◌
  later-Stops x f h = record { at = λ w. after-Raises (x w) f (λ a v. (h a).at v) }

  given_none :
      {A B : Type 0} (r : W × Try (Option A)) (f : Option A → Effect W B)
      → GivesNone r.1
      → Stops (f none)
      → Raises (then_do f r).1
  given_none (w, ok none) f h stops = stops.at w
  given_none (w, ok (some a)) f h stops = absurd h
  given_none (w, raise x) f h stops = tt

  after_none-Stops :
      {A B : Type 0} (x : Effect W (Option A)) (f : Option A → Effect W B)
      → ((w : W) → GivesNone (x w).1)
      → Stops (f none)
      → Stops (x >> f)
  unfolding ◌>>◌
  after_none-Stops x f h stops = record { at = λ w. given_none (x w) f (h w) stops }

outside-Stops :
    {S A : Type 0} (x : Effect S A) → ((s : S) → Raises (x s).1) → Stops (outside {S = S} x)
unfolding outside
outside-Stops x h = record { at = λ io. h io.world }

counted-Stops : {S A : Type 0} (x : Action S A) → Stops x → Stops (counted x)
unfolding counted
counted-Stops x h = record { at = λ io. h.at _ }

-- A text that is an address stops the work on it.
abbrev StopsAtAddress : {S : Type 0} → (String → String → Action S String) → Type 0
StopsAtAddress leaf = (key_path s : String) → starts_with s "s3://" ≡ true → Stops (leaf key_path s)

module _ {S : Type 0} (st : Settings) (f : Files S) (leaf : String → String → Action S String)
    (h : StopsAtAddress leaf) where
  mutual
    unfolding process process_items process_fields HasAddress

    process-Stops :
        (key_path : String) (v : Json) → HasAddress v → Stops (process st f leaf key_path v)
    process-Stops key_path null e = absurd e
    process-Stops key_path (bool b) e = absurd e
    process-Stops key_path (num n) e = absurd e
    process-Stops key_path (str s) e =
        first-Stops (leaf key_path s) (λ t. give (str t)) (h key_path s e)
    process-Stops key_path (arr vs) e =
        first-Stops (process_items st f leaf key_path 0 vs) (λ ws. give (arr ws))
          (items-Stops key_path 0 vs e)
    process-Stops key_path (obj fs) e =
        first-Stops (process_fields st f leaf key_path fs) (λ gs. give (obj gs))
          (fields-Stops key_path fs e)

    items-Stops :
        (key_path : String) (i : ℕ) (vs : Items)
        → HasAddressItems vs
        → Stops (process_items st f leaf key_path i vs)
    items-Stops key_path i nil e = absurd e
    items-Stops key_path i (cons v vs) (inl e) =
        first-Stops (process st f leaf (index_of st f key_path i) v) _
          (process-Stops (index_of st f key_path i) v e)
    items-Stops key_path i (cons v vs) (inr e) =
        later-Stops (process st f leaf (index_of st f key_path i) v) _ (λ w.
          first-Stops (process_items st f leaf key_path (suc i) vs) _
            (items-Stops key_path (suc i) vs e))

    fields-Stops :
        (key_path : String) (fs : Fields)
        → HasAddressFields fs
        → Stops (process_fields st f leaf key_path fs)
    fields-Stops key_path end e = absurd e
    fields-Stops key_path (field k v fs) (inl e) =
        first-Stops (process st f leaf (key_of st f key_path k) v) _
          (process-Stops (key_of st f key_path k) v e)
    fields-Stops key_path (field k v fs) (inr e) =
        later-Stops (process st f leaf (key_of st f key_path k) v) _
          (λ w. first-Stops (process_fields st f leaf key_path fs) _ (fields-Stops key_path fs e))

module _ {S T B : Type 0} (a : Access) (o : Obstore S T B) (sync : o.is_awaitable ≡ false)
    (st : Settings) (f : Files (Cloud S T)) where
  etag_of-GivesNone :
      (r : Cloud S T × Try (Option Metadata))
      → GivesNone r.1
      → GivesNone (then_do (λ m. give (etag_of a o m)) r).1
  unfolding give
  etag_of-GivesNone (c, ok none) h = tt
  etag_of-GivesNone (c, ok (some m)) h = absurd h
  etag_of-GivesNone (c, raise x) h = tt

  list_objects-Raises :
      (l : Location) (c : Cloud S T) → Raises ((provided a o f).list_objects l c).1
  unfolding ◌>>◌
  list_objects-Raises l c =
      after-Raises (get_store a o l.bucket c)
        (λ store. in_world a o (awaited a o (o.list store l.key)))
        (λ store d. awaited-Raises a o sync (o.list store l.key) d.world)

  get_metadata-none :
      (uri : String) (c : Cloud S T) → GivesNone ((provided a o f).get_metadata uri c).1
  unfolding ◌>>◌
  get_metadata-none uri c =
      etag_of-GivesNone (get_metadata a o uri c) (get_metadata-GivesNone a o sync uri c)

  file-Stops : (uri path : String) → Stops (download_file_cached st (provided a o f) uri path)
  unfolding download_file_cached outside
  file-Stops uri path =
      after_none-Stops (outside ((provided a o f).get_metadata uri))
        (λ etag. download_keyed st (provided a o f) uri path (cache_key etag))
        (λ io. get_metadata-none uri io.world)
        (outside-Stops (download a o uri path) (download-Raises a o sync uri path))

  folder-Stops : (l : Location) (path : String) → Stops (download_folder st (provided a o f) l path)
  unfolding download_folder
  folder-Stops l path =
      first-Stops (outside ((provided a o f).list_objects l)) _
        (outside-Stops ((provided a o f).list_objects l) (list_objects-Raises l))

  fetch-Stops :
      (task_id uri : String) (l : Location) → Stops (fetch st (provided a o f) task_id uri l)
  fetch-Stops task_id uri l =
      let path = local_path st (provided a o f) task_id l in
      elim l.is_dir
        as (λ b. Stops (
          if b
          then download_folder st (provided a o f) l path
          else download_file_cached st (provided a o f) uri path >> (λ _. give path))) [
            | true ↦ folder-Stops l path
            | false ↦
                first-Stops (download_file_cached st (provided a o f) uri path) _
                  (file-Stops uri path)
          ]

  address-Stops : (task_id uri : String) → Stops (download_address st (provided a o f) task_id uri)
  unfolding download_address
  address-Stops task_id uri = later-Stops (attempt (f.parse_uri uri)) _ (λ l.
      later-Stops (outside (f.makedirs (local_root st (provided a o f) task_id))) _
        (λ _. fetch-Stops task_id uri l))

  text-Stops : (task_id : String) → StopsAtAddress (params_text st (provided a o f) task_id)
  unfolding params_text
  text-Stops task_id key_path s e =
      rw (e)
        (counted-Stops (download_address st (provided a o f) task_id s) (address-Stops task_id s))

  -- Where what obstore's get, delete and collect give cannot be awaited, as with the synchronous
  -- functions of obstore 0.11 that the module imports, and there is an endpoint, the work on a
  -- task's parameters that have an s3 address anywhere, in lists and dicts too, ends in an
  -- exception, whatever the store, the cache and the files hold.
  pub process_params-Raises :
      (task_id : String) (params : Json) (io : Io (Cloud S T))
      → is_truthy st.s3_endpoint_url ≡ true
      → HasAddress params
      → Raises (process_params st (provided a o f) task_id params io).1
  unfolding process_params
  process_params-Raises task_id params io endpoint e = rw (endpoint) (
      (process-Stops st (provided a o f) (params_text st (provided a o f) task_id)
          (text-Stops task_id) "" params e).at
        io)
