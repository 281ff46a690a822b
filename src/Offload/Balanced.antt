-- ===== src/Offload/Balanced.antt =====
-- s3.py: the count of operations under way, `_active_ops`.
use avtomatika_worker.Base.{
  ℕ, suc, String, ◌≡◌, refl, ap, ◌∙◌, Bool, true, false, ◌&&◌, string_eq, Option, none, some, List,
  [], ◌∷◌, if◌then◌else◌, starts_with,
}
use avtomatika_worker.Base.Int.{ℤ}
use avtomatika_worker.Json.{
  Json, Items, Fields, null, bool, num, str, arr, obj, nil, cons, end, field,
}
use avtomatika_worker.Worker.{is_truthy}
use avtomatika_worker.Load.{one_more, one_less}
use avtomatika_worker.Load.Entries.{one_less-one_more}
use avtomatika_worker.Task.Call.{Try, ok, raise}
use avtomatika_worker.Task.Outcome.{FileMetadata}
use avtomatika_worker.Offload.{
  Io, Settings, Files, Location, Action, give, then_do, ◌>>◌, outside, attempt, counted, cache_key,
  link_to, download_to_cache, download_keyed, download_file_cached, download_objects,
  download_folder, fetch, download_address, params_text, upload_file, result_text, process,
  process_items, process_fields, process_params, process_result, size_of, remember, start_map,
  with_map, key_of, index_of,
}

module _ {S : Type 0} where
  pub record IsBalanced {A : Type 0} (a : Action S A) : Type 0 where
    pub same : (io : Io S) → (a io).0.active_ops ≡ io.active_ops

  give-IsBalanced : {A : Type 0} (a : A) → IsBalanced (give a)
  unfolding give
  give-IsBalanced a = record { same = λ io. refl }

  outside-IsBalanced : {A : Type 0} (g : S → S × Try A) → IsBalanced (outside g)
  unfolding outside
  outside-IsBalanced g = record { same = λ io. refl }

  attempt-IsBalanced : {A : Type 0} (r : Try A) → IsBalanced (attempt r)
  unfolding attempt
  attempt-IsBalanced r = record { same = λ io. refl }

  then_do-balanced :
      {A B : Type 0} (f : A → Action S B) (n : ℤ) (r : Io S × Try A)
      → ((a : A) → IsBalanced (f a))
      → r.0.active_ops ≡ n
      → (then_do f r).0.active_ops ≡ n
  then_do-balanced f n (io, ok a) h e = (h a).same io ∙ e
  then_do-balanced f n (io, raise x) h e = e

  then-IsBalanced :
      {A B : Type 0} (a : Action S A) (f : A → Action S B)
      → IsBalanced a
      → ((x : A) → IsBalanced (f x))
      → IsBalanced (a >> f)
  unfolding ◌>>◌
  then-IsBalanced a f h k = record {
    same = λ io. then_do-balanced f io.active_ops (a io) k (h.same io);
  }

  counted-IsBalanced : {A : Type 0} (a : Action S A) → IsBalanced a → IsBalanced (counted a)
  unfolding counted
  counted-IsBalanced a h = record {
    same = λ io.
        ap one_less (h.same (record io { active_ops = one_more io.active_ops }))
        ∙ one_less-one_more io.active_ops;
  }

  if-balanced :
      {A : Type 0} (b : Bool) (n : ℤ) (x y : Io S × Try A)
      → x.0.active_ops ≡ n
      → y.0.active_ops ≡ n
      → (if b then x else y).0.active_ops ≡ n
  if-balanced true n x y h k = h
  if-balanced false n x y h k = k

  if-IsBalanced :
      {A : Type 0} (b : Bool) (x y : Action S A)
      → IsBalanced x
      → IsBalanced y
      → IsBalanced (if b then x else y)
  if-IsBalanced true x y h k = h
  if-IsBalanced false x y h k = k

module _ {S : Type 0} (st : Settings) (f : Files S) where
  link_to-IsBalanced : (c p : String) → IsBalanced (link_to st f c p)
  unfolding link_to
  link_to-IsBalanced c p =
      let relink : Action S Unit = outside (f.unlink p) >> (λ _. outside (f.symlink c p)) in
      let balanced : IsBalanced relink =
        then-IsBalanced _ _ (outside-IsBalanced _) (λ _. outside-IsBalanced _) in
      record {
        same = λ io.
            if-balanced (f.exists p io.world) io.active_ops (relink io) (outside (f.symlink c p) io)
              (balanced.same io) ((outside-IsBalanced (f.symlink c p)).same io);
      }

  download_to_cache-IsBalanced : (u c p : String) → IsBalanced (download_to_cache st f u c p)
  unfolding download_to_cache
  download_to_cache-IsBalanced u c p =
      let fresh : Action S Unit = outside (f.download u c) >> (λ _. link_to st f c p) in
      let balanced : IsBalanced fresh =
        then-IsBalanced _ _ (outside-IsBalanced _) (λ _. link_to-IsBalanced c p) in
      record {
        same = λ io.
            if-balanced (f.exists c io.world) io.active_ops (link_to st f c p io) (fresh io)
              ((link_to-IsBalanced c p).same io) (balanced.same io);
      }

  download_keyed-IsBalanced :
      (u p : String) (k : Option String) → IsBalanced (download_keyed st f u p k)
  download_keyed-IsBalanced u p none = outside-IsBalanced (f.download u p)
  download_keyed-IsBalanced u p (some k) =
      then-IsBalanced _ _ (outside-IsBalanced _) (λ _. download_to_cache-IsBalanced u _ p)

  download_file_cached-IsBalanced : (u p : String) → IsBalanced (download_file_cached st f u p)
  unfolding download_file_cached
  download_file_cached-IsBalanced u p =
      then-IsBalanced _ _ (outside-IsBalanced _)
        (λ etag. download_keyed-IsBalanced u p (cache_key etag))

  download_objects-IsBalanced :
      (l : Location) (p : String) (paths : List String)
      → IsBalanced (download_objects st f l p paths)
  unfolding download_objects
  download_objects-IsBalanced l p [] = give-IsBalanced _
  download_objects-IsBalanced l p (q ∷ qs) =
      let rest = download_objects-IsBalanced l p qs in
      if-IsBalanced (f.ends_with_slash q) _ _ rest (
        then-IsBalanced _ _
          (then-IsBalanced _ _ (outside-IsBalanced _) (λ _. download_file_cached-IsBalanced _ _))
          (λ _. rest))

  download_folder-IsBalanced : (l : Location) (p : String) → IsBalanced (download_folder st f l p)
  unfolding download_folder
  download_folder-IsBalanced l p =
      then-IsBalanced _ _ (outside-IsBalanced _)
        (λ qs. then-IsBalanced _ _ (download_objects-IsBalanced l p qs) (λ x. give-IsBalanced _))

  fetch-IsBalanced : (t u : String) (l : Location) → IsBalanced (fetch st f t u l)
  fetch-IsBalanced t u l =
      if-IsBalanced l.is_dir _ _ (download_folder-IsBalanced l _)
        (then-IsBalanced _ _ (download_file_cached-IsBalanced u _) (λ x. give-IsBalanced _))

  params_text-IsBalanced : (t k s : String) → IsBalanced (params_text st f t k s)
  unfolding params_text download_address
  params_text-IsBalanced t k s =
      if-IsBalanced (starts_with s "s3://") _ _
        (counted-IsBalanced _ (
          then-IsBalanced _ _ (attempt-IsBalanced (f.parse_uri s))
            (λ l. then-IsBalanced _ _ (outside-IsBalanced _) (λ _. fetch-IsBalanced t s l))))
        (give-IsBalanced _)

  size_of-IsBalanced : (s : String) → IsBalanced (size_of st f s)
  unfolding size_of
  size_of-IsBalanced s = record { same = λ io. refl }

  remember-IsBalanced : (k : String) (m : FileMetadata) → IsBalanced (remember st f k m)
  unfolding remember
  remember-IsBalanced k m = record { same = λ io. refl }

  upload_file-IsBalanced : (x k s : String) → IsBalanced (upload_file st f x k s)
  unfolding upload_file
  upload_file-IsBalanced x k s = then-IsBalanced _ _ (outside-IsBalanced _) (λ etag.
      then-IsBalanced _ _ (size_of-IsBalanced s)
        (λ size. then-IsBalanced _ _ (remember-IsBalanced k _) (λ x. give-IsBalanced _)))

  result_text-IsBalanced : (x k s : String) → IsBalanced (result_text st f x k s)
  unfolding result_text
  result_text-IsBalanced x k s =
      let balanced = counted-IsBalanced (upload_file st f x k s) (upload_file-IsBalanced x k s) in
      record {
        same = λ io.
            if-balanced (starts_with s st.task_files_dir && f.exists s io.world) io.active_ops
              (counted (upload_file st f x k s) io) (give s io) (balanced.same io)
              ((give-IsBalanced s).same io);
      }

  start_map-IsBalanced : IsBalanced (start_map st f)
  unfolding start_map
  start_map-IsBalanced = record { same = λ io. refl }

  with_map-IsBalanced : (v : Json) → IsBalanced (with_map st f v)
  unfolding with_map
  with_map-IsBalanced v = record { same = λ io. refl }

  module _ (leaf : String → String → Action S String)
      (h : (k s : String) → IsBalanced (leaf k s)) where
    mutual
      unfolding process

      process-IsBalanced : (k : String) (v : Json) → IsBalanced (process st f leaf k v)
      process-IsBalanced k null = give-IsBalanced _
      process-IsBalanced k (bool b) = give-IsBalanced _
      process-IsBalanced k (num n) = give-IsBalanced _
      process-IsBalanced k (str s) = then-IsBalanced (leaf k s) _ (h k s) (λ x. give-IsBalanced _)
      process-IsBalanced k (arr vs) =
          then-IsBalanced _ _ (process_items-IsBalanced k 0 vs) (λ x. give-IsBalanced _)
      process-IsBalanced k (obj fs) =
          then-IsBalanced _ _ (process_fields-IsBalanced k fs) (λ x. give-IsBalanced _)

      process_items-IsBalanced :
          (k : String) (i : ℕ) (vs : Items) → IsBalanced (process_items st f leaf k i vs)
      process_items-IsBalanced k i nil = give-IsBalanced _
      process_items-IsBalanced k i (cons v vs) =
          then-IsBalanced _ _ (process-IsBalanced (index_of st f k i) v) (λ w.
            then-IsBalanced _ _ (process_items-IsBalanced k (suc i) vs) (λ x. give-IsBalanced _))

      process_fields-IsBalanced :
          (k : String) (fs : Fields) → IsBalanced (process_fields st f leaf k fs)
      process_fields-IsBalanced k end = give-IsBalanced _
      process_fields-IsBalanced k (field n v fs) =
          then-IsBalanced _ _ (process-IsBalanced (key_of st f k n) v)
            (λ w. then-IsBalanced _ _ (process_fields-IsBalanced k fs) (λ x. give-IsBalanced _))

  -- However the work on a task's parameters ends, also by an exception, the count of operations
  -- under way, which the shutdown waits for, is what it was before.
  pub process_params-IsBalanced :
      (task_id : String) (params : Json) → IsBalanced (process_params st f task_id params)
  unfolding process_params
  process_params-IsBalanced task_id params =
      if-IsBalanced (is_truthy st.s3_endpoint_url) _ _
        (process-IsBalanced (params_text st f task_id) (params_text-IsBalanced task_id) "" params)
        (give-IsBalanced _)

  -- However the work on a result ends, also by an exception, the count of operations under way is
  -- what it was before.
  pub process_result-IsBalanced :
      (prefix : String) (result : Json) → IsBalanced (process_result st f prefix result)
  unfolding process_result
  process_result-IsBalanced prefix result =
      if-IsBalanced (is_truthy st.s3_endpoint_url) _ _
        (then-IsBalanced _ _ start_map-IsBalanced (λ _.
          then-IsBalanced _ _
            (process-IsBalanced (result_text st f prefix) (result_text-IsBalanced prefix) "" result)
            with_map-IsBalanced))
        (give-IsBalanced _)
