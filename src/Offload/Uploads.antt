-- ===== src/Offload/Uploads.antt =====
-- s3.py: `process_result`, whose metadata name the addresses in the result that it gives.
use mathlib.Core.Option.{none-ne-some}
use avtomatika_worker.Base.{
  ℕ, suc, String, ◌≡◌, sym, ap, ◌∙◌, subst, ◌&&◌, some, List, [], ◌∷◌, ◌⊎◌, inl, inr, arith,
  string_eq, Bool-cases, starts_with,
}
use avtomatika_worker.Base.Dict
use avtomatika_worker.Base.Dict.{Dict}
use avtomatika_worker.Base.Int.{ℤ}
use avtomatika_worker.Json.{
  Json, Items, Fields, null, bool, num, str, arr, obj, nil, cons, end, field,
}
use avtomatika_worker.Worker.{is_truthy}
use avtomatika_worker.Task.Call.{Try, ok, raise}
use avtomatika_worker.Task.Outcome.{FileMetadata}
use avtomatika_worker.Load.{one_more, one_less}
use avtomatika_worker.Offload.{
  Io, Settings, Files, Action, give, then_do, ◌>>◌, outside, counted, remember, size_of, target_uri,
  upload_file, result_text, process, process_items, process_fields, process_result, key_of,
  index_of, start_map, with_map,
}
use avtomatika_worker.Offload.Leads.{Holds}
use avtomatika_worker.Offload.Metadata.{
  texts_at, texts_of_items, texts_of_fields, In, In-left, In-right, Covers, Tells, give-Tells,
  map-Tells, pair-Tells,
}

module _ {S : Type 0} (st : Settings) (f : Files S) (s3_prefix : String) where
  -- The text of a leaf, under its key path.
  abbrev at : String → String → List (String × String)
  at key_path t = (key_path, t) ∷ []

  remembered :
      (Q : String → String → Type 0) (key_path : String) (meta : FileMetadata)
      (d : Dict String FileMetadata)
      → Covers Q d
      → Covers (λ k u. Q k u ⊎ In (k, u) (at key_path meta.uri)) (Dict.insert key_path meta d)
  unfolding Covers
  remembered Q key_path meta d c k m e =
      let found = sym (Dict.lookup-insert k key_path meta d) ∙ e in
      elim (string_eq.dec k key_path) [
        | yes same ↦
            let is_meta : m ≡ meta = ground (arith, found, same) in
            inr (inl (ap (λ (n : FileMetadata). (k, n.uri)) is_meta ∙ ap (λ i. (i, meta.uri)) same))
        | no differ ↦ inl (c k m (ground (arith, found, differ)))
      ]

  -- What a leaf gives, and what the metadata then hold.
  abbrev Told : (String → String → Type 0) → String → Io S × Try String → Type 0
  Told Q key_path =
      Holds (λ t (o : Io S). Covers (λ k u. Q k u ⊎ In (k, u) (at key_path t)) o.metadata_map)

  abbrev note : String → String → String → ℤ → Action S String
  note key_path path etag size =
      remember st f key_path
        (record { uri = target_uri st f s3_prefix path; size = some (num size); etag = some etag })
      >> (λ _. give (target_uri st f s3_prefix path))

  sized :
      (Q : String → String → Type 0) (key_path path etag : String) (io : Io S) (size : Try ℤ)
      → Covers Q io.metadata_map
      → Told Q key_path (then_do (note key_path path etag) (io, size))
  unfolding remember give ◌>>◌
  sized Q key_path path etag io (ok size) c =
      remembered Q key_path
        (record { uri = target_uri st f s3_prefix path; size = some (num size); etag = some etag })
        io.metadata_map c
  sized Q key_path path etag io (raise x) c = tt

  sent :
      (Q : String → String → Type 0) (key_path path : String) (io : Io S) (r : Try String)
      → Covers Q io.metadata_map
      → Told Q key_path (then_do (λ etag. size_of st f path >> note key_path path etag) (io, r))
  unfolding size_of ◌>>◌
  sent Q key_path path io (ok etag) c = sized Q key_path path etag io (f.getsize path io.world) c
  sent Q key_path path io (raise x) c = tt

  upload_file-Tells :
      (key_path path : String) → Tells (at key_path) (upload_file st f s3_prefix key_path path)
  unfolding upload_file outside ◌>>◌
  upload_file-Tells key_path path = record {
    all = λ Q io c.
        let (s, r) = f.upload path (target_uri st f s3_prefix path) io.world in
        sent Q key_path path (record io { world = s }) r c;
  }

  counted-Tells :
      {A : Type 0} (texts : A → List (String × String)) (x : Action S A)
      → Tells texts x
      → Tells texts (counted x)
  unfolding counted
  counted-Tells texts x t = record {
    all = λ Q io c.
        let started = record io { active_ops = one_more io.active_ops } in
        kept texts Q (x started) (t.all Q started c);
  }
    where
      kept :
          {A : Type 0} (texts : A → List (String × String)) (Q : String → String → Type 0)
          (r : Io S × Try A)
          → Holds (λ a (o : Io S). Covers (λ k u. Q k u ⊎ In (k, u) (texts a)) o.metadata_map) r
          → Holds
              (λ a (o : Io S). Covers (λ k u. Q k u ⊎ In (k, u) (texts a)) o.metadata_map)
              (record r.0 { active_ops = one_less r.0.active_ops }, r.1)
      kept texts Q (o, ok a) h = h
      kept texts Q (o, raise x) h = tt

  result_text-Tells :
      (key_path s : String) → Tells (at key_path) (result_text st f s3_prefix key_path s)
  unfolding result_text
  result_text-Tells key_path s = record {
    all = λ Q io c. elim (Bool-cases (starts_with s st.task_files_dir && f.exists s io.world)) [
      | inl file ↦
          rw (file) ((counted-Tells (at key_path) _ (upload_file-Tells key_path s)).all Q io c)
      | inr other ↦ rw (other) ((give-Tells (at key_path) s).all Q io c)
    ];
  }

  leaf : String → String → Action S String
  leaf = result_text st f s3_prefix

  mutual
    unfolding process process_items process_fields texts_at texts_of_items texts_of_fields leaf

    process-Tells :
        (key_path : String) (v : Json)
        → Tells (texts_at st f key_path) (process st f leaf key_path v)
    process-Tells key_path null = give-Tells _ null
    process-Tells key_path (bool b) = give-Tells _ (bool b)
    process-Tells key_path (num n) = give-Tells _ (num n)
    process-Tells key_path (str s) =
        map-Tells (at key_path) _ str _ (λ t p h. h) (result_text-Tells key_path s)
    process-Tells key_path (arr vs) =
        map-Tells (texts_of_items st f key_path 0) _ arr _ (λ ws p h. h) (items-Tells key_path 0 vs)
    process-Tells key_path (obj fs) =
        map-Tells (texts_of_fields st f key_path) _ obj _ (λ gs p h. h) (fields-Tells key_path fs)

    items-Tells :
        (key_path : String) (i : ℕ) (vs : Items)
        → Tells (texts_of_items st f key_path i) (process_items st f leaf key_path i vs)
    items-Tells key_path i nil = give-Tells _ nil
    items-Tells key_path i (cons v vs) =
        pair-Tells (texts_at st f (index_of st f key_path i)) (texts_of_items st f key_path (suc i))
          _ cons (λ w ws p h. In-left p _ _ h) (λ w ws p h. In-right p _ _ h) _ _
          (process-Tells (index_of st f key_path i) v) (items-Tells key_path (suc i) vs)

    fields-Tells :
        (key_path : String) (fs : Fields)
        → Tells (texts_of_fields st f key_path) (process_fields st f leaf key_path fs)
    fields-Tells key_path end = give-Tells _ end
    fields-Tells key_path (field k v fs) =
        pair-Tells (texts_at st f (key_of st f key_path k)) (texts_of_fields st f key_path) _
          (field k) (λ w ws p h. In-left p _ _ h) (λ w ws p h. In-right p _ _ h) _ _
          (process-Tells (key_of st f key_path k) v) (fields-Tells key_path fs)

  -- What the metadata of a result owe it.
  abbrev Named : Io S × Try (Json × Dict String FileMetadata) → Type 0
  Named = Holds (λ (v, d) _. Covers (λ k u. In (k, u) (texts_at st f "" v)) d)

  none_yet : (Q : String → String → Type 0) → Covers Q []
  unfolding Covers
  none_yet Q k m h = absurd (none-ne-some m (sym (Dict.lookup-nil k) ∙ h))

  mapped :
      (r : Io S × Try Json)
      → Holds (λ v (o : Io S). Covers (λ k u. ⊥ ⊎ In (k, u) (texts_at st f "" v)) o.metadata_map) r
      → Named (then_do (with_map st f) r)
  unfolding with_map Covers
  mapped (o, ok v) h = λ k m e. elim (h k m e) [ inl q ↦ absurd q | inr i ↦ i ]
  mapped (o, raise x) h = tt

  process_result-Named :
      (result : Json) (io : Io S) → Named (process_result st f s3_prefix result io)
  unfolding process_result start_map give ◌>>◌ leaf
  process_result-Named result io = elim (Bool-cases (is_truthy st.s3_endpoint_url)) [
    | inl set ↦ rw (set) (
        let started = record io { metadata_map = [] } in
        mapped (process st f leaf "" result started)
          ((process-Tells "" result).all (λ _ _. ⊥) started (none_yet _)))
    | inr unset ↦ rw (unset) (none_yet _)
  ]

  -- Where the work on a task's result gives a value with metadata, every entry of the metadata is
  -- about a text of the value: the text at the entry's key path, at any depth of lists and dicts,
  -- is the address of the uploaded file.
  pub metadata_name_uploads :
      (result value : Json) (metadata : Dict String FileMetadata) (io io' : Io S) (k : String)
      (m : FileMetadata)
      → process_result st f s3_prefix result io ≡ (io', ok (value, metadata))
      → Dict.lookup k metadata ≡ some m
      → In (k, m.uri) (texts_at st f "" value)
  unfolding Covers
  metadata_name_uploads result value metadata io io' k m e there =
      subst Named e (process_result-Named result io) k m there
