-- ===== src/Blob/Stores.antt =====
-- s3.py: the dict of stores of `S3BlobProvider`, through any sequence of its operations.
use avtomatika_worker.Base.{
  String, ◌≡◌, refl, sym, ap, ◌∙◌, subst, true, Option, none, some, List, [], ◌∷◌, arith, string_eq,
  inl, inr, Bool-cases,
}
use avtomatika_worker.Base.Dict
use avtomatika_worker.Task.Call.{Try, ok, raise, cancelled}
use avtomatika_worker.Offload.{Effect, give, then_do, ◌>>◌, attempt}
use avtomatika_worker.Blob.{
  Access, Cloud, Obstore, awaited, in_world, check_availability, keep_store, find_store, get_store,
  locate, upload, download, get_metadata, read_metadata, delete, delete_dir, or_none,
  metadata_of_object, store_or_new,
}

-- An operation of the provider.
pub data Operation : Type 0 where
  uploads : String → String → Operation
  downloads : String → String → Operation
  reads_metadata : String → Operation
  deletes : String → Operation
  deletes_dir : String → Operation

module _ {S T : Type 0} where
  -- The stores that are there stay.
  abbrev IsKept : Cloud S T → Cloud S T → Type 0
  IsKept c d =
      (b : String) (t : T) → Dict.lookup b c.stores ≡ some t → Dict.lookup b d.stores ≡ some t

  record Keeps {A : Type 0} (x : Effect (Cloud S T) A) : Type 0 where
    all : (c : Cloud S T) → IsKept c (x c).0

  give-Keeps : {A : Type 0} (a : A) → Keeps (give a)
  unfolding give
  give-Keeps a = record { all = λ c b t h. h }

  attempt-Keeps : {A : Type 0} (r : Try A) → Keeps (attempt r)
  unfolding attempt
  attempt-Keeps r = record { all = λ c b t h. h }

  followed :
      {A B : Type 0} (c : Cloud S T) (r : Cloud S T × Try A) (f : A → Effect (Cloud S T) B)
      → IsKept c r.0
      → ((a : A) → Keeps (f a))
      → IsKept c (then_do f r).0
  followed c (d, ok a) f h k = λ b t e. (k a).all d b t (h b t e)
  followed c (d, raise x) f h k = h

  then-Keeps :
      {A B : Type 0} (x : Effect (Cloud S T) A) (f : A → Effect (Cloud S T) B)
      → Keeps x
      → ((a : A) → Keeps (f a))
      → Keeps (x >> f)
  unfolding ◌>>◌
  then-Keeps x f h k = record { all = λ c. followed c (x c) f (h.all c) k }

  or_none-same : {A : Type 0} (r : Cloud S T × Try A) → (or_none r).0 ≡ r.0
  or_none-same (c, ok a) = refl
  or_none-same (c, raise cancelled) = refl
  or_none-same (c, raise x) = refl

module _ {S T B : Type 0} (a : Access) (o : Obstore S T B) where
  in_world-Keeps : {A : Type 0} (f : Effect S A) → Keeps (in_world a o f)
  in_world-Keeps f = record { all = λ c b t h. h }

  keep_store-Keeps :
      (c : Cloud S T) (bucket : String) (store : T)
      → Dict.lookup bucket c.stores ≡ none
      → IsKept c (keep_store a o bucket store c).0
  unfolding keep_store
  keep_store-Keeps c bucket store fresh b t h =
      ground (arith, Dict.lookup-insert b bucket store c.stores)

  made :
      (c : Cloud S T) (bucket : String) (r : S × Try T)
      → Dict.lookup bucket c.stores ≡ none
      → IsKept c (then_do (keep_store a o bucket) (record c { world = r.0 }, r.1)).0
  made c bucket (s, ok store) fresh = keep_store-Keeps (record c { world = s }) bucket store fresh
  made c bucket (s, raise x) fresh = λ b t h. h

  found :
      (c : Cloud S T) (bucket : String) (r : Option T)
      → Dict.lookup bucket c.stores ≡ r
      → IsKept c (store_or_new a o bucket r c).0
  unfolding ◌>>◌ give
  found c bucket (some store) there = λ b t h. h
  found c bucket none fresh = made c bucket _ fresh

  find_store-Keeps : (bucket : String) → Keeps (find_store a o bucket)
  unfolding find_store
  find_store-Keeps bucket = record { all = λ c. found c bucket _ refl }

  get_store-Keeps : (bucket : String) → Keeps (get_store a o bucket)
  unfolding get_store check_availability
  get_store-Keeps bucket = then-Keeps _ _ (attempt-Keeps _) (λ _. find_store-Keeps bucket)

  locate-Keeps : (uri : String) → Keeps (locate a o uri)
  unfolding locate check_availability
  locate-Keeps uri = then-Keeps _ _ (attempt-Keeps _) (λ _.
      then-Keeps _ _ (attempt-Keeps _)
        (λ l. then-Keeps _ _ (get_store-Keeps l.bucket) (λ store. give-Keeps (store, l.key))))

  read_metadata-Keeps : (store : T) (key : String) → Keeps (read_metadata a o store key)
  unfolding read_metadata
  read_metadata-Keeps store key = record {
    all = λ c.
        let read =
          in_world a o (awaited a o (o.get store key))
          >> (λ object. give (metadata_of_object a o object)) in
        subst (IsKept c) (sym (or_none-same (read c))) (
          (then-Keeps _ _ (in_world-Keeps (awaited a o (o.get store key)))
              (λ object. give-Keeps _)).all
            c);
  }

  -- The state after an operation, whether it raised or not.
  abbrev perform : Operation → Cloud S T → Cloud S T
  perform (uploads path uri) c = (upload a o path uri c).0
  perform (downloads uri path) c = (download a o uri path c).0
  perform (reads_metadata uri) c = (get_metadata a o uri c).0
  perform (deletes uri) c = (delete a o uri c).0
  perform (deletes_dir uri) c = (delete_dir a o uri c).0

  abbrev pub perform_all : List Operation → Cloud S T → Cloud S T
  perform_all [] c = c
  perform_all (x ∷ xs) c = perform_all xs (perform x c)

  perform-IsKept : (x : Operation) (c : Cloud S T) → IsKept c (perform x c)
  unfolding upload download get_metadata delete delete_dir
  perform-IsKept (uploads path uri) c =
      (then-Keeps _ _ (locate-Keeps uri)
          (λ (store, key). then-Keeps _ _ (in_world-Keeps _) (λ e. give-Keeps _))).all
        c
  perform-IsKept (downloads uri path) c =
      (then-Keeps _ _ (locate-Keeps uri) (λ (store, key). in_world-Keeps _)).all c
  perform-IsKept (reads_metadata uri) c =
      (then-Keeps _ _ (locate-Keeps uri) (λ (store, key). read_metadata-Keeps store key)).all c
  perform-IsKept (deletes uri) c =
      (then-Keeps _ _ (locate-Keeps uri) (λ (store, key). in_world-Keeps _)).all c
  perform-IsKept (deletes_dir uri) c =
      (then-Keeps _ _ (locate-Keeps uri) (λ (store, key). in_world-Keeps _)).all c

  perform_all-IsKept : (xs : List Operation) (c : Cloud S T) → IsKept c (perform_all xs c)
  perform_all-IsKept [] c b t h = h
  perform_all-IsKept (x ∷ xs) c b t h =
      perform_all-IsKept xs (perform x c) b t (perform-IsKept x c b t h)

  abbrev Stored : String → Cloud S T × Try T → Type 0
  Stored bucket (c, ok store) = Dict.lookup bucket c.stores ≡ some store
  Stored bucket (c, raise x) = Unit

  new-Stored :
      (c : Cloud S T) (bucket : String) (r : S × Try T)
      → Stored bucket (then_do (keep_store a o bucket) (record c { world = r.0 }, r.1))
  unfolding keep_store
  new-Stored c bucket (s, ok store) =
      ground (arith, Dict.lookup-insert bucket bucket store c.stores)
  new-Stored c bucket (s, raise x) = tt

  found-Stored :
      (c : Cloud S T) (bucket : String) (r : Option T)
      → Dict.lookup bucket c.stores ≡ r
      → Stored bucket (store_or_new a o bucket r c)
  unfolding ◌>>◌ give
  found-Stored c bucket (some store) there = there
  found-Stored c bucket none fresh = new-Stored c bucket _

  get_store-found :
      (bucket : String) (c : Cloud S T)
      → o.has_s3 ≡ true
      → get_store a o bucket c ≡ find_store a o bucket c
  unfolding get_store check_availability attempt ◌>>◌
  get_store-found bucket c h = rw (h) refl

  -- A store is only given where the S3 support is installed.
  pub get_store-available :
      (bucket : String) (store : T) (c d : Cloud S T)
      → get_store a o bucket c ≡ (d, ok store)
      → o.has_s3 ≡ true
  unfolding get_store check_availability attempt ◌>>◌
  get_store-available bucket store c d e = elim (Bool-cases o.has_s3) [
    | inl h ↦ h
    | inr h ↦ ground (arith, e)
  ]

  -- Once a bucket's store was given, it is given again, without any other effect, after any
  -- sequence of uploads, downloads, reads of metadata and deletions, whether these succeed or
  -- raise.
  pub get_store-same :
      (bucket : String) (store : T) (c d : Cloud S T) (xs : List Operation)
      → get_store a o bucket c ≡ (d, ok store)
      → get_store a o bucket (perform_all xs d) ≡ (perform_all xs d, ok store)
  unfolding find_store give
  get_store-same bucket store c d xs e =
      let available = get_store-available bucket store c d e in
      let stored : Dict.lookup bucket d.stores ≡ some store =
        subst (Stored bucket) (sym (get_store-found bucket c available) ∙ e)
          (found-Stored c bucket _ refl) in
      let later = perform_all-IsKept xs d bucket store stored in
      get_store-found bucket (perform_all xs d) available
      ∙ ap (λ r. store_or_new a o bucket r (perform_all xs d)) later
