-- ===== src/Blob/Awaited.antt =====
-- s3.py: what the provider's operations end in where obstore's `get`, `list` and `delete` are the
-- synchronous functions that obstore 0.11 has.
use avtomatika_worker.Base.{String, ◌≡◌, false, Option, none, some, string_eq}
use avtomatika_worker.Task.Call.{Try, ok, raise, type_error, cancelled}
use avtomatika_worker.Offload.{Effect, give, then_do, ◌>>◌, attempt}
use avtomatika_worker.Blob.{
  Access, Cloud, Obstore, write_chunks, metadata_of_object, in_world, awaited, locate, save,
  download, read_metadata, get_metadata, delete, delete_dir, delete_all, folder_prefix, or_none,
  not_awaitable,
}

-- A call that does not come to a value.
abbrev pub Raises : {A : Type 0} → Try A → Type 0
Raises (ok a) = ⊥
Raises (raise x) = Unit

-- A call that gives no metadata.
abbrev pub GivesNone : {A : Type 0} → Try (Option A) → Type 0
GivesNone (ok none) = Unit
GivesNone (ok (some a)) = ⊥
GivesNone (raise x) = Unit

module _ {W : Type 0} where
  pub then-Raises :
      {A B : Type 0} (r : W × Try A) (f : A → Effect W B) → Raises r.1 → Raises (then_do f r).1
  then-Raises (w, ok a) f h = absurd h
  then-Raises (w, raise x) f h = tt

  pub after-Raises :
      {A B : Type 0} (r : W × Try A) (f : A → Effect W B)
      → ((a : A) (w : W) → Raises (f a w).1)
      → Raises (then_do f r).1
  after-Raises (w, ok a) f h = h a w
  after-Raises (w, raise x) f h = tt

  after-GivesNone :
      {A B : Type 0} (r : W × Try A) (f : A → Effect W (Option B))
      → ((a : A) (w : W) → GivesNone (f a w).1)
      → GivesNone (then_do f r).1
  after-GivesNone (w, ok a) f h = h a w
  after-GivesNone (w, raise x) f h = tt

  or_none-GivesNone : {A : Type 0} (r : W × Try A) → Raises r.1 → GivesNone (or_none r).1
  or_none-GivesNone (w, ok a) h = absurd h
  or_none-GivesNone (w, raise cancelled) h = tt
  or_none-GivesNone (w, raise x) h = tt

module _ {S T B : Type 0} (a : Access) (o : Obstore S T B) (sync : o.is_awaitable ≡ false) where
  pub awaited-Raises : {A : Type 0} (call : Effect S A) (s : S) → Raises (awaited a o call s).1
  unfolding awaited ◌>>◌ attempt
  awaited-Raises call s =
      rw (sync)
        (after-Raises (call s) (λ _. attempt (raise (type_error not_awaitable))) (λ x w. tt))

  pub download-Raises : (uri path : String) (c : Cloud S T) → Raises (download a o uri path c).1
  unfolding download save ◌>>◌
  download-Raises uri path c =
      after-Raises (locate a o uri c) (λ (store, key). in_world a o (save a o store key path))
        (λ (store, key) d.
          then-Raises (awaited a o (o.get store key) d.world)
            (λ object. o.create path >> (λ _. write_chunks a o path object.stream))
            (awaited-Raises (o.get store key) d.world))

  delete-Raises : (uri : String) (c : Cloud S T) → Raises (delete a o uri c).1
  unfolding delete ◌>>◌
  delete-Raises uri c =
      after-Raises (locate a o uri c)
        (λ (store, key). in_world a o (awaited a o (o.delete store key)))
        (λ (store, key) d. awaited-Raises (o.delete store key) d.world)

  delete_dir-Raises : (uri : String) (c : Cloud S T) → Raises (delete_dir a o uri c).1
  unfolding delete_dir ◌>>◌
  delete_dir-Raises uri c =
      after-Raises (locate a o uri c)
        (λ (store, key).
          in_world a o (awaited a o (o.list store (folder_prefix a o key)) >> delete_all a o store))
        (λ (store, key) d.
          then-Raises (awaited a o (o.list store (folder_prefix a o key)) d.world)
            (delete_all a o store) (awaited-Raises (o.list store (folder_prefix a o key)) d.world))

  pub get_metadata-GivesNone : (uri : String) (c : Cloud S T) → GivesNone (get_metadata a o uri c).1
  unfolding get_metadata read_metadata ◌>>◌
  get_metadata-GivesNone uri c =
      after-GivesNone (locate a o uri c) (λ (store, key). read_metadata a o store key)
        (λ (store, key) d.
          or_none-GivesNone
            (then_do (λ object. give (metadata_of_object a o object))
              (in_world a o (awaited a o (o.get store key)) d))
            (then-Raises (in_world a o (awaited a o (o.get store key)) d)
              (λ object. give (metadata_of_object a o object))
              (awaited-Raises (o.get store key) d.world)))

  -- Where what obstore's get, delete and collect give cannot be awaited, as with the synchronous
  -- functions of obstore 0.11 that the module imports, no download, deletion or deletion of a
  -- folder succeeds, for any address and in any state of the provider: each raises. The metadata
  -- of an object are never found.
  pub nothing_is_moved :
      (uri path : String) (c : Cloud S T)
      → Raises (download a o uri path c).1
        × Raises (delete a o uri c).1
        × Raises (delete_dir a o uri c).1
        × GivesNone (get_metadata a o uri c).1
  nothing_is_moved uri path c = (
    download-Raises uri path c,
    delete-Raises uri c,
    delete_dir-Raises uri c,
    get_metadata-GivesNone uri c,
  )
