-- ===== src/Offload/Cache.antt =====
-- s3.py: which file an object with an ETag is taken from.
use avtomatika_worker.Base.{String, ◌≡◌, refl, true, false, some, ◌==◌, string_eq}
use avtomatika_worker.Task.Call.{ok}
use avtomatika_worker.Offload.{
  Io, Settings, Files, Called, ◌>>◌, outside, link_to, download_to_cache, download_file_cached,
}

module _ {S : Type 0} (st : Settings) (f : Files S) where
  -- The same world with another download.
  abbrev pub with_download : (String → String → S → S × Called) → Files S
  with_download d = record f { download = d }

  -- Where the cache has a file under the object's ETag, however it came there, the call links it
  -- and ends the same whatever a download would do, provided that the cache folder can be made.
  pub cached_file_is_trusted :
      (d : String → String → S → S × Called) (uri local_path etag : String) (io : Io S) (s t : S)
      → f.get_metadata uri io.world ≡ (s, ok (some etag))
      → (etag == "") ≡ false
      → f.makedirs st.worker_blob_cache_dir s ≡ (t, ok tt)
      → f.exists (f.join st.worker_blob_cache_dir etag) t ≡ true
      → download_file_cached st (with_download d) uri local_path io
        ≡ download_file_cached st f uri local_path io
  unfolding download_file_cached download_to_cache link_to ◌>>◌ outside
  cached_file_is_trusted d uri local_path etag io s t found named made there =
      rw (found, named, made, there) refl
