-- ===== src/Tests/Storage.antt =====
-- A storage that keeps a list of the bytes that it was given, and its promises.
use media_service_m.Prelude.{
  ℕ, Bool, true, false, not, ◌&&◌, Option, none, some, List, [], ◌∷◌, ◌==◌, ◌≡◌, refl, arith,
  if◌then◌else◌, filter, length, any, Text, text_eq, text_eq_refl, text_eq_iff, ==-refl, codes, map,
}
use media_service_m.Model.Store.{ObjectStat, ObjectStorage, World}
use media_service_m.Objects.Bytes.{IsStorage}
use media_service_m.Maintenance.Reconcile.Sweeps.{IsEraser}
use media_service_m.Tests.Data.{rows}

pub record Blob : Type 0 where
  pub bucket : ℕ
  pub key : Text
  pub bytes : Text

abbrev pub Blobs : Type 0
Blobs = List Blob

abbrev is_at : ℕ → Text → Blob → Bool
is_at bucket key b = b.bucket == bucket && text_eq b.key key

abbrev pub holds : Blobs → ℕ → Text → Bool
holds s bucket key = any (is_at bucket key) s

abbrev find_bytes : Blobs → ℕ → Text → Option Text
find_bytes [] bucket key = none
find_bytes (b ∷ s) bucket key =
    let rest = find_bytes s bucket key in if is_at bucket key b then some b.bytes else rest

abbrev stat_of : Option Text → Option ObjectStat
stat_of none = none
stat_of (some bytes) = some (record { size = length bytes; etag = none })

abbrev one_chunk : Option Text → Option (List Text)
one_chunk none = none
one_chunk (some bytes) = some (bytes ∷ [])

abbrev copied : Option Text → ℕ → Text → Blobs → Bool × Blobs
copied none bucket key s = (false, s)
copied (some bytes) bucket key s = (true, record { bucket = bucket; key = key; bytes = bytes } ∷ s)

-- An upload takes the place of what the key had.
abbrev put_bytes : ℕ → Text → Option Text → Blobs → Bool × Blobs
put_bytes bucket key none s = (false, s)
put_bytes bucket key (some bytes) s =
    (true, record { bucket = bucket; key = key; bytes = bytes } ∷ s)

abbrev is_elsewhere : ℕ → Text → Blob → Bool
is_elsewhere bucket key b = not (is_at bucket key b)

abbrev key_of : Blob → Text
key_of b = b.key

abbrev is_in : ℕ → Blob → Bool
is_in bucket b = b.bucket == bucket

abbrev pub blobs_storage : ObjectStorage Blobs
blobs_storage = record {
  stat_object = λ s bucket key. stat_of (find_bytes s bucket key);
  get_object_head = λ s bucket key. find_bytes s bucket key;
  stream_object = λ s bucket key chunk. one_chunk (find_bytes s bucket key);
  list_object_keys = λ s bucket. map key_of (filter (is_in bucket) s);
  set_object_content_type = λ bucket key mime s. (true, s);
  put_object_stream = λ bucket key bytes size mime s. put_bytes bucket key bytes s;
  copy_object = λ bucket key to to_key s. copied (find_bytes s bucket key) to to_key s;
  remove_object = λ bucket key s. (true, filter (is_elsewhere bucket key) s);
  presigned_get_object = λ bucket key seconds disposition. some key;
  presigned_post_object = λ bucket key mime size seconds. some (key, []);
}

holds-filter :
    (bucket other : ℕ) (key key' : Text) (s : Blobs)
    → (bucket == other) ≡ false
    → holds s other key' ≡ true
    → holds (filter (is_elsewhere bucket key) s) other key' ≡ true
holds-filter bucket other key key' [] apart h = h
holds-filter bucket other key key' (b ∷ s) apart h =
    ground (arith, holds-filter bucket other key key' s)

pub blobs_storage-IsStorage : IsStorage blobs_storage holds
blobs_storage-IsStorage = record {
  copied = λ b k b' k' s there done. ground (arith, ==-refl b', text_eq_refl k');
  copy_keeps = λ b k b' k' s other key there. ground arith;
  removal_elsewhere = λ b k s other key apart there. holds-filter b other k key s apart there;
}

holds-erased :
    (b : ℕ) (k : Text) (s : Blobs) (other : ℕ) (key : Text)
    → (b == other && text_eq k key) ≡ false
    → holds (filter (is_elsewhere b k) s) other key ≡ holds s other key
holds-erased b k [] other key apart = refl
holds-erased b k (x ∷ s) other key apart = ground (
  arith,
  holds-erased b k s other key apart,
  text_eq_iff x.key k,
  text_eq_iff x.key key,
  text_eq_iff k key,
)

holds-removed : (b : ℕ) (k : Text) (s : Blobs) → holds (filter (is_elsewhere b k) s) b k ≡ false
holds-removed b k [] = refl
holds-removed b k (x ∷ s) = ground (arith, holds-removed b k s)

holds-not_added :
    (b : ℕ) (k : Text) (s : Blobs) (other : ℕ) (key : Text)
    → holds s other key ≡ false
    → holds (filter (is_elsewhere b k) s) other key ≡ false
holds-not_added b k [] other key h = h
holds-not_added b k (x ∷ s) other key h = ground (arith, holds-not_added b k s other key)

pub blobs_storage-IsEraser : IsEraser blobs_storage holds
blobs_storage-IsEraser = record {
  keeps = holds-erased;
  removes = λ b k s returned. holds-removed b k s;
  adds_nothing = holds-not_added;
}

abbrev pub world : World Blobs
world = record {
  db = rows;
  store =
      record { bucket = 20; key = codes "k7"; bytes = codes "abcd" }
      ∷ record { bucket = 20; key = codes "k9"; bytes = codes "hello" }
      ∷ [];
}
