-- ===== src/Store/Rocksdb/Streams.antt =====
-- What the streams of `RocksDBStore` come to (src/app/file_store/rocksdb.rs).
use rust_dfs.Base.{◌≡◌, refl, ap, ◌∙◌, map_err, none, some, List, [], ◌∷◌, ℕ, map, get_elem?}
use mathlib.Core.Option.{some-injective}
use rust_dfs.Base.{inl, inr, Result-cases, Bool-cases, ok, arith}
use rust_dfs.Base.Text.{Bytes, Text}
use rust_dfs.Domain.Keys.{PublishedFileKey}
use rust_dfs.Store.Interface.{rocks_db, cbor}
use rust_dfs.Store.Db.{Db, Other, NeverFails}
use rust_dfs.Store.Db
use rust_dfs.Store.Rocksdb.{Persistable, get, stream_all, decode_item, decode_found}

get_elem?-map :
    {A B : Type 0} (f : A → B) (xs : List A) (j : ℕ) (a : A)
    → get_elem? xs j ≡ some a
    → get_elem? (map f xs) j ≡ some (f a)
get_elem?-map f [] j a e = cc
get_elem?-map f (x ∷ xs) ℕ.zero a e = ap some (ap f (some-injective x a e))
get_elem?-map f (x ∷ xs) (ℕ.suc j) a e = get_elem?-map f xs j a e

decoded_of :
    {R : Type 0} (db : Db) (p : Persistable R) (v : Bytes) (r : R)
    → decode_found db p (some v) ≡ ok (some r)
    → p.codec.from_slice v ≡ ok r
decoded_of db p v r h = elim (Result-cases (p.codec.from_slice v)) [
  | inr (_, bad) ↦ absurd (ground (arith, bad))
  | inl (q, good) ↦ ground (arith, good)
]

-- A stream that meets no error comes to every record that can be read.
pub stream_of_get :
    (db : Db) (L : Db.IsLawful db) {R : Type 0} (p : Persistable R) (k : PublishedFileKey)
    (cf : Text) (s : db.State) (r : R)
    → NeverFails (stream_all db p cf s)
    → get db p k cf s ≡ ok (some r)
    → (j : ℕ) × (get_elem? (stream_all db p cf s) j ≡ some (ok r))
unfolding get stream_all
stream_of_get db L p k cf s r sound h = elim (Bool-cases (db.cf_handle cf s)) [
  | inr closed ↦ absurd (ground (arith, closed))
  | inl open_cf ↦ elim (Result-cases (db.get_cf cf k.bytes s)) [
    | inr (_, bad) ↦ absurd (ground (arith, open_cf, bad))
    | inl (none, missing) ↦ absurd (ground (arith, open_cf, missing))
    | inl (some v, found) ↦
        let decoded : p.codec.from_slice v ≡ ok r =
          decoded_of db p v r (ground (arith, open_cf, found)) in
        let streamed : stream_all db p cf s ≡ map (decode_item db p) (db.iterator_cf cf s) =
          rw (open_cf, stream_all) refl in
        let items_sound : NeverFails (db.iterator_cf cf s) = λ j e at.
          sound j (rocks_db e) (ap (λ xs. get_elem? xs j) streamed ∙ get_elem?-map _ _ j _ at) in
        let (j, at) = L.iterator_of_get cf k.bytes v s items_sound found in
        (
          j,
          ap (λ xs. get_elem? xs j) streamed
              ∙ get_elem?-map (decode_item db p) _ j _ at
              ∙ ap (λ x. some (map_err cbor x)) decoded,
        )
  ]
]
