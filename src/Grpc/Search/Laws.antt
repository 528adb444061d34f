-- ===== src/Grpc/Search/Laws.antt =====
-- Which files a client is told of (`search_task` of src/app/grpc/server.rs).
use rust_dfs.Base.{ℕ, ◌≡◌, refl, sym, ap, ◌∙◌, Bool, true, false, ◌⊎◌, List, [], ◌∷◌, map, arith}
use rust_dfs.Base.{not, ◌&&◌, ◌||◌, ◌==◌, Result}
use rust_dfs.Base.Text.{Text}
use rust_dfs.Base.Sets.{contains}
use rust_dfs.Domain.{FileFound}
use rust_dfs.Store.Interface.{StoreError}
use rust_dfs.Grpc.Search.{
  Cache, SearchEvent, message, closed, tick, SearchTask, new_task, or_false, on_message, on_tick,
  search_task,
}

-- Nothing is in the cache but what was put there.
pub record IsSound (c : Cache) : Type 0 where
  pub contains-new : (k : ℕ) → c.contains_key k c.new ≡ false
  pub contains-insert :
      (j k : ℕ) (s : c.State)
      → c.contains_key k (c.insert j s) ≡ true
      → (k ≡ j) ⊎ (c.contains_key k s ≡ true)
  pub contains-later :
      (k : ℕ) (s : c.State) → c.contains_key k (c.later s) ≡ true → c.contains_key k s ≡ true

-- Does a message with this file come before the channel ends, of a file that the store does not
-- know as published, and while the client listens?
unfoldable pub offers : Cache → ℕ → List SearchEvent → Bool
offers c id [] = false
offers c id (closed ∷ events) = false
offers c id (tick gone taken ∷ events) = offers c id events
offers c id (message f published client_takes taken ∷ events) =
    let rest = offers c id events in
    (f.file_id == id && (not (or_false c published) && client_takes)) || rest

module _ (c : Cache) (L : IsSound c) where
  abbrev pub ids : SearchTask c → List ℕ
  ids t = map (λ f. f.file_id) t.to_client

  -- What is in the cache has been reported.
  abbrev Cached : SearchTask c → Type 0
  Cached t = (k : ℕ) → c.contains_key k t.cache ≡ true → contains (ids t) k ≡ true

  later-Cached : (t : SearchTask c) → Cached t → Cached (record t { cache = c.later t.cache })
  later-Cached t inv k h = inv k (L.contains-later k t.cache h)

  message-Cached :
      (v : Text) (f : FileFound) (p : Result StoreError Bool) (takes taken : Bool)
      (t : SearchTask c)
      → Cached t
      → Cached (on_message c v f p takes taken t)
  unfolding on_message contains
  message-Cached v f p takes taken t inv k h =
      ground (arith, inv k, L.contains-insert f.file_id k t.cache)

  message-reports :
      (v : Text) (f : FileFound) (p : Result StoreError Bool) (takes taken : Bool)
      (t : SearchTask c) (id : ℕ)
      → Cached t
      → contains (ids (on_message c v f p takes taken t)) id
        ≡ (contains (ids t) id || (f.file_id == id && (not (or_false c p) && takes)))
  unfolding on_message contains
  message-reports v f p takes taken t id inv = ground (arith, inv f.file_id)

  tick-Cached :
      (v : Text) (gone taken : Bool) (t : SearchTask c)
      → Cached t
      → Cached (on_tick c v gone taken t)
  unfolding on_tick
  tick-Cached v false taken t inv = inv
  tick-Cached v true false t inv = inv
  tick-Cached v true true t inv = inv

  ids-tick :
      (v : Text) (gone taken : Bool) (t : SearchTask c) → ids (on_tick c v gone taken t) ≡ ids t
  unfolding on_tick
  ids-tick v false taken t = refl
  ids-tick v true false t = refl
  ids-tick v true true t = refl

  reports :
      (v : Text) (events : List SearchEvent) (t : SearchTask c) (id : ℕ)
      → Cached t
      → contains (ids (search_task c v events t)) id ≡ (contains (ids t) id || offers c id events)
  unfolding search_task offers
  reports v [] t id inv = ground arith
  reports v (closed ∷ events) t id inv = ground arith
  reports v (tick gone taken ∷ events) t id inv =
      let t' : SearchTask c = record t { cache = c.later t.cache } in
      let inv' : Cached t' = later-Cached t inv in
      reports v events (on_tick c v gone taken t') id (tick-Cached v gone taken t' inv')
      ∙ ap (λ xs. contains xs id || offers c id events) (ids-tick v gone taken t')
  reports v (message f p takes taken ∷ events) t id inv =
      let t' : SearchTask c = record t { cache = c.later t.cache } in
      let inv' : Cached t' = later-Cached t inv in
      let ih =
        reports v events (on_message c v f p takes taken t') id
          (message-Cached v f p takes taken t' inv') in
      ground (arith, ih, message-reports v f p takes taken t' id inv')

  -- A client is told of a file exactly if a message with that file comes before the channel ends,
  -- while the client listens, and the store does not answer that the file is published here. The
  -- cache, which may forget at any time, holds nothing that was not put there.
  pub search_task-offers :
      (v : Text) (events : List SearchEvent) (id : ℕ)
      → contains (ids (search_task c v events (new_task c))) id ≡ offers c id events
  unfolding new_task contains
  search_task-offers v events id =
      reports v events (new_task c) id (λ k h. cc (sym (L.contains-new k) ∙ h))
