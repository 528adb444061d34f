-- ===== src/Tests/Database.antt =====
-- A database in memory, the newest entry first, and encodings that know one record each.
use mathlib.Core.Logic.{ite}
use rust_dfs.Base.{◌≡◌, inl, inr, refl, sym, ap, ap₂, ◌∙◌, Bool, true, false, Option, none, some}
use rust_dfs.Base.{
  ℕ, suc, get_elem?, List, [], ◌∷◌, arith, Result, ok, err, if◌then◌else◌, text_eq, text_eq_iff,
  text_eq_refl, Bool-cases,
}
use rust_dfs.Base.Text.{Bytes, Text, text}
use rust_dfs.Store.Codec.{Cbor, ReadsBack}
use rust_dfs.Store.Db.{Db, Other}
use rust_dfs.Store.Db

abbrev pub Table : Type 0
Table = List (Text × (Bytes × Bytes))

abbrev pub same : Text → Bytes → Text → Bytes → Bool
same cf k cf' k' = if text_eq cf' cf then text_eq k' k else false

abbrev pub find : Text → Bytes → Table → Option Bytes
find cf k [] = none
find cf k ((cf', (k', v)) ∷ s) = let rest = find cf k s in if same cf k cf' k' then some v else rest

abbrev pub remove : Text → Bytes → Table → Table
remove cf k [] = []
remove cf k ((cf', (k', v)) ∷ s) =
    let rest = remove cf k s in if same cf k cf' k' then rest else (cf', (k', v)) ∷ rest

abbrev pub entries : Text → Table → List (Result Text (Bytes × Bytes))
entries cf [] = []
entries cf ((cf', (k, v)) ∷ s) =
    let rest = entries cf s in if text_eq cf' cf then ok (k, v) ∷ rest else rest

abbrev pub memory_db : Db
memory_db = record {
  State = Table;
  open_cf_descriptors = λ p names. ok [];
  cf_handle = λ cf s. true;
  put_cf = λ cf k v s. (ok tt, (cf, (k, v)) ∷ s);
  delete_cf = λ cf k s. (ok tt, remove cf k s);
  get_cf = λ cf k s. ok (find cf k s);
  key_may_exist_cf = λ cf k s. true;
  iterator_cf = entries;
}

same_self : (cf : Text) (k : Bytes) → same cf k cf k ≡ true
same_self cf k = rw (text_eq_refl cf) (text_eq_refl k)

same_eq :
    (cf : Text) (k : Bytes) (cf' : Text) (k' : Bytes)
    → same cf k cf' k' ≡ true
    → (cf' ≡ cf) × (k' ≡ k)
same_eq cf k cf' k' e = elim (Bool-cases (text_eq cf' cf)) [
  | inl y ↦ ((text_eq_iff cf' cf).0 y, (text_eq_iff k' k).0 (ground (arith, y)))
  | inr n ↦ absurd (ground (arith, n))
]

same-Other :
    (cf : Text) (k : Bytes) (cf' : Text) (k' : Bytes) → Other cf k cf' k' → same cf' k' cf k ≡ false
same-Other cf k cf' k' other = elim (Bool-cases (same cf' k' cf k)) [
  | inr n ↦ n
  | inl y ↦
      let (a, b) = same_eq cf' k' cf k y in
      elim other [ inl ne ↦ absurd (ne a) | inr ne ↦ absurd (ne b) ]
]

find-remove : (cf : Text) (k : Bytes) (s : Table) → find cf k (remove cf k s) ≡ none
find-remove cf k [] = refl
find-remove cf k ((cf', (k', v)) ∷ s) = elim (Bool-cases (same cf k cf' k')) [
  | inl y ↦ ground (arith, y, find-remove cf k s)
  | inr n ↦ ground (arith, n, find-remove cf k s)
]

find-remove-Other :
    (cf : Text) (k : Bytes) (cf' : Text) (k' : Bytes) (s : Table)
    → Other cf k cf' k'
    → find cf' k' (remove cf k s) ≡ find cf' k' s
find-remove-Other cf k cf' k' [] other = refl
find-remove-Other cf k cf' k' ((cf₁, (k₁, v)) ∷ s) other = elim (Bool-cases (same cf k cf₁ k₁)) [
  | inr n ↦ ground (arith, n, find-remove-Other cf k cf' k' s other)
  | inl y ↦
      let (a, b) = same_eq cf k cf₁ k₁ y in
      let no : same cf' k' cf₁ k₁ ≡ false = ap₂ (same cf' k') a b ∙ same-Other cf k cf' k' other in
      ground (arith, y, no, find-remove-Other cf k cf' k' s other)
]

find-entries : (cf : Text) (k : Bytes) (s : Table) → entries cf s ≡ [] → find cf k s ≡ none
find-entries cf k [] e = refl
find-entries cf k ((cf', (k', v)) ∷ s) e = elim (Bool-cases (text_eq cf' cf)) [
  | inl y ↦ absurd (ground (arith, y))
  | inr n ↦ ground (arith, n, find-entries cf k s (ground (arith, n)))
]

find-at :
    (cf : Text) (k v : Bytes) (s : Table)
    → find cf k s ≡ some v
    → (j : ℕ) × (get_elem? (entries cf s) j ≡ some (ok (k, v)))
find-at cf k v [] e = cc
find-at cf k v ((cf', (k', v')) ∷ s) e = elim (Bool-cases (text_eq cf' cf)) [
  | inr n ↦ let (j, at) = find-at cf k v s (ground (arith, n)) in (j, rw n at)
  | inl y ↦ elim (Bool-cases (text_eq k' k)) [
    | inl z ↦ (0, rw y (first ((text_eq_iff k' k).0 z) (ground (arith, y, z))))
    | inr m ↦ let (j, at) = find-at cf k v s (ground (arith, y, m)) in (suc j, rw y at)
  ]
]
  where
    first :
        {j k v w : Bytes}
        → j ≡ k
        → v ≡ w
        → ◌≡◌ {A = Option (Result Text (Bytes × Bytes))} (some (ok (j, v))) (some (ok (k, w)))
    first e f = ap₂ (λ a b. some (ok (a, b))) e f

pub memory_db-IsLawful : Db.IsLawful memory_db
memory_db-IsLawful = record {
  handle-put = λ cf cf' k v s. refl;
  handle-delete = λ cf cf' k s. refl;
  get-put = λ cf k v s h. rw (same_self cf k) refl;
  get-put_other = λ cf k v cf' k' s other. rw (same-Other cf k cf' k' other) refl;
  get-delete = λ cf k s h. ap ok (find-remove cf k s);
  get-delete_other = λ cf k cf' k' s other. ap ok (find-remove-Other cf k cf' k' s other);
  may_exist = λ cf k v s h. refl;
  iterator_of_get = λ cf k v s sound h. find-at cf k v s (ground arith);
  iterator-nil = λ cf k s e. ap ok (find-entries cf k s e);
}

-- An encoding of a single record; all others are refused.
abbrev pub one_value : {A : Type 0} → Discrete A → A → Cbor A
one_value d sample = record {
  to_vec = λ a. ite (d a sample) (ok (1 ∷ [])) (err (text "unknown record"));
  from_slice = λ bytes. ok sample;
}

pub one_value-ReadsBack :
    {A : Type 0} (d : Discrete A) (sample : A) → ReadsBack (one_value d sample)
one_value-ReadsBack d sample = record {
  reads_back =
      λ a e. elim (d a sample) [ yes same ↦ ap ok (sym same) | no other ↦ absurd (ground arith) ];
}

-- Encodings of two records, of which that of the second is empty.
abbrev pub one_of : {A : Type 0} → A → A → Bytes → A
one_of first second [] = second
one_of first second (_ ∷ more) = first

abbrev pub two_values : {A : Type 0} → Discrete A → A → A → Cbor A
two_values d first second = record {
  to_vec =
      λ a. ite (d a first) (ok (1 ∷ [])) (ite (d a second) (ok []) (err (text "unknown record")));
  from_slice = λ bytes. ok (one_of first second bytes);
}

pub two_values-ReadsBack :
    {A : Type 0} (d : Discrete A) (first second : A) → ReadsBack (two_values d first second)
two_values-ReadsBack d first second = record {
  reads_back = λ a e. elim (d a first) [
    | yes same ↦ ground (arith, same)
    | no other ↦ elim (d a second) [
      | yes same ↦ ground (arith, same)
      | no neither ↦ absurd (ground arith)
    ]
  ];
}
