-- ===== src/Tests/Files.antt =====
-- A file system in memory: every path may hold a file, every directory exists, nothing fails.
use mathlib.Core.Logic.{ite}
use native.Mathlib.Decide.{ℕ_discrete}
use rust_dfs.Base.{
  ℕ, ◌≡◌, ◌≢◌, ◌⊎◌, inl, inr, refl, ap, subst, ◌∙◌, ◌≤◌, true, false, Option, none, some,
}
use rust_dfs.Base.{[], ◌∷◌, ◌++◌, arith, take, drop, take-append-drop, length, length-take}
use rust_dfs.Base.{Result, ok, err, Option-cases}
use rust_dfs.Base.Text.{Bytes, Text, text}
use rust_dfs.Base.Paths.{PathBuf}
use rust_dfs.Processing.Fs.{Fs, FileKind, file, IsReliable}
use rust_dfs.Processing.Fs

unfoldable pub PathBuf-discrete : Discrete PathBuf
PathBuf-discrete = hlevel ℕ_discrete

abbrev pub Disk : Type 0
Disk = PathBuf → Option Bytes

abbrev pub update : Disk → PathBuf → Option Bytes → Disk
update s p b q = ite (PathBuf-discrete q p) b (s q)

abbrev pub contents : Option Bytes → Result Text Bytes
contents none = err (text "No such file")
contents (some b) = ok b

abbrev pub memory_fs : Fs
memory_fs = record {
  State = Disk;
  metadata = λ p s. elim (s p) [ none ↦ err (text "No such file") | some b ↦ ok file ];
  try_exists = λ p s. elim (s p) [ none ↦ ok false | some b ↦ ok true ];
  create_dir_all = λ p s. (ok tt, s);
  read = λ p s. contents (s p);
  write = λ p b s. (ok tt, update s p (some b));
  rename = λ p q s. (ok tt, update (update s p none) q (s p));
  Writer = PathBuf × Bytes;
  create = λ p s. (ok (p, []), update s p (some []));
  write_all = λ w b s. (ok (w.0, w.1 ++ b), s);
  flush = λ w s. (ok tt, update s w.0 (some w.1));
  Reader = Bytes;
  open_file = λ p s. contents (s p);
  read_some = λ r n. ok (take n r, drop n r);
}

pub update_self : (s : Disk) (p : PathBuf) (b : Option Bytes) → update s p b p ≡ b
update_self s p b = ground arith

pub update_ne : (s : Disk) (p q : PathBuf) (b : Option Bytes) → q ≢ p → update s p b q ≡ s q
update_ne s p q b ne = ground arith

pub take_nothing : (n : ℕ) (r : Bytes) → take n r ≡ [] → (n ≡ 0) ⊎ (r ≡ [])
take_nothing ℕ.zero r e = inl refl
take_nothing (ℕ.suc n) [] e = inr refl
take_nothing (ℕ.suc n) (b ∷ r) e = cc

pub pair_eq :
    (p : PathBuf) (b : Bytes) (q : PathBuf) (c : Bytes)
    → ◌≡◌ {A = Result Text (PathBuf × Bytes)} (ok (p, b)) (ok (q, c))
    → (q ≡ p) × (c ≡ b)
pair_eq p b q c e = ground arith

pub pieces_eq :
    (a b c d : Bytes)
    → ◌≡◌ {A = Result Text (Bytes × Bytes)} (ok (a, b)) (ok (c, d))
    → (a ≡ c) × (b ≡ d)
pieces_eq a b c d e = ground arith

pub piece_read :
    (r : Bytes) (n : ℕ) (b r' : Bytes)
    → ◌≡◌ {A = Result Text (Bytes × Bytes)} (ok (take n r, drop n r)) (ok (b, r'))
    → (b ++ r' ≡ r) × (length b ≤ n) × (b ≡ [] → (n ≡ 0) ⊎ (r ≡ []))
piece_read r n b r' e =
    let (piece, left) = pieces_eq (take n r) (drop n r) b r' e in
    (
      subst (λ x. x ++ r' ≡ r) piece (subst (λ x. take n r ++ x ≡ r) left (take-append-drop n r)),
      subst (λ x. length x ≤ n) piece (omega (arith, length-take n r)),
      λ nothing. take_nothing n r (piece ∙ nothing),
    )

pub found :
    (p : PathBuf) (s : Disk) {b : Bytes}
    → contents (s p) ≡ ok b
    → memory_fs.try_exists p s ≡ ok true
found p s e = elim (Option-cases (s p)) [
  | inl nothing ↦ absurd (ground (arith, nothing))
  | inr (b', there) ↦ ground (arith, there)
]

abbrev pub memory_fs-IsLawful : Fs.IsLawful memory_fs
memory_fs-IsLawful = record {
  read-write = λ p b s h. ap contents (update_self s p (some b));
  read-write_ne = λ p b q s ne. ap contents (update_ne s p q (some b) ne);
  read-create_dir_all = λ p q s h. h;
  exists_of_read = found;
  read-rename = λ p q s h. ap contents (update_self (update s p none) q (s p));
  target = λ w. w.0;
  written = λ w. w.1;
  create_new = λ p s {w} h. pair_eq p [] w.0 w.1 h;
  read-create_ne = λ p q s ne. ap contents (update_ne s p q (some []) ne);
  write_all_appends = λ w b s {w'} h. pair_eq w.0 (w.1 ++ b) w'.0 w'.1 h;
  read-write_all_ne = λ w b q s ne. refl;
  read-flush = λ w s h. ap contents (update_self s w.0 (some w.1));
  read-flush_ne = λ w q s ne. ap contents (update_ne s w.0 q (some w.1) ne);
  rest = λ r. r;
  rest_of_open = λ p s h. h;
  read_some_next = λ r n {b} {r'} h. piece_read r n b r' h;
}

pub memory_fs-IsReliable : IsReliable memory_fs
memory_fs-IsReliable = record {
  write_ok = λ p b s. refl;
  create_dir_all_ok = λ p s. refl;
  rename_ok = λ p q s. refl;
  create_ok = λ p s. ((p, []), refl);
  write_all_ok = λ w b s. ((w.0, w.1 ++ b), refl);
  flush_ok = λ w s. refl;
  read_some_ok = λ r n. (take n r, drop n r, refl);
}
