-- ===== src/Base/Paths.antt =====
-- `std::path::PathBuf`, up to its own equality, which compares components.
use Prim.Native.Nat.{ℕ}
use mathlib.Core.Path.{◌≡◌, refl, sym, ap, ◌∙◌}
use mathlib.Core.Logic.{◌≢◌}
use mathlib.Core.Bool.{Bool, true, false, ◌||◌, ◌&&◌, not}
use mathlib.Core.Option.{Option, none, some, some-injective}
use mathlib.Core.List.{List, [], ◌∷◌, ◌++◌}
use native.Mathlib.Omega.{arith}
use rust_dfs.Base.Tests.{◌==◌, if◌then◌else◌, text_eq, text_eq_iff}
use rust_dfs.Base.Lists.{All, length, length-append}
use rust_dfs.Base.Text.{Text}

pub record PathBuf : Type 0 where
  pub absolute : Bool
  pub components : List Text

abbrev slash : ℕ
slash = b'/'

abbrev pub dot : ℕ
dot = b'.'

onto_first : ℕ → List Text → List Text
onto_first c [] = (c ∷ []) ∷ []
onto_first c (w ∷ ws) = (c ∷ w) ∷ ws

split_slashes : Text → List Text
split_slashes [] = [] ∷ []
split_slashes (c ∷ cs) =
    let rest = split_slashes cs in if c == slash then [] ∷ rest else onto_first c rest

is_empty {ℓ} : {A : Type ℓ} → List A → Bool
is_empty [] = true
is_empty (x ∷ xs) = false

-- Empty components and `.` disappear.
named : List Text → List Text
named [] = []
named (w ∷ ws) =
    let rest = named ws in if is_empty w || text_eq w (dot ∷ []) then rest else w ∷ rest

starts_with_slash : Text → Bool
starts_with_slash [] = false
starts_with_slash (c ∷ cs) = c == slash

-- A leading `.` of a relative path is a component.
keep_current : List Text → List Text
unfolding named
keep_current [] = []
keep_current (w ∷ ws) = if text_eq w (dot ∷ []) then w ∷ named ws else named (w ∷ ws)

-- `PathBuf::from`
unfoldable pub path_of : Text → PathBuf
unfolding starts_with_slash keep_current split_slashes named onto_first is_empty
path_of t =
    if starts_with_slash t
    then record { absolute = true; components = named (split_slashes t) }
    else record { absolute = false; components = keep_current (split_slashes t) }

join_path : PathBuf → PathBuf → PathBuf
unfolding named is_empty
join_path p q =
    if q.absolute
    then q
    else if is_empty p.components && not p.absolute
    then q
    else record p { components = p.components ++ named q.components }

-- `join` with a text: an absolute one replaces the path.
unfoldable pub join : PathBuf → Text → PathBuf
unfolding join_path path_of
join p t = join_path p (path_of t)

drop_last {ℓ} : {A : Type ℓ} → List A → List A
drop_last [] = []
drop_last (x ∷ []) = []
drop_last (x ∷ y ∷ xs) = x ∷ drop_last (y ∷ xs)

last {ℓ} : {A : Type ℓ} → List A → Option A
last [] = none
last (x ∷ []) = some x
last (x ∷ y ∷ xs) = last (y ∷ xs)

-- `parent`: none for the root and for the empty path.
unfoldable pub parent : PathBuf → Option PathBuf
unfolding drop_last is_empty
parent p =
    if is_empty p.components then none else some (record p { components = drop_last p.components })

name_of : Option Text → Option Text
name_of none = none
name_of (some w) = if text_eq w (dot ∷ []) || text_eq w (dot ∷ dot ∷ []) then none else some w

-- `file_name`: none for a path that ends in `..`.
unfoldable pub file_name : PathBuf → Option Text
unfolding last name_of
file_name p = name_of (last p.components)

-- A name that is one component: not empty, not `.`, no slash in it.
pub record IsPlain (t : Text) : Type 0 where
  pub no_slash : All (λ c. c ≢ slash) t
  pub not_empty : t ≢ []
  pub not_dot : t ≢ dot ∷ []

split_slashes_of_plain : (t : Text) → All (λ c. c ≢ slash) t → split_slashes t ≡ t ∷ []
unfolding split_slashes onto_first
split_slashes_of_plain [] h = refl
split_slashes_of_plain (c ∷ cs) h = ground (arith, split_slashes_of_plain cs)

named_of_plain : (t : Text) → IsPlain t → named (t ∷ []) ≡ t ∷ []
unfolding named is_empty
named_of_plain [] h = absurd (h.not_empty refl)
named_of_plain (c ∷ cs) h = ground (arith, text_eq_iff (c ∷ cs) (dot ∷ []), h.not_dot)

path_of_plain :
    (t : Text) → IsPlain t → path_of t ≡ record { absolute = false; components = t ∷ [] }
unfolding starts_with_slash keep_current path_of
path_of_plain [] h = absurd (h.not_empty refl)
path_of_plain (c ∷ cs) h = ground (
  arith,
  text_eq_iff (c ∷ cs) (dot ∷ []),
  split_slashes_of_plain (c ∷ cs) h.no_slash,
  named_of_plain (c ∷ cs) h,
  h.not_dot,
  h.no_slash,
)

join_path_of_plain :
    (p : PathBuf) (t : Text)
    → IsPlain t
    → join_path p (record { absolute = false; components = t ∷ [] })
      ≡ record p { components = p.components ++ t ∷ [] }
unfolding join_path is_empty
join_path_of_plain p t h = ground (arith, named_of_plain t h)

-- A plain name adds itself as the last component.
pub join_of_plain :
    (p : PathBuf) (t : Text)
    → IsPlain t
    → join p t ≡ record p { components = p.components ++ t ∷ [] }
unfolding join
join_of_plain p t h = ap (join_path p) (path_of_plain t h) ∙ join_path_of_plain p t h

last-append : (ws : List Text) (t : Text) → last (ws ++ t ∷ []) ≡ some t
unfolding last
last-append [] t = refl
last-append (w ∷ []) t = refl
last-append (w ∷ v ∷ ws) t = last-append (v ∷ ws) t

drop_last-append : (ws : List Text) (t : Text) → drop_last (ws ++ t ∷ []) ≡ ws
unfolding drop_last
drop_last-append [] t = refl
drop_last-append (w ∷ []) t = refl
drop_last-append (w ∷ v ∷ ws) t = ap (λ us. w ∷ us) (drop_last-append (v ∷ ws) t)

is_empty-append : (ws : List Text) (t : Text) → is_empty (ws ++ t ∷ []) ≡ false
unfolding is_empty
is_empty-append [] t = refl
is_empty-append (w ∷ ws) t = refl

-- Different names in one directory are different paths.
pub join-injective :
    (p : PathBuf) (t u : Text) → IsPlain t → IsPlain u → join p t ≡ join p u → t ≡ u
join-injective p t u ht hu e =
    let e' : last (p.components ++ t ∷ []) ≡ last (p.components ++ u ∷ []) =
      ap (λ (q : PathBuf). last q.components)
        (sym (join_of_plain p t ht) ∙ e ∙ join_of_plain p u hu) in
    cc (e', last-append p.components t, last-append p.components u)

pub parent-join : (p : PathBuf) (t : Text) → IsPlain t → parent (join p t) ≡ some p
unfolding parent
parent-join p t h =
    rw (join_of_plain p t h, is_empty-append p.components t, drop_last-append p.components t)

join_ne : (p : PathBuf) (t : Text) → IsPlain t → join p t ≢ p
join_ne p t h e =
    let e' = ap (λ (q : PathBuf). length q.components) (sym (join_of_plain p t h) ∙ e) in
    omega (arith, e', length-append p.components (t ∷ []))

-- A file of a directory and a file of a directory below it are different paths.
pub join-join_ne :
    (p : PathBuf) (t u v : Text) → IsPlain t → IsPlain u → IsPlain v → join (join p t) u ≢ join p v
join-join_ne p t u v ht hu hv e =
    let e' = ap parent e in
    join_ne p t ht
      (some-injective _ _ (sym (parent-join (join p t) u hu) ∙ e' ∙ parent-join p v hv))
