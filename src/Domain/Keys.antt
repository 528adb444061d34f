-- ===== src/Domain/Keys.antt =====
-- `PublishedFileKey` and its conversions to and from `u64` (src/app/file_store/domain.rs).
pub mod Numbers
use mathlib.Core.List.{foldl, foldl-append, append-nil, append_assoc}
use native.Mathlib.Nat.{pow-suc}
use rust_dfs.Base.{ℕ, zero, suc, ◌+◌, ◌*◌, ◌/◌, ◌%◌, ◌^◌, ◌<◌, ◌≡◌, refl, sym, ◌∙◌, ap, ap₂, subst}
use rust_dfs.Base.{[], ◌∷◌, ◌++◌, arith, length, length-append, All, All-append}
use rust_dfs.Base.Text.{Bytes}

-- `[u8; 8]`
pub record PublishedFileKey : Type 0 where
  pub bytes : Bytes

-- `w` bytes of a number, the most significant first; what does not fit is cut off.
be_bytes : ℕ → ℕ → Bytes
be_bytes zero n = []
be_bytes (suc w) n = be_bytes w (n / 256) ++ (n % 256) ∷ []

abbrev push_byte : ℕ → ℕ → ℕ
push_byte acc b = acc * 256 + b

-- `u64::to_be_bytes`
unfoldable pub to_be_bytes : ℕ → Bytes
unfolding be_bytes
to_be_bytes = be_bytes 8

-- `u64::from_be_bytes`
unfoldable pub from_be_bytes : Bytes → ℕ
from_be_bytes = foldl push_byte 0

-- `From<u64> for PublishedFileKey`
unfoldable pub from_u64 : ℕ → PublishedFileKey
unfolding to_be_bytes
from_u64 n = record { bytes = to_be_bytes n }

-- `From<PublishedFileKey> for u64`
unfoldable pub to_u64 : PublishedFileKey → ℕ
unfolding from_be_bytes
to_u64 k = from_be_bytes k.bytes

-- Eight bytes.
pub record IsKey (k : PublishedFileKey) : Type 0 where
  pub eight : length k.bytes ≡ 8
  pub bytes : All (λ b. b < 256) k.bytes

from-append_byte : (bs : Bytes) (b : ℕ) → from_be_bytes (bs ++ b ∷ []) ≡ from_be_bytes bs * 256 + b
unfolding from_be_bytes
from-append_byte bs b = foldl-append push_byte 0 bs (b ∷ [])

from-be_bytes : (w n : ℕ) → n < 256 ^ w → from_be_bytes (be_bytes w n) ≡ n
unfolding be_bytes from_be_bytes
from-be_bytes zero n h = omega arith
from-be_bytes (suc w) n h =
    let h' : n < 256 ^ w * 256 = rw pow-suc at h in
    from-append_byte (be_bytes w (n / 256)) (n % 256)
    ∙ omega (arith, from-be_bytes w (n / 256) (omega arith))

-- `be_bytes` gives the bytes back that a number was read from.
abbrev GivesBack : Bytes → Type 0
GivesBack bs = be_bytes (length bs) (from_be_bytes bs) ≡ bs

GivesBack-append_byte : (bs : Bytes) (b : ℕ) → b < 256 → GivesBack bs → GivesBack (bs ++ b ∷ [])
unfolding be_bytes
GivesBack-append_byte bs b h back =
    let n : ℕ = from_be_bytes bs * 256 + b in
    let high : n / 256 ≡ from_be_bytes bs = omega arith in
    let low : n % 256 ≡ b = omega arith in
    rw (from-append_byte bs b) (
      ap₂ be_bytes (length_append_byte bs b) refl
      ∙ ap₂ (λ m c. be_bytes (length bs) m ++ c ∷ []) high low
      ∙ ap (λ cs. cs ++ b ∷ []) back)
  where
    length_append_byte : (bs : Bytes) (b : ℕ) → length (bs ++ b ∷ []) ≡ suc (length bs)
    length_append_byte bs b = omega (arith, length-append bs (b ∷ []))

GivesBack-append : (bs cs : Bytes) → All (λ b. b < 256) cs → GivesBack bs → GivesBack (bs ++ cs)
GivesBack-append bs [] h back = rw append-nil back
GivesBack-append bs (c ∷ cs) h back =
    subst GivesBack (append_assoc bs (c ∷ []) cs)
      (GivesBack-append (bs ++ c ∷ []) cs h.1 (GivesBack-append_byte bs c h.0 back))

-- A 64-bit file id survives the way to a key and back.
pub to_u64-from_u64 : (n : ℕ) → n < 2 ^ 64 → to_u64 (from_u64 n) ≡ n
unfolding to_u64 from_u64
to_u64-from_u64 n h = from-be_bytes 8 n h

-- A key of eight bytes survives the way to a file id and back.
pub from_u64-to_u64 : (k : PublishedFileKey) → IsKey k → from_u64 (to_u64 k) ≡ k
unfolding to_u64 from_u64
from_u64-to_u64 k h =
    let back : GivesBack k.bytes = GivesBack-append [] k.bytes h.bytes refl in
    ap (λ bs. record { bytes = bs }) (ap₂ be_bytes (sym h.eight) refl ∙ back)

be_bytes-length : (w n : ℕ) → length (be_bytes w n) ≡ w
unfolding be_bytes
be_bytes-length zero n = refl
be_bytes-length (suc w) n =
    omega
      (arith, length-append (be_bytes w (n / 256)) ((n % 256) ∷ []), be_bytes-length w (n / 256))

be_bytes-small : (w n : ℕ) → All (λ b. b < 256) (be_bytes w n)
unfolding be_bytes
be_bytes-small zero n = tt
be_bytes-small (suc w) n =
    All-append (λ b. b < 256) (be_bytes w (n / 256)) ((n % 256) ∷ []) (be_bytes-small w (n / 256))
      (omega arith, tt)

pub from_u64-IsKey : (n : ℕ) → IsKey (from_u64 n)
unfolding from_u64
from_u64-IsKey n = record { eight = be_bytes-length 8 n; bytes = be_bytes-small 8 n }
