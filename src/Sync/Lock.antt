-- ===== src/Sync/Lock.antt =====
-- `hashtextSyncResource` of internal/sync/sync.go: the key of the advisory lock.
use Prim.Native.Nat.{bit_xor}
use gateway_login.Base.{
  ℕ, ◌*◌, ◌%◌, ◌^◌, ◌<◌, ◌≡◌, refl, [], ◌∷◌, Text, codes, ℤ, pos, IsInt64, arith,
}

-- One byte: `h ^= uint32(c); h *= 16777619`.
unfoldable pub fold : ℕ → Text → ℕ
fold h [] = h
fold h (c ∷ s) = fold (bit_xor h c * 16777619 % 2 ^ 32) s

unfoldable pub hashtext_sync_resource : Text → ℕ
hashtext_sync_resource resource = fold 2166136261 resource

-- int64(hashtextSyncResource(s.resource))
unfoldable pub lock_key : Text → ℤ
lock_key resource = pos (hashtext_sync_resource resource)

fold_bounded : (s : Text) (h : ℕ) → h < 2 ^ 32 → fold h s < 2 ^ 32
unfolding fold
fold_bounded [] h small = small
fold_bounded (c ∷ s) h small = fold_bounded s (bit_xor h c * 16777619 % 2 ^ 32) (omega arith)

-- The key is not negative, and has 32 bits.
pub hashtext_bounded : (resource : Text) → hashtext_sync_resource resource < 2 ^ 32
unfolding hashtext_sync_resource
hashtext_bounded resource = fold_bounded resource 2166136261 (omega arith)

pub lock_key-IsInt64 : (resource : Text) → IsInt64 (lock_key resource)
unfolding lock_key
lock_key-IsInt64 resource = omega (arith, hashtext_bounded resource)

-- FNV-1a of "karyawan".
key_of_karyawan : hashtext_sync_resource (codes "karyawan") ≡ 3742494747
unfolding hashtext_sync_resource fold
key_of_karyawan = refl
