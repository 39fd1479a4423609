-- ===== src/Compress.antt =====
-- src/compress/compress.c: the names of the compression methods, and the guards around zlib.
--
-- zlib is the parameter `Zlib`; `enabled` is the build option ZLIB_ENABLE. Byte sequences are
-- lists, so the pointer arguments are never NULL. Allocations succeed. A
-- source is shorter than 2 ^ 31 bytes, so that its length is an int.
pub mod Laws
use mbus.Base.{
  ℕ, ◌≡◌, Bool, true, false, not, ◌&&◌, Option, none, some, List, length, String, str_eq, ltb, ◌==◌,
  if◌then◌else◌,
}
use mbus.Base.Int.{ℤ, pos, negsuc, is_le_zero}

pub data Compression : Type 0 where
  method_none : Compression
  method_zlib : Compression

-- compress2 on a source, with a destination of compressBound bytes; uncompress into a destination
-- of a given capacity. `none` is every return code but Z_OK.
pub record Zlib : Type 0 where
  pub enabled : Bool
  pub compress2 : List ℕ → Option (List ℕ)
  pub uncompress : ℕ → List ℕ → Option (List ℕ)

zlib_compress_data : Zlib → List ℕ → Option (List ℕ)
zlib_compress_data z src = if length src == 0 then none else z.compress2 src

-- The lengths are C ints; `fits` is the source as long as `srclen` says.
uncompress_into : Zlib → ℤ → List ℕ → Option (List ℕ)
uncompress_into z (pos capacity) src = z.uncompress capacity src
uncompress_into z (negsuc n) src = none

zlib_uncompress_data : Zlib → ℤ → ℤ → List ℕ → Option (List ℕ)
unfolding uncompress_into
zlib_uncompress_data z dstlen srclen src =
    if is_le_zero dstlen
    then none
    else if is_le_zero srclen
    then none
    else uncompress_into z dstlen src

unfoldable pub compress_data : Zlib → Compression → List ℕ → Option (List ℕ)
unfolding zlib_compress_data
compress_data z method_none src = none
compress_data z method_zlib src = if z.enabled then zlib_compress_data z src else none

unfoldable pub uncompress_data : Zlib → Compression → ℤ → ℤ → List ℕ → Option (List ℕ)
unfolding zlib_uncompress_data
uncompress_data z method_none dstlen srclen src = none
uncompress_data z method_zlib dstlen srclen src =
    if z.enabled then zlib_uncompress_data z dstlen srclen src else none

unfoldable pub method_string : Zlib → Compression → String
method_string z method_none = "none"
method_string z method_zlib = if z.enabled then "zlib" else "none"

unfoldable pub method_value : Zlib → Option String → Compression
method_value z none = method_none
method_value z (some s) =
    if str_eq s "none"
    then method_none
    else if z.enabled && str_eq s "zlib"
    then method_zlib
    else method_none
