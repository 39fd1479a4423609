-- ===== src/Compress/Laws.antt =====
-- The names of the compression methods.
use mbus.Base.{◌≡◌, refl, true, some}
use mbus.Compress.{Compression, method_none, method_zlib, Zlib, method_string, method_value}

-- A name is read back as the method that it was printed for, where the build has zlib.
pub value-string :
    (z : Zlib) (c : Compression) → z.enabled ≡ true → method_value z (some (method_string z c)) ≡ c
unfolding method_string method_value
value-string z method_none h = refl
value-string z method_zlib h = rw h
