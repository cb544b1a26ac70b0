-- ===== src/LogStream/Tests.antt =====
-- base/LogStream.cpp on concrete values.
use cannet.Common.{◌^◌, ◌-◌, ◌≡◌, refl, some, arith, negsuc, replicate, Returns}
use cannet.FixedBuffer.{FixedBuffer}
use cannet.FixedBuffer.Laws.{IsValid}
use cannet.LogStream.{convert, convert_hex, codes}
use cannet.LogStream.Numbers.{IsDecimal, convert-IsDecimal}

convert_least : convert (negsuc (2 ^ 63 - 1)) ≡ some (codes "-9223372036854775808")
unfolding convert
convert_least = refl

convert_hex-some : convert_hex 48879 ≡ some (codes "BEEF")
unfolding convert_hex
convert_hex-some = refl

abbrev line : FixedBuffer
line = record { store = replicate 100 0; cur = 4 }

line-IsValid : IsValid line
line-IsValid = omega arith

convert-IsDecimal_example : Returns (convert (negsuc 41)) (IsDecimal (negsuc 41))
convert-IsDecimal_example = convert-IsDecimal (negsuc 41) (omega arith)
