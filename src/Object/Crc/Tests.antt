-- ===== src/Object/Crc/Tests.antt =====
-- The checksums of "a", "bc" and "abc".
use Prim.Native.Nat.{bit_xor}
use kavo.Base.{◌*◌, ◌≡◌, refl, arith}
use kavo.Object.Crc.{
  append_bit, combine_crc, combine_crc32, combine_from, gf2_times, gf2_square, shifted_rows,
}
use kavo.Object.Crc.Combine.{append_zeros, combine_crc_lem}

combine_run : combine_crc32 3904355907 3265866552 2 ≡ 891568578
unfolding combine_crc combine_from gf2_times gf2_square append_bit shifted_rows
combine_run = refl

combine_crc_lem_example :
    combine_crc 3988292384 32 3904355907 3265866552 2
    ≡ bit_xor (append_zeros (append_bit 3988292384 32) (8 * 2) 3904355907) 3265866552
combine_crc_lem_example =
    combine_crc_lem 3988292384 32 3904355907 3265866552 2 (omega arith) (omega arith)
