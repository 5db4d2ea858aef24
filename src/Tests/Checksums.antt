-- ===== src/Tests/Checksums.antt =====
-- The checksums of bzcchtable.c on short strings.
use Prim.Native.Nat.{◌*◌, ◌%◌, ◌^◌}
use bzcc_scanner.Base.{◌≡◌, refl, map, arith, [], ◌∷◌}
use bzcc_scanner.Crc.{table_at, calc_crc32, calc_crc32a}
use bzcc_scanner.Crc.Laws.{rounds, table_at-rounds, calc_crc32-calc_crc32a}

table_at-rounds_example : table_at 200 ≡ rounds 8 (200 * 2 ^ 24)
table_at-rounds_example = table_at-rounds 200 (omega arith)

calc_crc32-calc_crc32a_example :
    calc_crc32 (0x416 ∷ 0x43F ∷ []) ≡ calc_crc32a (map (λ c. c % 256) (0x416 ∷ 0x43F ∷ []))
calc_crc32-calc_crc32a_example = calc_crc32-calc_crc32a (0x416 ∷ 0x43F ∷ []) (refl, (refl, tt))
