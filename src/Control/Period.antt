-- ===== src/Control/Period.antt =====
-- The period of auto scan, as the preferences dialog sets it.
use bzcc_scanner.Base.{◌^◌, ◌<◌, arith}
use bzcc_scanner.Base.Int.{ℤ, pos, negsuc, to_dword}
use bzcc_scanner.Control.Window.{Window}

pub to_dword_bound : (z : ℤ) → to_dword z < 2 ^ 32
to_dword_bound (pos n) = omega arith
to_dword_bound (negsuc n) = omega arith
