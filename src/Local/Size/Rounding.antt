-- ===== src/Local/Size/Rounding.antt =====
-- internal/driver/local/params.go: `roundUpToBlock` answers the least multiple of the block.
use nomad_csi_driver.Base.{ℕ, ◌+◌, ◌-◌, ◌*◌, ◌/◌}

-- The least multiple of `b` that is `r` at least.
abbrev pub rounded : ℕ → ℕ → ℕ
rounded r b = (r + b - 1) / b * b
