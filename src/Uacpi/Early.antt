-- ===== src/Uacpi/Early.antt =====
-- What the library needs for early access to the tables.
use flurry.Prelude.{ℕ, ◌^◌, ◌<◌, ◌≡◌, refl, arith}
use flurry.Prelude.Words.{sub64}
use flurry.Uacpi.{acpi_init, status_ok, uacpi_kernel_get_rsdp, uacpi_kernel_map}

-- After `acpi_init` the library is given the address that the boot loader found, and every 64-bit address
-- that it maps is read back from the mapped one by the offset.
pub acpi_init-map :
    (rsdp offset addr len : ℕ)
    → offset < 2 ^ 64
    → addr < 2 ^ 64
    → (uacpi_kernel_get_rsdp (acpi_init rsdp offset) ≡ (status_ok, rsdp))
      × (sub64 (uacpi_kernel_map (acpi_init rsdp offset) addr len) offset ≡ addr)
unfolding acpi_init uacpi_kernel_get_rsdp uacpi_kernel_map
acpi_init-map rsdp offset addr len small fits = (refl, omega arith)
