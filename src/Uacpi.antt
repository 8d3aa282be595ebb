-- ===== src/Uacpi.antt =====
-- The services that the uACPI library asks of the kernel, kernel/acpi/uacpi_interface.c. All physical
-- memory is mapped at `hhdm_offset`; most services are not implemented, and a call of one stops the
-- machine by a failed assertion.
pub mod Early
use flurry.Prelude.{ℕ}
use flurry.Prelude.Words.{add64}
use flurry.Prelude.Outcome.{Outcome, ok, panic}

pub record Acpi : Type 0 where
  pub rsdp_address : ℕ
  pub hhdm_offset : ℕ

unfoldable pub acpi_init : ℕ → ℕ → Acpi
acpi_init rsdp offset = record { rsdp_address = rsdp; hhdm_offset = offset }

pub data UacpiStatus : Type 0 where
  status_ok : UacpiStatus
  status_unimplemented : UacpiStatus

unfoldable pub uacpi_kernel_get_rsdp : Acpi → UacpiStatus × ℕ
uacpi_kernel_get_rsdp s = (status_ok, s.rsdp_address)

unfoldable pub uacpi_kernel_map : Acpi → ℕ → ℕ → ℕ
uacpi_kernel_map s addr len = add64 addr s.hhdm_offset

-- Nothing is unmapped.
unfoldable pub uacpi_kernel_unmap : ℕ → ℕ → Acpi → Acpi
uacpi_kernel_unmap addr len s = s

-- The services for memory and devices, each named as its function behind `uacpi_kernel_`.
pub data DeviceService : Type 0 where
  free : DeviceService
  alloc : DeviceService
  pci_device_open : DeviceService
  pci_device_close : DeviceService
  pci_read : DeviceService
  pci_write : DeviceService
  pci_read8 : DeviceService
  pci_read16 : DeviceService
  pci_read32 : DeviceService
  pci_write8 : DeviceService
  pci_write16 : DeviceService
  pci_write32 : DeviceService
  io_map : DeviceService
  io_unmap : DeviceService
  io_read8 : DeviceService
  io_read16 : DeviceService
  io_read32 : DeviceService
  io_write8 : DeviceService
  io_write16 : DeviceService
  io_write32 : DeviceService

-- The services for time, events, locks and work.
pub data KernelService : Type 0 where
  get_nanoseconds_since_boot : KernelService
  stall : KernelService
  sleep : KernelService
  create_event : KernelService
  free_event : KernelService
  get_thread_id : KernelService
  create_mutex : KernelService
  free_mutex : KernelService
  acquire_mutex : KernelService
  release_mutex : KernelService
  wait_for_event : KernelService
  signal_event : KernelService
  reset_event : KernelService
  handle_firmware_request : KernelService
  install_interrupt_handler : KernelService
  uninstall_interrupt_handler : KernelService
  create_spinlock : KernelService
  free_spinlock : KernelService
  lock_spinlock : KernelService
  unlock_spinlock : KernelService
  schedule_work : KernelService
  wait_for_work_completion : KernelService

unfoldable pub call_device_service : DeviceService → Outcome UacpiStatus
call_device_service free = panic
call_device_service alloc = panic
call_device_service pci_device_open = ok status_unimplemented
call_device_service pci_device_close = panic
call_device_service pci_read = panic
call_device_service pci_write = panic
call_device_service pci_read8 = panic
call_device_service pci_read16 = panic
call_device_service pci_read32 = panic
call_device_service pci_write8 = panic
call_device_service pci_write16 = panic
call_device_service pci_write32 = panic
call_device_service io_map = panic
call_device_service io_unmap = panic
call_device_service io_read8 = panic
call_device_service io_read16 = panic
call_device_service io_read32 = panic
call_device_service io_write8 = panic
call_device_service io_write16 = panic
call_device_service io_write32 = panic

unfoldable pub call_kernel_service : KernelService → Outcome UacpiStatus
call_kernel_service get_nanoseconds_since_boot = panic
call_kernel_service stall = panic
call_kernel_service sleep = panic
call_kernel_service create_event = panic
call_kernel_service free_event = panic
call_kernel_service get_thread_id = panic
call_kernel_service create_mutex = panic
call_kernel_service free_mutex = panic
call_kernel_service acquire_mutex = panic
call_kernel_service release_mutex = panic
call_kernel_service wait_for_event = panic
call_kernel_service signal_event = panic
call_kernel_service reset_event = panic
call_kernel_service handle_firmware_request = panic
call_kernel_service install_interrupt_handler = panic
call_kernel_service uninstall_interrupt_handler = panic
call_kernel_service create_spinlock = panic
call_kernel_service free_spinlock = panic
call_kernel_service lock_spinlock = panic
call_kernel_service unlock_spinlock = panic
call_kernel_service schedule_work = panic
call_kernel_service wait_for_work_completion = panic
