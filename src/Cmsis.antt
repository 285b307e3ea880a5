-- ===== src/Cmsis.antt =====
-- src/_cmsis_rtos/cmsis_error.hpp: the status codes of the CMSIS-RTOS calls.
use weos.Common.{ℕ}

abbrev pub os_ok : ℕ
os_ok = 0

abbrev pub os_event_signal : ℕ
os_event_signal = 0x08

abbrev pub os_event_message : ℕ
os_event_message = 0x10

abbrev pub os_event_timeout : ℕ
os_event_timeout = 0x40

abbrev pub os_error_resource : ℕ
os_error_resource = 0x81

abbrev pub os_error_timeout_resource : ℕ
os_error_timeout_resource = 0xC1

abbrev pub os_error_os : ℕ
os_error_os = 0xFF

-- osWaitForever of cmsis_os.h, as a uint32_t.
abbrev pub os_wait_forever : ℕ
os_wait_forever = 0xFFFFFFFF
