-- ===== src/Controller/DriverStatus.antt =====
-- gugaPI/drivers/common/driver_status.h.
pub data DriverStatus : Type 0 where
  ok error invalid_arg not_initialized timeout busy unsupported nack : DriverStatus
