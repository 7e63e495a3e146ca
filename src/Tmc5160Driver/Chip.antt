-- ===== src/Tmc5160Driver/Chip.antt =====
-- The transport of onboard/src/tmc5160_driver.cpp: datagrams of five bytes under a chip select that the
-- driver sets by itself. The bus and the GPIO lines are an interface over their state `B`.
use coatheal_flight_software.Prelude.{
  ℕ, ◌+◌, ◌*◌, ◌/◌, ◌%◌, ◌^◌, Bool, true, false, not, ◌&&◌, ◌||◌, Option, none, some, if◌then◌else◌,
}
use coatheal_flight_software.Prelude.Int.{ℤ}
use coatheal_flight_software.Tmc5160Driver.Registers.{StallDetect}

pub record Datagram : Type 0 where
  pub head : ℕ
  pub byte_3 : ℕ
  pub byte_2 : ℕ
  pub byte_1 : ℕ
  pub byte_0 : ℕ

-- `SpiBus` and the GPIO calls. `true` is success; `clock` returns the reply, or `none` if it fails.
pub record Bus (B : Type 0) : Type 0 where
  pub open_spi : B → Bool × B
  pub open_gpio : B → Bool × B
  pub close_gpio : B → B
  pub set_cs : Bool → B → Bool × B
  pub set_enable_line : Bool → B → Bool × B
  pub clock : Datagram → B → Option Datagram × B

pub record Tmc5160Config (W : Type 0) : Type 0 where
  pub has_bus : Bool
  pub use_gpio : Bool
  pub enable_active_low : Bool
  pub invert_direction : Bool
  pub stealth_chop : Bool
  pub run_current_a_rms : W
  pub sense_resistor_ohm : W
  pub hold_current_frac : W
  pub stall_detect : StallDetect
  pub stallguard_sgt : ℤ
  pub stall_sg_min : ℤ
  pub stall_confirm_samples : ℤ
  pub stall_min_step_hz : W

-- The part of the driver that the transport reads and writes, with the state of the bus. `has_handles`
-- says that the two GPIO handles are not null.
pub record Link (B : Type 0) : Type 0 where
  pub bus : B
  pub has_handles : Bool
  pub gpio_healthy : Bool
  pub spi_open : Bool
  pub spi_bus_ok : Bool
  pub last_spi_status : ℕ

-- The value that a reply carries.
unfoldable pub value_of : Datagram → ℕ
value_of rx =
    rx.byte_3 % 256 * 2 ^ 24 + rx.byte_2 % 256 * 2 ^ 16 + rx.byte_1 % 256 * 2 ^ 8 + rx.byte_0 % 256

unfoldable pub write_datagram : ℕ → ℕ → Datagram
write_datagram address value = record {
  head = 128 + address % 128;
  byte_3 = value / 2 ^ 24 % 256;
  byte_2 = value / 2 ^ 16 % 256;
  byte_1 = value / 2 ^ 8 % 256;
  byte_0 = value % 256;
}

unfoldable pub read_datagram : ℕ → Datagram
read_datagram address = record {
  head = address % 128;
  byte_3 = 0;
  byte_2 = 0;
  byte_1 = 0;
  byte_0 = 0;
}

module _ {B W : Type 0} ⦃b : Bus B⦄ where
  -- The bus is there, open and, with GPIO, usable.
  abbrev pub is_ready : Tmc5160Config W → Link B → Bool
  is_ready c l = c.has_bus && l.spi_open && (not c.use_gpio || l.gpio_healthy && l.has_handles)

  -- The chip select, which does nothing without GPIO.
  abbrev pub select : Tmc5160Config W → Bool → B → Bool × B
  select c level bus = if c.use_gpio then b.set_cs level bus else (true, bus)

  unfoldable pub transfer : Tmc5160Config W → Datagram → Link B → Option Datagram × Link B
  transfer c tx l =
      let (low, bus₁) = select c false l.bus in
      let (reply, bus₂) = b.clock tx bus₁ in
      let (high, bus₃) = select c true bus₂ in
      if not (is_ready c l)
      then (none, record l { spi_bus_ok = false })
      else if not low
      then (none, record l { bus = bus₁; gpio_healthy = false; spi_bus_ok = false })
      else if not high
      then (none, record l { bus = bus₃; gpio_healthy = false; spi_bus_ok = false })
      else elim reply [
        | none ↦ (none, record l { bus = bus₃; spi_bus_ok = false })
        | some rx ↦ (some rx, record l { bus = bus₃; spi_bus_ok = true })
      ]

  unfoldable pub write_register : Tmc5160Config W → ℕ → ℕ → Link B → Bool × Link B
  write_register c address value l =
      let (reply, l₁) = transfer c (write_datagram address value) l in
      elim reply [ none ↦ (false, l₁) | some rx ↦ (true, record l₁ { last_spi_status = rx.head }) ]

  -- The reply to the second exchange carries the value.
  unfoldable pub read_register : Tmc5160Config W → ℕ → Link B → Option ℕ × Link B
  read_register c address l =
      let (first, l₁) = transfer c (read_datagram address) l in
      let (second, l₂) = transfer c (read_datagram address) l₁ in
      elim first [
        | none ↦ (none, l₁)
        | some rx₁ ↦ elim second [
          | none ↦ (none, l₂)
          | some rx ↦ (some (value_of rx), record l₂ { last_spi_status = rx.head })
        ]
      ]

  -- `OpenSpi`.
  unfoldable pub open_spi : Tmc5160Config W → Link B → Bool × Link B
  open_spi c l =
      let (opened, bus) = b.open_spi l.bus in
      if not c.has_bus
      then (false, l)
      else if l.spi_open
      then (true, l)
      else if opened
      then (true, record l { bus = bus; spi_open = true })
      else (false, record l { bus = bus; spi_bus_ok = false })

  unfoldable pub close_gpio : Tmc5160Config W → Link B → Link B
  close_gpio c l = record l {
    bus = if c.use_gpio then b.close_gpio l.bus else l.bus;
    has_handles = false;
    gpio_healthy = false;
  }

  -- `OpenGpio`: both lines are requested, or closed again.
  unfoldable pub open_gpio : Tmc5160Config W → Link B → Bool × Link B
  open_gpio c l =
      let (opened, bus) = b.open_gpio l.bus in
      if not c.use_gpio
      then (true, record l { gpio_healthy = true })
      else if opened
      then (true, record l { bus = bus; has_handles = true; gpio_healthy = true })
      else (false, close_gpio c (record l { bus = bus }))
