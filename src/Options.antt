-- ===== src/Options.antt =====
-- include/trans/advertise_options.hpp: how far a topic is visible, and how it is published.
use rf_trans_v.Base.{ℕ, ◌-◌, ◌^◌, Bool, true, false, not, ◌&&◌, ◌==◌}

pub data Scope : Type 0 where
  process host all : Scope

unfoldable pub scope_eq : Scope → Scope → Bool
scope_eq process process = true
scope_eq host host = true
scope_eq all all = true
scope_eq _ _ = false

unfoldable pub bool_eq : Bool → Bool → Bool
bool_eq true b = b
bool_eq false b = not b

-- kUnthrottled of include/trans/details/helpers.hpp, the largest `uint64_t`
abbrev pub unthrottled : ℕ
unthrottled = 2 ^ 64 - 1

pub record AdvertiseOptions : Type 0 where
  pub scope : Scope

abbrev pub default_options : AdvertiseOptions
default_options = record { scope = all }

unfoldable pub options_eq : AdvertiseOptions → AdvertiseOptions → Bool
unfolding scope_eq
options_eq a b = scope_eq a.scope b.scope

pub record AdvertiseMessageOptions : Type 0 where
  pub options : AdvertiseOptions
  pub open options use *
  pub msgs_per_sec : ℕ
  pub use_shm : Bool

abbrev pub default_message_options : AdvertiseMessageOptions
default_message_options = record {
  options = default_options;
  msgs_per_sec = unthrottled;
  use_shm = false;
}

unfoldable pub throttled : AdvertiseMessageOptions → Bool
throttled o = not (o.msgs_per_sec == unthrottled)

unfoldable pub message_options_eq : AdvertiseMessageOptions → AdvertiseMessageOptions → Bool
unfolding options_eq bool_eq
message_options_eq a b =
    options_eq a.options b.options
    && a.msgs_per_sec == b.msgs_per_sec
    && bool_eq a.use_shm b.use_shm

pub record AdvertiseServiceOptions : Type 0 where
  pub options : AdvertiseOptions
  pub open options use *

abbrev pub default_service_options : AdvertiseServiceOptions
default_service_options = record { options = default_options }

unfoldable pub service_options_eq : AdvertiseServiceOptions → AdvertiseServiceOptions → Bool
unfolding options_eq
service_options_eq a b = options_eq a.options b.options
